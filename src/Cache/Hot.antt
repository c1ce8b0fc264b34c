-- ===== src/Cache/Hot.antt =====
-- HotRangeCache of crates/cache/src/lib.rs: the bounded in-memory tier. The map is an association
-- list, in the order in which the program's HashMap iterates; a poisoned mutex is not modelled.
pub mod Eviction
pub mod Budget
pub mod Reads
pub mod Hits
use quic_kfs.Prelude.{
  ℕ, zero, suc, ◌+◌, ◌-◌, Bool, true, false, not, ◌&&◌, Option, none, some, List, [], ◌∷◌, ◌++◌,
  ltb, leb, ◌==◌, if◌then◌else◌, length, retain, any, checked_add, saturating_add, min, ◌||◌,
}
use quic_kfs.Cache.Keys.{
  RevisionKey, RangeKey, revision_eq, range_eq, valid_range_payload, get_range, checked_sub, ◌>>=◌,
}

abbrev pub Entries : Type 0
Entries = List (RangeKey × List ℕ)

pub record HotRangeState : Type 0 where
  pub entries : Entries
  pub least_recently_used : List RangeKey
  pub bytes : ℕ

-- HashMap::get and HashMap::remove
unfoldable pub lookup : RangeKey → Entries → Option (List ℕ)
lookup key [] = none
lookup key ((k, v) ∷ rest) = if range_eq k key then some v else lookup key rest

unfoldable pub remove_entry : RangeKey → Entries → Entries
remove_entry key [] = []
remove_entry key ((k, v) ∷ rest) = if range_eq k key then rest else (k, v) ∷ remove_entry key rest

-- The end of a candidate that has the byte at `position`: the closure of `filter_map`.
unfoldable pub candidate_end : RevisionKey → ℕ → RangeKey → Option ℕ
candidate_end file position candidate = do
  end' ← checked_add candidate.offset candidate.length
  if revision_eq candidate.file file && leb candidate.offset position && ltb position end'
      then some end'
      else none

-- `max_by_key(|(_, end)| *end)`: the last of the greatest.
unfoldable pub best_candidate : RevisionKey → ℕ → Entries → Option (RangeKey × ℕ)
unfolding candidate_end
best_candidate file position [] = none
best_candidate file position ((k, v) ∷ rest) = elim (candidate_end file position k) [
  | none ↦ best_candidate file position rest
  | some end' ↦ elim (best_candidate file position rest) [
    | none ↦ some (k, end')
    | some (best, best_end) ↦ if leb end' best_end then some (best, best_end) else some (k, end')
  ]
]

-- How the loop of `get` ends: with the bytes and the entries used, or by a `?`.
pub data Reading : Type 0 where
  found : List ℕ → List RangeKey → Reading
  missed out_of_fuel : Reading

-- The body of the loop: the entry to copy from, the bytes, and the next position.
unfoldable pub copy_from : RevisionKey → ℕ → ℕ → Entries → Option (RangeKey × List ℕ × ℕ)
copy_from file request_end position entries = do
  (candidate, candidate_end') ← best_candidate file position entries
  value ← lookup candidate entries
  start ← checked_sub position candidate.offset
  end' ← checked_sub (min candidate_end' request_end) candidate.offset
  chunk ← get_range start end' value
  some (candidate, chunk, min candidate_end' request_end)

unfoldable pub read_loop : ℕ → RevisionKey → ℕ → ℕ → Entries → List ℕ → List RangeKey → Reading
read_loop zero file request_end position entries output used = out_of_fuel
read_loop (suc fuel) file request_end position entries output used =
    elim (ltb position request_end) [
      | false ↦ found output used
      | true ↦ elim (copy_from file request_end position entries) [
        | none ↦ missed
        | some (candidate, chunk, copy_end) ↦
            read_loop fuel file request_end copy_end entries (output ++ chunk)
              (used ++ candidate ∷ [])
      ]
    ]

-- One used entry moves to the back of the queue.
unfoldable pub touch : RangeKey → List RangeKey → List RangeKey
touch key queue = retain (λ candidate. not (range_eq candidate key)) queue ++ key ∷ []

unfoldable pub touch_all : List RangeKey → List RangeKey → List RangeKey
unfolding touch
touch_all [] queue = queue
touch_all (key ∷ keys) queue = touch_all keys (touch key queue)

-- What `get` does after its loop. `hash_order` is the order in which a HashSet of the used keys
-- iterates.
unfoldable pub finish_read :
    (List RangeKey → List RangeKey) → HotRangeState → Reading → Option (List ℕ) × HotRangeState
finish_read hash_order state (found output used) = (
  some output,
  record state { least_recently_used = touch_all (hash_order used) state.least_recently_used },
)
finish_read hash_order state missed = (none, state)
finish_read hash_order state out_of_fuel = (none, state)

-- The loop moves on by a byte at least: `key.length` rounds and the last test are enough fuel.
unfoldable pub get :
    (List RangeKey → List RangeKey) → RangeKey → HotRangeState → Option (List ℕ) × HotRangeState
get hash_order key state = elim (checked_add key.offset key.length) [
  | none ↦ (none, state)
  | some request_end ↦
      if key.length == 0
      then (some [], state)
      else finish_read hash_order state
          (read_loop (suc key.length) key.file request_end key.offset state.entries [] [])
]

abbrev pub size_of : Option (List ℕ) → ℕ
size_of none = 0
size_of (some value) = length value

-- The loop of `insert` that drops entries from the front of the queue.
unfoldable pub evict : ℕ → List RangeKey → Entries → ℕ → HotRangeState
evict maximum [] entries bytes = record {
  entries = entries;
  least_recently_used = [];
  bytes = bytes;
}
evict maximum (key ∷ queue) entries bytes =
    let rest =
      evict maximum queue (remove_entry key entries) (bytes - size_of (lookup key entries)) in
    if ltb maximum bytes
    then rest
    else record { entries = entries; least_recently_used = key ∷ queue; bytes = bytes }

unfoldable pub insert : ℕ → RangeKey → List ℕ → HotRangeState → HotRangeState
insert maximum key value state =
    if not (valid_range_payload key value) || length value == 0 || ltb maximum (length value)
    then state
    else evict maximum
        (retain (λ candidate. not (range_eq candidate key)) state.least_recently_used ++ key ∷ [])
        ((key, value) ∷ remove_entry key state.entries)
        (saturating_add (state.bytes - size_of (lookup key state.entries)) (length value))

abbrev pub node_of : RangeKey → ℕ
node_of key = key.file.node

-- The bytes of the entries of a node.
unfoldable pub bytes_of : ℕ → Entries → ℕ
bytes_of node [] = 0
bytes_of node ((k, v) ∷ rest) =
    if node_of k == node then length v + bytes_of node rest else bytes_of node rest

unfoldable pub invalidate : ℕ → HotRangeState → HotRangeState
unfolding bytes_of
invalidate node state = record {
  entries = retain (λ entry. not (node_of entry.0 == node)) state.entries;
  least_recently_used = retain (λ key. not (node_of key == node)) state.least_recently_used;
  bytes = state.bytes - bytes_of node state.entries;
}

-- HotRangeState::default
abbrev pub empty : HotRangeState
empty = record { entries = []; least_recently_used = []; bytes = 0 }

-- ===== src/Cache/Hot/Budget.antt =====
-- HotRangeCache of crates/cache/src/lib.rs keeps its count of bytes, its queue and its budget.
use quic_kfs.Prelude.{
  ℕ, ◌+◌, ◌-◌, ◌≤◌, ◌≡◌, refl, ◌∙◌, Bool, true, false, not, ◌||◌, List, [], ◌∷◌, arith, ltb, ◌==◌,
  length, retain, any, All, Bool-cases, Option-cases, checked_add, inl, inr, u64_max,
  saturating_add, All-map,
}
use quic_kfs.Cache.Keys.{RangeKey, range_eq, valid_range_payload}
use quic_kfs.Cache.Hot.{
  Entries, HotRangeState, lookup, remove_entry, touch, touch_all, get, finish_read, insert, size_of,
  bytes_of, node_of, invalidate, Reading, found, missed, out_of_fuel, empty,
}
use quic_kfs.Cache.Hot.Eviction.{
  total, has_key, Distinct, queued, IsBounded, total-remove_entry, Distinct-remove_entry,
  has_key-remove_entry_self, evict-IsBounded, queued-touch, queued_self, All-remove_entry,
}

-- If twice the budget is a 64-bit word, then an insertion keeps the count of bytes, the queue and
-- the budget, whether the entry is stored and old ones are dropped, or it is refused.
pub insert-IsBounded :
    (maximum : ℕ) (key : RangeKey) (value : List ℕ) (state : HotRangeState)
    → maximum + maximum ≤ u64_max
    → IsBounded maximum state
    → IsBounded maximum (insert maximum key value state)
unfolding insert
insert-IsBounded maximum key value state word b = elim (Bool-cases refuse) [
  | inl refused ↦ rw refused b
  | inr accepted ↦ rw accepted (
      unfold touch in
      evict-IsBounded maximum (touch key queue) ((key, value) ∷ remove_entry key state.entries)
        (saturating_add (state.bytes - size_of (lookup key state.entries)) (length value))
        (new_count (ground arith))
        (
          has_key-remove_entry_self key state.entries b.distinct,
          Distinct-remove_entry key state.entries b.distinct,
        )
        (
          queued_self key queue,
          All-remove_entry _ key state.entries
              (All-map (λ e h. queued-touch key e.0 queue h) state.entries b.evictable),
        ))
]
  where
    open state use {least_recently_used as queue}

    refuse : Bool
    refuse = not (valid_range_payload key value) || length value == 0 || ltb maximum (length value)

    new_count :
        length value ≤ maximum
        → saturating_add (state.bytes - size_of (lookup key state.entries)) (length value)
          ≡ length value + total (remove_entry key state.entries)
    new_count fits = omega (arith, total-remove_entry key state.entries, b.counted, b.within)

queued-touch_all :
    (keys queue : List RangeKey) (e : RangeKey)
    → any (λ k. range_eq k e) queue ≡ true
    → any (λ k. range_eq k e) (touch_all keys queue) ≡ true
unfolding touch_all
queued-touch_all [] queue e h = h
queued-touch_all (key ∷ keys) queue e h =
    queued-touch_all keys (touch key queue) e (queued-touch key e queue h)

finish_read-IsBounded :
    (hash_order : List RangeKey → List RangeKey) (maximum : ℕ) (state : HotRangeState)
    (reading : Reading)
    → IsBounded maximum state
    → IsBounded maximum (finish_read hash_order state reading).1
unfolding finish_read
finish_read-IsBounded hash_order maximum state (found output used) b = record {
  counted = b.counted;
  within = b.within;
  distinct = b.distinct;
  evictable =
      All-map (λ e h. queued-touch_all (hash_order used) state.least_recently_used e.0 h)
        state.entries b.evictable;
}
finish_read-IsBounded hash_order maximum state missed b = b
finish_read-IsBounded hash_order maximum state out_of_fuel b = b

-- A read keeps the count of bytes, the queue and the budget, in whatever order it touches the
-- entries that it used.
get-IsBounded :
    (hash_order : List RangeKey → List RangeKey) (maximum : ℕ) (key : RangeKey)
    (state : HotRangeState)
    → IsBounded maximum state
    → IsBounded maximum (get hash_order key state).1
unfolding get
get-IsBounded hash_order maximum key state b =
    elim (Option-cases (checked_add key.offset key.length)) [
      | inl overflow ↦ rw (overflow, get) b
      | inr (request_end, fits) ↦ elim (Bool-cases (key.length == 0)) [
        | inl empty' ↦ rw (fits, get, empty') b
        | inr more ↦ rw (fits, get, more) (finish_read-IsBounded hash_order maximum state _ b)
      ]
    ]

total-retain :
    (node : ℕ) (es : Entries)
    → total (retain (λ e. not (node_of e.0 == node)) es) + bytes_of node es ≡ total es
unfolding bytes_of
total-retain node [] = refl
total-retain node ((k, v) ∷ es) = ground (arith, total-retain node es)

has_key-retain :
    (node : ℕ) (key : RangeKey) (es : Entries)
    → has_key key es ≡ false
    → has_key key (retain (λ e. not (node_of e.0 == node)) es) ≡ false
has_key-retain node key [] h = refl
has_key-retain node key ((k, v) ∷ es) h = ground (arith, has_key-retain node key es)

Distinct-retain :
    (node : ℕ) (es : Entries) → Distinct es → Distinct (retain (λ e. not (node_of e.0 == node)) es)
Distinct-retain node [] d = tt
Distinct-retain node ((k, v) ∷ es) d = elim (Bool-cases (node_of k == node)) [
  | inl hit ↦ rw hit (Distinct-retain node es d.1)
  | inr miss ↦ rw miss ((has_key-retain node k es d.0, Distinct-retain node es d.1))
]

queued-retain :
    (node : ℕ) (e : RangeKey) (queue : List RangeKey)
    → (node_of e == node) ≡ false
    → any (λ k. range_eq k e) (retain (λ k. not (node_of k == node)) queue)
      ≡ any (λ k. range_eq k e) queue
queued-retain node e [] h = refl
queued-retain node e (k ∷ queue) h = ground (arith, queued-retain node e queue h)

evictable-retain :
    (node : ℕ) (queue : List RangeKey) (es : Entries)
    → All (λ e. queued queue e ≡ true) es
    → All
        (λ e. queued (retain (λ k. not (node_of k == node)) queue) e ≡ true)
        (retain (λ e. not (node_of e.0 == node)) es)
evictable-retain node queue [] a = tt
evictable-retain node queue ((k, v) ∷ es) a = elim (Bool-cases (node_of k == node)) [
  | inl hit ↦ rw hit (evictable-retain node queue es a.1)
  | inr miss ↦ rw miss ((queued-retain node k queue miss ∙ a.0, evictable-retain node queue es a.1))
]

-- Dropping a node's entries keeps the count of bytes, the queue and the budget.
pub invalidate-IsBounded :
    (maximum node : ℕ) (state : HotRangeState)
    → IsBounded maximum state
    → IsBounded maximum (invalidate node state)
unfolding invalidate
invalidate-IsBounded maximum node state b = record {
  counted = omega (arith, total-retain node state.entries, b.counted);
  within = omega (arith, b.within);
  distinct = Distinct-retain node state.entries b.distinct;
  evictable = evictable-retain node state.least_recently_used state.entries b.evictable;
}

empty-IsBounded : (maximum : ℕ) → IsBounded maximum empty
empty-IsBounded maximum = record {
  counted = refl;
  within = omega arith;
  distinct = tt;
  evictable = tt;
}

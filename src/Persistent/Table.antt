-- ===== src/Persistent/Table.antt =====
-- next_clock, touch_entries, evict_to_budget and the changes of the entries in memory, of
-- crates/cache/src/lib.rs. A change that `?` leaves on the way is dropped with the proposed state.
use quic_kfs.Prelude.{
  ℕ, zero, suc, Bool, true, false, Option, none, some, List, [], ◌∷◌, ltb, leb, ◌==◌, if◌then◌else◌,
  length, saturating_add, checked_add,
}
use quic_kfs.Prelude.Lex.{lex_le}
use quic_kfs.Cache.Keys.{checked_sub}
use quic_kfs.Persistent.Store.{
  invalid_manifest, entry_too_large, CacheResult, err, ok, Bytes, EntryKey, key_eq, DiskEntry,
  Entries, PersistentState,
}

-- HashMap::get and HashMap::remove
unfoldable pub entry_of : EntryKey → Entries → Option DiskEntry
entry_of key [] = none
entry_of key ((k, e) ∷ rest) = if key_eq k key then some e else entry_of key rest

unfoldable pub without : EntryKey → Entries → Entries
without key [] = []
without key ((k, e) ∷ rest) = if key_eq k key then without key rest else (k, e) ∷ without key rest

unfoldable pub next_clock : PersistentState → PersistentState
next_clock s = record s { clock = saturating_add s.clock 1 }

unfoldable pub set_access : EntryKey → ℕ → Entries → Entries
set_access key tick [] = []
set_access key tick ((k, e) ∷ rest) =
    let others = set_access key tick rest in
    if key_eq k key then (k, record e { last_access = tick }) ∷ others else (k, e) ∷ others

unfoldable pub touch_entries : List EntryKey → PersistentState → PersistentState
touch_entries [] s = s
touch_entries (key ∷ keys) s =
    let ticked = next_clock s in
    touch_entries keys (record ticked { entries = set_access key ticked.clock s.entries })

-- The entry's length leaves the count with it.
unfoldable pub take_out : EntryKey → DiskEntry → PersistentState → CacheResult PersistentState
take_out key entry s = elim (checked_sub s.payload_bytes entry.stored_length) [
  | none ↦ err invalid_manifest
  | some left ↦ ok (record s { payload_bytes = left; entries = without key s.entries })
]

-- The order of `min_by`: by the last access, then by name.
unfoldable pub older : DiskEntry → DiskEntry → Bool
older left right =
    if ltb left.last_access right.last_access
    then true
    else if left.last_access == right.last_access
    then lex_le left.file_name right.file_name
    else false

unfoldable pub oldest : Entries → Option (EntryKey × DiskEntry)
oldest [] = none
oldest ((k, e) ∷ rest) = elim (oldest rest) [
  | none ↦ some (k, e)
  | some (k', e') ↦ if older e e' then some (k, e) else some (k', e')
]

-- The loop, in turns: each turn that goes on removes an entry.
unfoldable pub evict_turns : ℕ → ℕ → PersistentState → CacheResult PersistentState
evict_turns zero maximum s = err invalid_manifest
evict_turns (suc turns) maximum s =
    if leb s.payload_bytes maximum then ok s else elim (oldest s.entries) [
      | none ↦ err invalid_manifest
      | some (key, _) ↦ elim (entry_of key s.entries) [
        | none ↦ err invalid_manifest
        | some entry ↦ elim (take_out key entry s) [
          | err e ↦ err e
          | ok t ↦ evict_turns turns maximum t
        ]
      ]
    ]

unfoldable pub evict_to_budget : ℕ → PersistentState → CacheResult PersistentState
evict_to_budget maximum s = evict_turns (suc (length s.entries)) maximum s

-- The loop of `remove_keys_locked`.
unfoldable pub remove_keys : List EntryKey → PersistentState → CacheResult PersistentState
remove_keys [] s = ok s
remove_keys (key ∷ keys) s = elim (entry_of key s.entries) [
  | none ↦ remove_keys keys s
  | some entry ↦ elim (take_out key entry s) [ err e ↦ err e | ok t ↦ remove_keys keys t ]
]

-- A payload that is ready to be stored.
pub record PreparedEntry : Type 0 where
  pub key : EntryKey
  pub bytes : Bytes
  pub file_name : Bytes
  pub sha256 : Bytes
  pub stored_length : ℕ

abbrev pub entry_at : ℕ → PreparedEntry → DiskEntry
entry_at tick p = record {
  key = p.key;
  file_name = p.file_name;
  stored_length = p.stored_length;
  sha256 = p.sha256;
  last_access = tick;
}

unfoldable pub put : ℕ → PreparedEntry → PersistentState → CacheResult PersistentState
put tick p s = elim (checked_add s.payload_bytes p.stored_length) [
  | none ↦ err entry_too_large
  | some total ↦
      ok (record s { payload_bytes = total; entries = (p.key, entry_at tick p) ∷ s.entries })
]

-- `proposed.entries.remove(&entry.key)`, with the count.
unfoldable pub replace_old : EntryKey → PersistentState → CacheResult PersistentState
replace_old key s = elim (entry_of key s.entries) [
  | none ↦ ok s
  | some entry ↦ take_out key entry s
]

-- The loop that splices the new entries in.
unfoldable pub splice : List PreparedEntry → PersistentState → CacheResult PersistentState
splice [] s = ok s
splice (p ∷ ps) s =
    let ticked = next_clock s in
    elim (replace_old p.key ticked) [
      | err e ↦ err e
      | ok t ↦ elim (put ticked.clock p t) [ err e ↦ err e | ok u ↦ splice ps u ]
    ]

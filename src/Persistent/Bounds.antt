-- ===== src/Persistent/Bounds.antt =====
-- The bounds of the persistent cache of crates/cache/src/lib.rs: bytes and entries.
use quic_kfs.Prelude.{
  ℕ, ◌≤◌, ◌≡◌, refl, sym, inl, inr, none, List, [], ◌∷◌, ltb, length, arith, Bool-cases,
  Option-cases, checked_add, checked_add-eq-some,
}
use quic_kfs.Persistent.Store.{ok, EntryKey, key_eq, Entries, PersistentState}
use quic_kfs.Persistent.Table.{
  entry_of, remove_keys, PreparedEntry, set_access, touch_entries, put, replace_old, splice,
  next_clock, entry_at,
}
use quic_kfs.Persistent.Inserts.{propose, max_manifest_entries}
use quic_kfs.Persistent.Holding.{if_lem_on}
use quic_kfs.Persistent.Lookups.{Result-cases, replace_old-none}
use quic_kfs.Persistent.Budget.{
  stored_total, IsUnique, IsCounted, take_out-IsCounted, evict_to_budget-IsCounted,
}

-- A removal of a key that may be there.
pub cleared-IsCounted :
    (key : EntryKey) (s t : PersistentState)
    → IsCounted s
    → replace_old key s ≡ ok t
    → IsCounted t × (t.payload_bytes ≤ s.payload_bytes) × (length t.entries ≤ length s.entries)
unfolding replace_old
cleared-IsCounted key s t c h = elim (Option-cases (entry_of key s.entries)) [
  | inl absent ↦ let q : s ≡ t = ground arith in rw (sym q) (c, omega arith, omega arith)
  | inr (entry, present) ↦
      let (u, taken, counted, fewer, less) = take_out-IsCounted key entry s c present in
      let q : u ≡ t = ground arith in rw (sym q) (counted, less, omega (arith, fewer))
]

remove_keys-IsCounted :
    (keys : List EntryKey) (s t : PersistentState)
    → IsCounted s
    → remove_keys keys s ≡ ok t
    → IsCounted t × (t.payload_bytes ≤ s.payload_bytes) × (length t.entries ≤ length s.entries)
unfolding remove_keys
remove_keys-IsCounted [] s t c h =
    let q : s ≡ t = ground arith in rw (sym q) (c, omega arith, omega arith)
remove_keys-IsCounted (key ∷ keys) s t c h = elim (Option-cases (entry_of key s.entries)) [
  | inl absent ↦ remove_keys-IsCounted keys s t c (rw (absent, remove_keys) at h)
  | inr (entry, present) ↦
      let (u, taken, counted, fewer, less) = take_out-IsCounted key entry s c present in
      let (d, e, f) =
        remove_keys-IsCounted keys u t counted (rw (present, taken, remove_keys) at h) in
      (d, omega (arith, less, e), omega (arith, fewer, f))
]

put-IsCounted :
    (tick : ℕ) (p : PreparedEntry) (s t : PersistentState)
    → IsCounted s
    → entry_of p.key s.entries ≡ none
    → put tick p s ≡ ok t
    → IsCounted t
unfolding put
put-IsCounted tick p s t (c, u) absent h =
    elim (Option-cases (checked_add s.payload_bytes p.stored_length)) [
      | inl overflow ↦ absurd (ground arith)
      | inr (total, fits) ↦
          let (sum, _) = checked_add-eq-some s.payload_bytes p.stored_length total fits in
          let made : PersistentState = record s {
            payload_bytes = total;
            entries = (p.key, entry_at tick p) ∷ s.entries;
          } in
          let q : made ≡ t = ground arith in rw (sym q) (omega (arith, sum, c), (absent, u))
    ]

splice-IsCounted :
    (ps : List PreparedEntry) (s t : PersistentState)
    → IsCounted s
    → splice ps s ≡ ok t
    → IsCounted t
unfolding splice next_clock
splice-IsCounted [] s t c h = let q : s ≡ t = ground arith in rw (sym q) c
splice-IsCounted (p ∷ ps) s t c h =
    let ticked = next_clock s in
    elim (Result-cases (replace_old p.key ticked)) [
      | inl (x, wrong) ↦ absurd (ground arith)
      | inr (u, cleared) ↦ elim (Result-cases (put ticked.clock p u)) [
        | inl (x, wrong) ↦ absurd (ground arith)
        | inr (v, added) ↦
            splice-IsCounted ps v t
              (put-IsCounted ticked.clock p u v (cleared-IsCounted p.key ticked u c cleared).0
                (replace_old-none p.key ticked u cleared) added)
              (rw (cleared, added, splice) at h)
      ]
    ]

-- Exactly counted, within the budget, and within the limit on entries.
abbrev pub IsBounded : ℕ → PersistentState → Type 0
IsBounded m s = IsCounted s × (s.payload_bytes ≤ m) × (length s.entries ≤ max_manifest_entries)

pub propose-IsBounded :
    (m : ℕ) (ps : List PreparedEntry) (s q : PersistentState)
    → IsBounded m s
    → propose m ps s ≡ ok q
    → IsBounded m q
unfolding propose
propose-IsBounded m ps s q b h = elim (Result-cases (splice ps s)) [
  | inl (x, wrong) ↦ absurd (ground arith)
  | inr (t, spliced) ↦ elim (Bool-cases (ltb max_manifest_entries (length t.entries))) [
    | inl full ↦ absurd (ground arith)
    | inr room ↦
        let (u, evicted, counted, within, less) =
          evict_to_budget-IsCounted m t (splice-IsCounted ps s t b.0 spliced) in
        let same : u ≡ q = ground arith in rw (sym same) (counted, within, ground (arith, less))
  ]
]

pub remove_keys-IsBounded :
    (m : ℕ) (keys : List EntryKey) (s q : PersistentState)
    → IsBounded m s
    → remove_keys keys s ≡ ok q
    → IsBounded m q
remove_keys-IsBounded m keys s q (c, w, l) h =
    let (d, e, f) = remove_keys-IsCounted keys s q c h in (d, omega (arith, e), omega (arith, f))

set_access-same :
    (key : EntryKey) (tick : ℕ) (l : Entries)
    → (stored_total (set_access key tick l) ≡ stored_total l)
      × (length (set_access key tick l) ≡ length l)
unfolding set_access
set_access-same key tick [] = (refl, refl)
set_access-same key tick ((k, e) ∷ rest) =
    let ih = set_access-same key tick rest in (ground (arith, ih.0), ground (arith, ih.1))

set_access-none :
    (key : EntryKey) (tick : ℕ) (l : Entries) (k : EntryKey)
    → entry_of k l ≡ none
    → entry_of k (set_access key tick l) ≡ none
unfolding set_access entry_of
set_access-none key tick [] k h = refl
set_access-none key tick ((j, e) ∷ rest) k h = ground (arith, set_access-none key tick rest k)

set_access-IsUnique :
    (key : EntryKey) (tick : ℕ) (l : Entries) → IsUnique l → IsUnique (set_access key tick l)
unfolding set_access
set_access-IsUnique key tick [] u = tt
set_access-IsUnique key tick ((k, e) ∷ rest) (a, u) =
    let tail = set_access-IsUnique key tick rest u in
    let head = set_access-none key tick rest k a in
    if_lem_on IsUnique (key_eq k key) (head, tail) (head, tail)

pub touch-IsBounded :
    (m : ℕ) (keys : List EntryKey) (s : PersistentState)
    → IsBounded m s
    → IsBounded m (touch_entries keys s)
unfolding touch_entries next_clock
touch-IsBounded m [] s b = b
touch-IsBounded m (key ∷ keys) s ((c, u), w, l) =
    let ticked = next_clock s in
    let same = set_access-same key ticked.clock s.entries in
    touch-IsBounded m keys (record ticked { entries = set_access key ticked.clock s.entries })
      (
        (omega (arith, c, same.0), set_access-IsUnique key ticked.clock s.entries u),
        w,
        omega (arith, l, same.1),
      )

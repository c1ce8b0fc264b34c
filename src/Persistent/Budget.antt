-- ===== src/Persistent/Budget.antt =====
-- The budget of the persistent cache of crates/cache/src/lib.rs: its count of payload bytes.
use quic_kfs.Prelude.{
  ℕ, zero, suc, ◌+◌, ◌-◌, ◌≤◌, ◌<◌, ◌≡◌, ◌≢◌, refl, sym, ap, ◌∙◌, inl, inr, true, none, some, [],
  ◌∷◌, leb, length, arith, Bool-cases, Option-cases,
}
use quic_kfs.Persistent.Store.{ok, EntryKey, key_eq, DiskEntry, Entries, PersistentState}
use quic_kfs.Persistent.Table.{
  entry_of, without, take_out, older, oldest, evict_turns, evict_to_budget,
}
use quic_kfs.Persistent.Backing.{key_eq→eq, key_eq_refl}
use quic_kfs.Persistent.Lookups.{entry_of-without}

abbrev pub stored_total : Entries → ℕ
stored_total [] = 0
stored_total ((k, e) ∷ rest) = e.stored_length + stored_total rest

-- No key stands twice.
abbrev pub IsUnique : Entries → Type 0
IsUnique [] = Unit
IsUnique ((k, e) ∷ rest) = (entry_of k rest ≡ none) × IsUnique rest

abbrev pub IsCounted : PersistentState → Type 0
IsCounted s = (s.payload_bytes ≡ stored_total s.entries) × IsUnique s.entries

without-absent : (key : EntryKey) (l : Entries) → entry_of key l ≡ none → without key l ≡ l
unfolding without entry_of
without-absent key [] h = refl
without-absent key ((k, e) ∷ rest) h = elim (Bool-cases (key_eq k key)) [
  | inl same ↦ absurd (ground arith)
  | inr other ↦ rw other (ap (◌∷◌ (k, e)) (without-absent key rest (ground arith)))
]

stored_total-without :
    (key : EntryKey) (e : DiskEntry) (l : Entries)
    → IsUnique l
    → entry_of key l ≡ some e
    → (stored_total (without key l) + e.stored_length ≡ stored_total l)
      × (suc (length (without key l)) ≡ length l)
unfolding without entry_of
stored_total-without key e [] u h = absurd (ground arith)
stored_total-without key e ((k, x) ∷ rest) u h = elim (Bool-cases (key_eq k key)) [
  | inl same ↦
      let gone =
        without-absent key rest (ap (λ j. entry_of j rest) (sym (key_eq→eq k key same)) ∙ u.0) in
      let q : x ≡ e = ground arith in rw (same, gone, q) (omega arith, refl)
  | inr other ↦
      let ih = stored_total-without key e rest u.1 (ground arith) in
      rw other (omega (arith, ih.0), omega (arith, ih.1))
]

without-IsUnique : (key : EntryKey) (l : Entries) → IsUnique l → IsUnique (without key l)
unfolding without
without-IsUnique key [] u = tt
without-IsUnique key ((k, e) ∷ rest) u = elim (Bool-cases (key_eq k key)) [
  | inl same ↦ rw (same, without) (without-IsUnique key rest u.1)
  | inr other ↦
      rw (other, without)
        (entry_of-without key k rest ∙ ground (arith, u.0), without-IsUnique key rest u.1)
]

-- A counted state gives an entry up without an error, and stays counted.
pub take_out-IsCounted :
    (key : EntryKey) (e : DiskEntry) (s : PersistentState)
    → IsCounted s
    → entry_of key s.entries ≡ some e
    → (t : PersistentState) × (take_out key e s ≡ ok t)
      × IsCounted t
      × (suc (length t.entries) ≡ length s.entries)
      × (t.payload_bytes ≤ s.payload_bytes)
unfolding take_out
take_out-IsCounted key e s (c, u) h =
    let (total, fewer) = stored_total-without key e s.entries u h in
    let fits : leb e.stored_length s.payload_bytes ≡ true = ground (arith, total, c) in
    (
      record s {
        payload_bytes = s.payload_bytes - e.stored_length;
        entries = without key s.entries;
      },
      rw (fits, take_out) refl,
      (omega (arith, total, c), without-IsUnique key s.entries u),
      fewer,
      omega arith,
    )

oldest-entry_of :
    (k : EntryKey) (e : DiskEntry) (l : Entries) → oldest l ≡ some (k, e) → entry_of k l ≢ none
unfolding oldest entry_of
oldest-entry_of k e [] h n = ground arith
oldest-entry_of k e ((k', e') ∷ l) h n = elim (Option-cases (oldest l)) [
  | inl last ↦ ground (arith, key_eq_refl k')
  | inr ((j, x), more) ↦ elim (Bool-cases (older e' x)) [
    | inl first ↦ ground (arith, key_eq_refl k')
    | inr later ↦ elim (Bool-cases (key_eq k' k)) [
      | inl same ↦ ground arith
      | inr other ↦ oldest-entry_of k e l (ground arith) (ground arith)
    ]
  ]
]

none_stored : (l : Entries) → oldest l ≡ none → stored_total l ≡ 0
unfolding oldest
none_stored [] h = refl
none_stored ((k, e) ∷ l) h = elim (Option-cases (oldest l)) [
  | inl last ↦ absurd (ground arith)
  | inr ((k', e'), more) ↦ absurd (ground arith)
]

pub evict_turns-IsCounted :
    (turns m : ℕ) (s : PersistentState)
    → IsCounted s
    → length s.entries < turns
    → (t : PersistentState) × (evict_turns turns m s ≡ ok t)
      × IsCounted t
      × (t.payload_bytes ≤ m)
      × (length t.entries ≤ length s.entries)
unfolding evict_turns
evict_turns-IsCounted zero m s c h = absurd (omega arith)
evict_turns-IsCounted (suc turns) m s c h = elim (Bool-cases (leb s.payload_bytes m)) [
  | inl enough ↦ (s, rw enough refl, c, ground arith, omega arith)
  | inr more ↦ elim (Option-cases (oldest s.entries)) [
    | inl empty ↦ let nothing = none_stored s.entries empty in absurd (ground (arith, c.0))
    | inr ((key, old), first) ↦ elim (Option-cases (entry_of key s.entries)) [
      | inl absent ↦ absurd (oldest-entry_of key old s.entries first absent)
      | inr (entry, present) ↦
          let (t, taken, counted, fewer, _) = take_out-IsCounted key entry s c present in
          let (u, evicted, d, within, less) =
            evict_turns-IsCounted turns m t counted (omega (arith, fewer)) in
          (
            u,
            rw (more, first, present, taken, evict_turns) evicted,
            d,
            within,
            omega (arith, less, fewer),
          )
    ]
  ]
]

-- If the count of a state is exact and its keys are unique, then evict_to_budget succeeds, with a state
-- that is within the budget, of which the count is exact, and which has no more entries.
pub evict_to_budget-IsCounted :
    (m : ℕ) (s : PersistentState)
    → IsCounted s
    → (t : PersistentState) × (evict_to_budget m s ≡ ok t)
      × IsCounted t
      × (t.payload_bytes ≤ m)
      × (length t.entries ≤ length s.entries)
unfolding evict_to_budget
evict_to_budget-IsCounted m s c = evict_turns-IsCounted (suc (length s.entries)) m s c (omega arith)

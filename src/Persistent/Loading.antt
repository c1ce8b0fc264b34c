-- ===== src/Persistent/Loading.antt =====
-- The entries of a manifest of crates/cache/src/lib.rs, sorted by name and loaded into a table.
use quic_kfs.Prelude.{
  ◌+◌, ◌≤◌, ◌≡◌, refl, sym, ap, ◌∙◌, true, false, Option, none, some, List, [], ◌∷◌, map, leb,
  arith, inl, inr, Bool-cases, All, u64_max, if◌then◌else◌,
}
use quic_kfs.Prelude.Sorting.{insert, sort_by}
use quic_kfs.Persistent.Store.{ok, EntryKey, key_eq, DiskEntry, Entries, PersistentState}
use quic_kfs.Persistent.Table.{entry_of}
use quic_kfs.Persistent.Commits.{name_le}
use quic_kfs.Persistent.Reads.{valid_cache_file_name}
use quic_kfs.Persistent.Backing.{key_eq→eq, key_eq_refl}
use quic_kfs.Persistent.Lookups.{key_eq-other}
use quic_kfs.Persistent.Budget.{stored_total, IsUnique}
use quic_kfs.Persistent.Opening.{load_entries}

-- The table of a manifest's entries.
abbrev pub table_of : List DiskEntry → Entries
table_of l = map (λ e. (e.key, e)) l

abbrev pub or_else : Option DiskEntry → Option DiskEntry → Option DiskEntry
or_else none b = b
or_else (some e) b = some e

insert-entry_of :
    (e : DiskEntry) (k : EntryKey) (l : List DiskEntry)
    → entry_of e.key (table_of l) ≡ none
    → entry_of k (table_of (insert name_le e l))
      ≡ (if key_eq e.key k then some e else entry_of k (table_of l))
unfolding insert entry_of
insert-entry_of e k [] h = refl
insert-entry_of e k (x ∷ xs) h = elim (Bool-cases (name_le e x)) [
  | inl first ↦ rw first refl
  | inr later ↦ ground (arith, later, h, insert-entry_of e k xs, key_eq-other x.key e.key k)
]

insert-IsUnique :
    (e : DiskEntry) (l : List DiskEntry)
    → entry_of e.key (table_of l) ≡ none
    → IsUnique (table_of l)
    → IsUnique (table_of (insert name_le e l))
unfolding insert entry_of
insert-IsUnique e [] h u = (refl, tt)
insert-IsUnique e (x ∷ xs) h u = elim (Bool-cases (name_le e x)) [
  | inl first ↦ rw first (h, u)
  | inr later ↦
      let apart : key_eq x.key e.key ≡ false = ground (arith, h) in
      let apart' = key_eq-other x.key e.key x.key apart (key_eq_refl x.key) in
      let absent : entry_of e.key (table_of xs) ≡ none = ground (arith, h) in
      rw later (insert-entry_of e x.key xs absent ∙ rw apart' u.0, insert-IsUnique e xs absent u.1)
]

insert-stored_total :
    (e : DiskEntry) (l : List DiskEntry)
    → stored_total (table_of (insert name_le e l)) ≡ e.stored_length + stored_total (table_of l)
unfolding insert
insert-stored_total e [] = refl
insert-stored_total e (x ∷ xs) = ground (arith, insert-stored_total e xs)

pub sort-entry_of :
    (k : EntryKey) (l : List DiskEntry)
    → IsUnique (table_of l)
    → entry_of k (table_of (sort_by name_le l)) ≡ entry_of k (table_of l)
unfolding sort_by entry_of
sort-entry_of k [] u = refl
sort-entry_of k (x ∷ xs) u =
    insert-entry_of x k (sort_by name_le xs) (sort-entry_of x.key xs u.1 ∙ u.0)
    ∙ ap (λ r. if key_eq x.key k then some x else r) (sort-entry_of k xs u.1)

pub sort-IsUnique :
    (l : List DiskEntry) → IsUnique (table_of l) → IsUnique (table_of (sort_by name_le l))
unfolding sort_by
sort-IsUnique [] u = tt
sort-IsUnique (x ∷ xs) u =
    insert-IsUnique x (sort_by name_le xs) (sort-entry_of x.key xs u.1 ∙ u.0) (sort-IsUnique xs u.1)

pub sort-stored_total :
    (l : List DiskEntry) → stored_total (table_of (sort_by name_le l)) ≡ stored_total (table_of l)
unfolding sort_by
sort-stored_total [] = refl
sort-stored_total (x ∷ xs) =
    insert-stored_total x (sort_by name_le xs)
    ∙ ap (λ n. x.stored_length + n) (sort-stored_total xs)

-- No entry of a list has a key of a table.
abbrev pub IsNew : Entries → List DiskEntry → Type 0
IsNew entries l = All (λ e. entry_of e.key entries ≡ none) l

cons-IsNew :
    (e : DiskEntry) (entries : Entries) (l : List DiskEntry)
    → entry_of e.key (table_of l) ≡ none
    → IsNew entries l
    → IsNew ((e.key, e) ∷ entries) l
unfolding entry_of
cons-IsNew e entries [] h n = tt
cons-IsNew e entries (x ∷ xs) h n =
    let apart : key_eq x.key e.key ≡ false = ground (arith, h) in
    let apart' = key_eq-other x.key e.key x.key apart (key_eq_refl x.key) in
    (rw apart' n.0, cons-IsNew e entries xs (ground (arith, h)) n.1)

or_else-cons :
    (e : DiskEntry) (l entries : Entries) (k : EntryKey)
    → entry_of e.key l ≡ none
    → or_else (entry_of k l) (entry_of k ((e.key, e) ∷ entries))
      ≡ or_else (entry_of k ((e.key, e) ∷ l)) (entry_of k entries)
unfolding entry_of
or_else-cons e l entries k h = elim (Bool-cases (key_eq e.key k)) [
  | inl same ↦
      let absent : entry_of k l ≡ none =
        ap (λ j. entry_of j l) (sym (key_eq→eq e.key k same)) ∙ h in
      rw (same, absent) refl
  | inr other ↦ rw other refl
]

pub load_entries-entry_of :
    (l : List DiskEntry) (s : PersistentState)
    → All (λ e. valid_cache_file_name e.file_name ≡ true) l
    → IsUnique (table_of l)
    → IsNew s.entries l
    → s.payload_bytes + stored_total (table_of l) ≤ u64_max
    → (t : PersistentState) × (load_entries l s ≡ ok t)
      × (t.clock ≡ s.clock)
      × (t.payload_bytes ≡ s.payload_bytes + stored_total (table_of l))
      × ((k : EntryKey)
          → entry_of k t.entries ≡ or_else (entry_of k (table_of l)) (entry_of k s.entries))
unfolding load_entries
load_entries-entry_of [] s v u n b = (s, refl, refl, omega arith, λ k. unfold entry_of in refl)
load_entries-entry_of (e ∷ es) s v u n b =
    let total = s.payload_bytes + e.stored_length in
    let next = record s { payload_bytes = total; entries = (e.key, e) ∷ s.entries } in
    let (t, loaded, clock, bytes, entries) =
      load_entries-entry_of es next v.1 u.1 (cons-IsNew e s.entries es u.0 n.1)
        (omega (arith, b)) in
    let fits : leb (s.payload_bytes + e.stored_length) u64_max ≡ true = ground (arith, b) in
    (
      t,
      rw (v.0, fits, n.0, load_entries) loaded,
      clock,
      omega (arith, bytes),
      λ k. entries k ∙ or_else-cons e (table_of es) s.entries k u.0,
    )

-- ===== src/Persistent/Reopening.antt =====
-- A cache of crates/cache/src/lib.rs that is opened again has the entries that its manifest was
-- written with.
use quic_kfs.Prelude.{
  suc, ◌≤◌, ◌≡◌, refl, sym, ap, subst, ◌∙◌, true, false, some, List, [], ◌∷◌, map, ltb, ==_refl,
  length, arith, inl, inr, Bool-cases, Option-cases, All, u64_max,
}
use quic_kfs.Prelude.Sorting.{sort_by, sort_by-All, length-sort_by}
use quic_kfs.Persistent.Store.{
  ok, Bytes, EntryKey, DiskEntry, Entries, PersistentState, Manifest, Encoding, Store,
}
use quic_kfs.Persistent.Table.{entry_of}
use quic_kfs.Persistent.Commits.{name_le, manifest_of, manifest_bytes, max_manifest_size}
use quic_kfs.Persistent.Inserts.{max_manifest_entries}
use quic_kfs.Persistent.Reads.{valid_cache_file_name}
use quic_kfs.Persistent.Budget.{stored_total, IsUnique, IsCounted}
use quic_kfs.Persistent.Opening.{accept_manifest, decode_manifest, empty_state}
use quic_kfs.Persistent.Loading.{
  table_of, or_else, IsNew, sort-entry_of, sort-IsUnique, sort-stored_total, load_entries-entry_of,
}

-- The key of an entry is the one that it stands under.
abbrev pub IsKeyed : Entries → Type 0
IsKeyed entries = All (λ e. e.1.key ≡ e.0) entries

keyed-table_of : (entries : Entries) → IsKeyed entries → table_of (map (λ e. e.1) entries) ≡ entries
keyed-table_of [] h = refl
keyed-table_of ((k, e) ∷ rest) h =
    ap (λ j. (j, e) ∷ table_of (map (λ (x : EntryKey × DiskEntry). x.1) rest)) h.0
    ∙ ap (◌∷◌ (k, e)) (keyed-table_of rest h.1)

All-IsNew : (l : List DiskEntry) → IsNew [] l
unfolding entry_of
All-IsNew [] = tt
All-IsNew (e ∷ es) = (refl, All-IsNew es)

or_else-empty : (k : EntryKey) (l : Entries) → or_else (entry_of k l) (entry_of k []) ≡ entry_of k l
unfolding entry_of
or_else-empty k l = elim (Option-cases (entry_of k l)) [
  | inl absent ↦ rw absent refl
  | inr (e, present) ↦ rw present refl
]

All-names :
    (entries : Entries)
    → All (λ e. valid_cache_file_name e.1.file_name ≡ true) entries
    → All
        (λ e. valid_cache_file_name e.file_name ≡ true)
        (map (λ (e : EntryKey × DiskEntry). e.1) entries)
All-names [] h = tt
All-names ((k, e) ∷ rest) h = (h.0, All-names rest h.1)

length-values :
    (entries : Entries) → length (map (λ (e : EntryKey × DiskEntry). e.1) entries) ≡ length entries
length-values [] = refl
length-values ((k, e) ∷ rest) = ap suc (length-values rest)

manifest_bytes-ok :
    {W : Type 0} (codec : Encoding) (s : Store W) (state : PersistentState) (bytes : Bytes)
    → manifest_bytes codec s state ≡ ok bytes
    → (codec.manifest_to_vec (manifest_of s state) ≡ some bytes)
      × (ltb max_manifest_size (length bytes) ≡ false)
unfolding manifest_bytes
manifest_bytes-ok codec s state bytes h =
    elim (Option-cases (codec.manifest_to_vec (manifest_of s state))) [
      | inl unencoded ↦ absurd (ground arith)
      | inr (b, encoded) ↦ elim (Bool-cases (ltb max_manifest_size (length b))) [
        | inl large ↦ absurd (ground arith)
        | inr small ↦
            let q : b ≡ bytes = ground arith in
            (encoded ∙ ap some q, subst (λ x. ltb max_manifest_size (length x) ≡ false) q small)
      ]
    ]

-- If what is serialised is read back, the count of a state is exact and its keys are unique, its entries
-- stand under their keys, with valid names, within 64 bits and the limit on entries, and its manifest
-- fits its size, then the manifest's bytes are loaded as a state with the same clock and count, and
-- with the same entry under every key.
pub decode_manifest_round_trip :
    {W : Type 0} (codec : Encoding) (s : Store W) (state : PersistentState) (bytes : Bytes)
    → ((m : Manifest) (b : Bytes)
        → codec.manifest_to_vec m ≡ some b
        → codec.manifest_from_slice b ≡ some m)
    → IsCounted state
    → IsKeyed state.entries
    → All (λ e. valid_cache_file_name e.1.file_name ≡ true) state.entries
    → state.payload_bytes ≤ u64_max
    → length state.entries ≤ max_manifest_entries
    → manifest_bytes codec s state ≡ ok bytes
    → (t : PersistentState) × (decode_manifest codec s.namespace bytes ≡ ok t)
      × (t.clock ≡ state.clock)
      × (t.payload_bytes ≡ state.payload_bytes)
      × ((k : EntryKey) → entry_of k t.entries ≡ entry_of k state.entries)
unfolding decode_manifest accept_manifest
decode_manifest_round_trip codec s state bytes inverse (c, u) keyed names fits few written =
    let values = map (λ (e : EntryKey × DiskEntry). e.1) state.entries in
    let sorted = sort_by name_le values in
    let same = keyed-table_of state.entries keyed in
    let unique : IsUnique (table_of values) = subst IsUnique (sym same) u in
    let (encoded, small) = manifest_bytes-ok codec s state bytes written in
    let decoded = inverse (manifest_of s state) bytes encoded in
    let total = sort-stored_total values ∙ ap stored_total same in
    let number = length-sort_by name_le values ∙ length-values state.entries in
    let room : ltb max_manifest_entries (length sorted) ≡ false = ground (arith, number) in
    let (t, loaded, clock, stored, entries) =
      load_entries-entry_of sorted (record empty_state { clock = state.clock })
        (sort_by-All name_le _ values (All-names state.entries names)) (sort-IsUnique values unique)
        (All-IsNew sorted) (omega (arith, total, c)) in
    (
      t,
      rw (small, decoded, room, ==_refl s.namespace, decode_manifest, accept_manifest) loaded,
      clock,
      omega (arith, stored, total, c),
      λ k.
          entries k
          ∙ or_else-empty k (table_of sorted)
          ∙ sort-entry_of k values unique
          ∙ ap (entry_of k) same,
    )

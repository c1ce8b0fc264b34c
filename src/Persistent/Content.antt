-- ===== src/Persistent/Content.antt =====
-- A range that the persistent cache of crates/cache/src/lib.rs returns has the bytes of the file.
use quic_kfs.Prelude.{
  ℕ, ◌≤◌, ◌≡◌, refl, sym, ap, subst, ◌∙◌, Bool, true, Option, none, some, List, [], ◌∷◌, ltb, ◌==◌,
  ==→eq, length, arith, inl, inr, Bool-cases, Option-cases, All, All-retain, retain, u64_max,
  checked_add, &&-eq-true,
}
use quic_kfs.Cache.Keys.{
  RevisionKey, RangeKey, revision_eq→eq, valid_range_payload, Segment, assemble_range,
}
use quic_kfs.Cache.Content.{read_at, length-read_at}
use quic_kfs.Cache.Assembly.{Agrees, assemble_range-read_at}
use quic_kfs.Persistent.Store.{
  CacheError, corrupt_entry, CacheResult, err, ok, Bytes, EntryKey, metadata_key, directory_key,
  range_key, stats_key, key_eq, DiskEntry, Entries, PersistentState, Encoding, Files, Store,
  and_then,
}
use quic_kfs.Persistent.Table.{entry_of}
use quic_kfs.Persistent.Reads.{read_disk_entry, or_remove}
use quic_kfs.Persistent.Ranges.{
  is_candidate, segment_of, read_segment, read_segments, answer_range, get_range_value,
  remove_corrupt,
}
use quic_kfs.Persistent.Backing.{IsDisk, IsCollisionFree, key_eq→eq, key_eq_refl}
use quic_kfs.Persistent.Holding.{if_lem_on}
use quic_kfs.Persistent.Budget.{IsUnique}
use quic_kfs.Persistent.Stored.{Payloads, IsTrue}
use quic_kfs.Persistent.Answers.{
  read_disk_entry-state, Verified, read_disk_entry-Verified, read_disk_entry-IsTrue,
}

-- The payloads of ranges are the bytes of the files at their revisions.
abbrev pub IsContent : (RevisionKey → ℕ → ℕ) → Payloads
IsContent content (range_key r) b = b ≡ read_at (content r.file) r.offset r.length
IsContent content _ b = Unit

abbrev pub IsListed : Entries → Entries → Type 0
IsListed entries l = All (λ e. entry_of e.0 entries ≡ some e.1) l

IsListed-cons :
    (k : EntryKey) (e : DiskEntry) (rest l : Entries)
    → entry_of k rest ≡ none
    → IsListed rest l
    → IsListed ((k, e) ∷ rest) l
unfolding entry_of
IsListed-cons k e rest [] u h = tt
IsListed-cons k e rest ((j, x) ∷ l) u h = elim (Bool-cases (key_eq k j)) [
  | inl same ↦
      let p : entry_of j rest ≡ none = ap (λ i. entry_of i rest) (sym (key_eq→eq k j same)) ∙ u in
      absurd (ground (arith, h.0))
  | inr other ↦ (rw other h.0, IsListed-cons k e rest l u h.1)
]

-- In a table whose keys are unique each entry is found under its key.
pub IsUnique-IsListed : (entries : Entries) → IsUnique entries → IsListed entries entries
unfolding entry_of
IsUnique-IsListed [] u = tt
IsUnique-IsListed ((k, e) ∷ rest) u =
    (rw (key_eq_refl k) refl, IsListed-cons k e rest rest u.0 (IsUnique-IsListed rest u.1))

retain-passes : {A : Type 0} (p : A → Bool) (xs : List A) → All (λ x. p x ≡ true) (retain p xs)
retain-passes p [] = tt
retain-passes p (x ∷ xs) = elim (Bool-cases (p x)) [
  | inl yes_it ↦ rw yes_it (yes_it, retain-passes p xs)
  | inr no_it ↦ rw no_it (retain-passes p xs)
]

module _ {W : Type 0} (files : Files W) (codec : Encoding) (contents : W → Bytes → Option Bytes)
    (disk : IsDisk files contents) (free : IsCollisionFree codec) (content : RevisionKey → ℕ → ℕ)
    (m : ℕ) where
  abbrev IsTrueOf : Store W → Type 0
  IsTrueOf = IsTrue files codec contents disk free m (IsContent content)

  -- A segment that was read agrees with the file, and the entries are as they were.
  abbrev IsRead : RevisionKey → PersistentState → Store W × CacheResult (Segment EntryKey) → Type 0
  IsRead file p (t, err x) = Unit
  IsRead file p (t, ok segment) = Agrees (content file) segment × IsTrueOf t × (t.state ≡ p)

  failed-IsRead :
      (file : RevisionKey) (p : PersistentState) (x : CacheError)
      (r : Store W × CacheResult (Unit {0}))
      → IsRead file p (and_then r (λ _ t. (t, err x)))
  failed-IsRead file p x (t, err y) = tt
  failed-IsRead file p x (t, ok _) = tt

  segment_of-IsRead :
      (key : RangeKey) (k : EntryKey) (bytes : Bytes) (s : Store W)
      → is_candidate key k ≡ true
      → IsContent content k bytes
      → IsTrueOf s
      → IsRead key.file s.state (segment_of files codec k bytes s)
  unfolding segment_of is_candidate remove_corrupt
  segment_of-IsRead key (range_key r) bytes s c h t =
      let file = revision_eq→eq r.file key.file (&&-eq-true _ _ c).0 in
      let long = ap (λ x. length x) h ∙ length-read_at (content r.file) r.offset r.length in
      if_lem_on (IsRead key.file s.state) (valid_range_payload r bytes)
        (
          h
              ∙ ap (λ n. read_at (content r.file) r.offset n) (sym long)
              ∙ ap (λ f. read_at (content f) r.offset (length bytes)) file,
          t,
          refl,
        )
        (failed-IsRead key.file s.state corrupt_entry _)
  segment_of-IsRead key (metadata_key n) bytes s c h t = tt
  segment_of-IsRead key (directory_key n) bytes s c h t = tt
  segment_of-IsRead key stats_key bytes s c h t = tt

  read_segment-IsRead :
      (key : RangeKey) (k : EntryKey) (e : DiskEntry) (s : Store W)
      → m ≤ u64_max
      → is_candidate key k ≡ true
      → entry_of k s.state.entries ≡ some e
      → IsTrueOf s
      → IsRead key.file s.state (read_segment files codec k e s)
  unfolding read_segment or_remove
  read_segment-IsRead key k e s w c f (a, h) =
      let held = h k e f in
      by_result (read_disk_entry files codec e s) held.0 held.6
        (read_disk_entry-Verified files codec contents disk free (IsContent content) m k e s w a
          held)
        (read_disk_entry-IsTrue files codec contents disk free (IsContent content) m e s (a, h))
        (read_disk_entry-state files codec e s)
    where
      by_result :
          (r : Store W × CacheResult Bytes) (bytes : Bytes)
          → IsContent content k bytes
          → Verified bytes r.1
          → IsTrueOf r.0
          → r.0.state ≡ s.state
          → IsRead key.file s.state (elim r.1 as (λ _. Store W × CacheResult (Segment EntryKey)) [
            | ok b ↦ segment_of files codec k b r.0
            | err x ↦ or_remove files codec k x r.0
          ])
      by_result (t, ok b) bytes st v h' q =
          subst (λ p. IsRead key.file p (segment_of files codec k b t)) q
            (segment_of-IsRead key k b t c (subst (IsContent content k) (sym v) st) h')
      by_result (t, err x) bytes st v h' q = rw (v, or_remove) tt

  abbrev AreRead : RevisionKey → Store W × CacheResult (List (Segment EntryKey)) → Type 0
  AreRead file (t, err x) = Unit
  AreRead file (t, ok segments) = All (Agrees (content file)) segments

  cons-AreRead :
      (file : RevisionKey) (segment : Segment EntryKey)
      (r : Store W × CacheResult (List (Segment EntryKey)))
      → Agrees (content file) segment
      → AreRead file r
      → AreRead file (and_then r (λ segments u. (u, ok (segment ∷ segments))))
  cons-AreRead file segment (t, err x) a h = tt
  cons-AreRead file segment (t, ok segments) a h = (a, h)

  after_segment-AreRead :
      (file : RevisionKey) (p : PersistentState) (rest : Entries)
      (r : Store W × CacheResult (Segment EntryKey))
      → IsRead file p r
      → ((t : Store W) → IsTrueOf t → t.state ≡ p → AreRead file (read_segments files codec rest t))
      → AreRead file (
          and_then r (λ segment t.
            and_then
              (read_segments files codec rest t)
              (λ segments u. (u, ok (segment ∷ segments)))))
  after_segment-AreRead file p rest (t, err x) h next = tt
  after_segment-AreRead file p rest (t, ok segment) (a, h, q) next =
      cons-AreRead file segment (read_segments files codec rest t) a (next t h q)

  read_segments-AreRead :
      (key : RangeKey) (l : Entries) (s : Store W)
      → m ≤ u64_max
      → All (λ e. is_candidate key e.0 ≡ true) l
      → IsListed s.state.entries l
      → IsTrueOf s
      → AreRead key.file (read_segments files codec l s)
  unfolding read_segments
  read_segments-AreRead key [] s w c f h = tt
  read_segments-AreRead key ((k, e) ∷ rest) s w c f h =
      after_segment-AreRead key.file s.state rest (read_segment files codec k e s)
        (read_segment-IsRead key k e s w c.0 f.0 h)
        (λ t h' q.
          read_segments-AreRead key rest t w c.1
            (subst (λ (p : PersistentState). IsListed p.entries rest) (sym q) f.1) h')

  answer_range-read_at :
      (key : RangeKey) (r : Store W × CacheResult (List (Segment EntryKey))) (bytes : Bytes)
      → AreRead key.file r
      → (and_then r (answer_range files codec key)).1 ≡ ok (some bytes)
      → bytes ≡ read_at (content key.file) key.offset key.length
  unfolding answer_range
  answer_range-read_at key (t, err x) bytes a h = absurd (ground arith)
  answer_range-read_at key (t, ok segments) bytes a h =
      elim (Option-cases (assemble_range key segments)) [
        | inl gap ↦ absurd (ground arith)
        | inr (assembled, whole) ↦
            let q : assembled.bytes ≡ bytes = ground arith in
            sym q ∙ assemble_range-read_at (content key.file) key segments assembled a whole
      ]

  pub get_range_value-read_at :
      (key : RangeKey) (s : Store W) (bytes : Bytes)
      → m ≤ u64_max
      → IsTrueOf s
      → IsUnique s.state.entries
      → (get_range_value files codec key s).1 ≡ ok (some bytes)
      → bytes ≡ read_at (content key.file) key.offset key.length
  unfolding get_range_value
  get_range_value-read_at key s bytes w t u h =
      elim (Option-cases (checked_add key.offset key.length)) [
        | inl overflow ↦ absurd (ground arith)
        | inr (end', fits) ↦ elim (Bool-cases (key.length == 0)) [
          | inl zero_length ↦
              let q : [] ≡ bytes = ground arith in
              let e = ==→eq key.length 0 zero_length in
              sym q ∙ ap (read_at (content key.file) key.offset) (sym e)
          | inr some_length ↦ elim (Bool-cases (ltb s.maximum_payload_bytes key.length)) [
            | inl large ↦ absurd (ground arith)
            | inr small ↦
                let near = λ (e : EntryKey × DiskEntry). is_candidate key e.0 in
                let found_in =
                  λ (e : EntryKey × DiskEntry). entry_of e.0 s.state.entries ≡ some e.1 in
                let candidates = retain near s.state.entries in
                answer_range-read_at key (read_segments files codec candidates s) bytes
                  (read_segments-AreRead key candidates s w (retain-passes near s.state.entries)
                    (All-retain found_in near s.state.entries (IsUnique-IsListed s.state.entries u))
                    t)
                  (rw (fits, some_length, small, get_range_value) at h)
          ]
        ]
      ]

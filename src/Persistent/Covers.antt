-- ===== src/Persistent/Covers.antt =====
-- get_covering_range_value of crates/cache/src/lib.rs answers the bytes of the range that it names.
use quic_kfs.Prelude.{
  ℕ, ◌≤◌, ◌≡◌, sym, ap, subst, ◌∙◌, inl, inr, Option, none, some, [], ◌∷◌, arith, ltb, ◌==◌, ==→eq,
  Bool-cases, Option-cases, leb, checked_add, u64_max, if◌then◌else◌,
}
use quic_kfs.Cache.Keys.{RevisionKey, RangeKey, valid_range_payload}
use quic_kfs.Cache.Content.{read_at}
use quic_kfs.Persistent.Store.{
  CacheError, corrupt_entry, CacheResult, err, ok, Bytes, EntryKey, metadata_key, directory_key,
  range_key, stats_key, DiskEntry, Entries, Encoding, Files, Store, and_then,
}
use quic_kfs.Persistent.Table.{entry_of}
use quic_kfs.Persistent.Reads.{read_disk_entry, or_remove, touch}
use quic_kfs.Persistent.Ranges.{
  covers, shortest_cover, remove_corrupt, read_cover, get_covering_range_value,
}
use quic_kfs.Persistent.Backing.{IsDisk, IsCollisionFree}
use quic_kfs.Persistent.Holding.{if_lem_on}
use quic_kfs.Persistent.Budget.{IsUnique}
use quic_kfs.Persistent.Stored.{IsTrue}
use quic_kfs.Persistent.Answers.{Verified, read_disk_entry-Verified}
use quic_kfs.Persistent.Listings.{IsIn}
use quic_kfs.Persistent.Content.{IsContent, IsListed, IsUnique-IsListed}

shortest_cover-IsIn :
    (key : RangeKey) (request_end : ℕ) (l : Entries) (range : RangeKey) (e : DiskEntry)
    → shortest_cover key request_end l ≡ some (range, e)
    → IsIn (range_key range) e l
unfolding shortest_cover
shortest_cover-IsIn key n [] range e h = absurd (ground arith)
shortest_cover-IsIn key n ((metadata_key j, x) ∷ rest) range e h =
    inr (shortest_cover-IsIn key n rest range e h)
shortest_cover-IsIn key n ((directory_key j, x) ∷ rest) range e h =
    inr (shortest_cover-IsIn key n rest range e h)
shortest_cover-IsIn key n ((stats_key, x) ∷ rest) range e h =
    inr (shortest_cover-IsIn key n rest range e h)
shortest_cover-IsIn key n ((range_key r, x) ∷ rest) range e h = elim (Bool-cases (covers key n r)) [
  | inr outside ↦ inr (shortest_cover-IsIn key n rest range e (rw outside at h))
  | inl covering ↦ elim (Option-cases (shortest_cover key n rest)) [
    | inl alone ↦
        let q : ◌≡◌ {A = RangeKey × DiskEntry} (r, x) (range, e) = ground arith in
        inl (ap (λ y. range_key y.0) q, ap (λ y. y.1) q)
    | inr ((best, y), others) ↦ elim (Bool-cases (leb r.length best.length)) [
      | inl shorter ↦
          let q : ◌≡◌ {A = RangeKey × DiskEntry} (r, x) (range, e) = ground arith in
          inl (ap (λ y. range_key y.0) q, ap (λ y. y.1) q)
      | inr longer ↦
          let q : ◌≡◌ {A = RangeKey × DiskEntry} (best, y) (range, e) = ground arith in
          inr (shortest_cover-IsIn key n rest range e (others ∙ ap some q))
    ]
  ]
]

IsListed-IsIn :
    (entries l : Entries) (k : EntryKey) (e : DiskEntry)
    → IsListed entries l
    → IsIn k e l
    → entry_of k entries ≡ some e
IsListed-IsIn entries [] k e h member = absurd member
IsListed-IsIn entries ((j, x) ∷ rest) k e h (inl (p, q)) =
    subst (λ i. entry_of i entries ≡ some e) p (h.0 ∙ ap some q)
IsListed-IsIn entries ((j, x) ∷ rest) k e h (inr there) = IsListed-IsIn entries rest k e h.1 there

module _ {W : Type 0} (files : Files W) (codec : Encoding) (contents : W → Bytes → Option Bytes)
    (disk : IsDisk files contents) (free : IsCollisionFree codec) (content : RevisionKey → ℕ → ℕ)
    (m : ℕ) where
  -- Whatever range is named, the bytes are those of the file.
  abbrev pub IsCover : CacheResult (Option (RangeKey × Bytes)) → Type 0
  IsCover (ok (some (range, bytes))) = IsContent content (range_key range) bytes
  IsCover _ = Unit

  failed-IsCover :
      (x : CacheError) (r : Store W × CacheResult (Unit {0}))
      → IsCover (and_then r (λ _ t. (t, err x))).1
  failed-IsCover x (t, err y) = tt
  failed-IsCover x (t, ok _) = tt

  read_cover-IsCover :
      (range : RangeKey) (e : DiskEntry) (s : Store W)
      → m ≤ u64_max
      → entry_of (range_key range) s.state.entries ≡ some e
      → IsTrue files codec contents disk free m (IsContent content) s
      → IsCover (read_cover files codec range e s).1
  unfolding read_cover or_remove remove_corrupt
  read_cover-IsCover range e s w f (a, h) =
      let held = h (range_key range) e f in
      by_result (read_disk_entry files codec e s) held.0 held.6 (
        read_disk_entry-Verified files codec contents disk free (IsContent content) m
          (range_key range) e s w a held)
    where
      by_result :
          (r : Store W × CacheResult Bytes) (bytes : Bytes)
          → IsContent content (range_key range) bytes
          → Verified bytes r.1
          → IsCover
              (elim r.1 as (λ _. Store W × CacheResult (Option (RangeKey × Bytes))) [
                | ok b ↦
                    if valid_range_payload range b
                    then (touch (range_key range ∷ []) r.0, ok (some (range, b)))
                    else remove_corrupt files codec (range_key range) r.0
                | err x ↦ or_remove files codec (range_key range) x r.0
              ]).1
      by_result (t, ok b) bytes st v =
          if_lem_on (λ (y : Store W × CacheResult (Option (RangeKey × Bytes))). IsCover y.1)
            (valid_range_payload range b) (subst (IsContent content (range_key range)) (sym v) st)
            (failed-IsCover corrupt_entry _)
      by_result (t, err x) bytes st v = rw (v, or_remove) tt

  covered-IsCover :
      (key : RangeKey) (request_end : ℕ) (s : Store W)
      → m ≤ u64_max
      → IsTrue files codec contents disk free m (IsContent content) s
      → IsUnique s.state.entries
      → IsCover
          (elim (shortest_cover key request_end s.state.entries)
            as (λ _. Store W × CacheResult (Option (RangeKey × Bytes))) [
              | none ↦ (s, ok none)
              | some (range, entry) ↦ read_cover files codec range entry s
            ]).1
  covered-IsCover key request_end s w t u =
      elim (Option-cases (shortest_cover key request_end s.state.entries)) [
        | inl absent ↦ rw absent tt
        | inr ((range, e), found) ↦ rw found (
            read_cover-IsCover range e s w
              (IsListed-IsIn s.state.entries s.state.entries (range_key range) e
                (IsUnique-IsListed s.state.entries u)
                (shortest_cover-IsIn key request_end s.state.entries range e found))
              t)
      ]

  -- Of a true cache without duplicate keys.
  pub get_covering_range_value-IsCover :
      (key : RangeKey) (s : Store W)
      → m ≤ u64_max
      → IsTrue files codec contents disk free m (IsContent content) s
      → IsUnique s.state.entries
      → IsCover (get_covering_range_value files codec key s).1
  unfolding get_covering_range_value
  get_covering_range_value-IsCover key s w t u =
      elim (Option-cases (checked_add key.offset key.length)) [
        | inl overflow ↦ rw (overflow, get_covering_range_value) tt
        | inr (end', fits) ↦ elim (Bool-cases (key.length == 0)) [
          | inl zero_length ↦
              rw (fits, zero_length, get_covering_range_value)
                (ap (read_at (content key.file) key.offset) (sym (==→eq key.length 0 zero_length)))
          | inr some_length ↦
              rw (fits, some_length, get_covering_range_value)
                (if_lem_on (λ (y : Store W × CacheResult (Option (RangeKey × Bytes))). IsCover y.1)
                  (ltb s.maximum_payload_bytes key.length) tt (covered-IsCover key end' s w t u))
        ]
      ]

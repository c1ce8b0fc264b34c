-- ===== src/Persistent/Keeping.antt =====
-- What every read of a file, removal and touch keeps, the reads of ranges and the invalidations of
-- crates/cache/src/lib.rs keep.
use quic_kfs.Prelude.{
  ℕ, inl, inr, Bool, Option, none, some, List, [], ◌∷◌, ltb, ◌==◌, Option-cases, checked_add,
}
use quic_kfs.Cache.Keys.{RangeKey, Segment, valid_range_payload, assemble_range}
use quic_kfs.Persistent.Store.{
  CacheError, CacheResult, ok, Bytes, EntryKey, metadata_key, directory_key, range_key, stats_key,
  DiskEntry, Entries, Encoding, Files, Store,
}
use quic_kfs.Persistent.Commits.{remove_keys_locked}
use quic_kfs.Persistent.Reads.{read_disk_entry, is_corrupt, or_remove, touch}
use quic_kfs.Persistent.Values.{listing_names, listings_with}
use quic_kfs.Persistent.Ranges.{
  shortest_cover, remove_corrupt, segment_of, read_segment, read_segments, answer_range,
  get_range_value, read_cover, get_covering_range_value,
}
use quic_kfs.Persistent.Lookups.{Result-cases}
use quic_kfs.Persistent.Holding.{and_then-lem_on, if_lem_on}

module _ {W : Type 0} (files : Files W) (codec : Encoding) (P : Store W → Type 0)
    (on_read : (e : DiskEntry) (s : Store W) → P s → P (read_disk_entry files codec e s).0) where
  pub listing_names_keeps :
      (node : ℕ) (e : DiskEntry) (s : Store W) → P s → P (listing_names files codec node e s).0
  unfolding listing_names
  listing_names_keeps node e s h =
      let r = read_disk_entry files codec e s in
      let k : P r.0 = on_read e s h in
      elim (Result-cases r.1) [
        | inr (b, right) ↦ rw (right, listing_names) k
        | inl (x, wrong) ↦
            rw (wrong, listing_names)
              (if_lem_on (λ (y : Store W × CacheResult Bool). P y.0) (is_corrupt x) k k)
      ]

  pub listings_with_keeps :
      (node : ℕ) (l : Entries) (s : Store W) → P s → P (listings_with files codec node l s).0
  unfolding listings_with
  listings_with_keeps node [] s h = h
  listings_with_keeps node ((key, e) ∷ rest) s h =
      and_then-lem_on P (listing_names files codec node e s) _ (listing_names_keeps node e s h)
        (λ named t i.
          and_then-lem_on P (listings_with files codec node rest t) _
            (listings_with_keeps node rest t i) (λ keys u j. j))

module _ {W : Type 0} (files : Files W) (codec : Encoding) (P : Store W → Type 0)
    (on_read : (e : DiskEntry) (s : Store W) → P s → P (read_disk_entry files codec e s).0)
    (on_removal : (keys : List EntryKey) (s : Store W)
      → P s
      → P (remove_keys_locked files codec keys s).0)
    (on_touch : (keys : List EntryKey) (s : Store W) → P s → P (touch keys s)) where
  or_remove_keeps :
      (A : Type 0) (key : EntryKey) (x : CacheError) (s : Store W)
      → P s
      → P (or_remove files codec {A = A} key x s).0
  unfolding or_remove
  or_remove_keeps A key x s h =
      if_lem_on (λ (y : Store W × CacheResult A). P y.0) (is_corrupt x)
        (and_then-lem_on P (remove_keys_locked files codec (key ∷ []) s) _
          (on_removal (key ∷ []) s h) (λ _ t i. i))
        h

  remove_corrupt_keeps :
      (A : Type 0) (key : EntryKey) (s : Store W)
      → P s
      → P (remove_corrupt files codec {A = A} key s).0
  unfolding remove_corrupt
  remove_corrupt_keeps A key s h =
      and_then-lem_on P (remove_keys_locked files codec (key ∷ []) s) _ (on_removal (key ∷ []) s h)
        (λ _ t i. i)

  segment_of_keeps :
      (key : EntryKey) (bytes : Bytes) (s : Store W)
      → P s
      → P (segment_of files codec key bytes s).0
  unfolding segment_of
  segment_of_keeps (range_key r) bytes s h =
      if_lem_on (λ (y : Store W × CacheResult (Segment EntryKey)). P y.0)
        (valid_range_payload r bytes) h (remove_corrupt_keeps _ (range_key r) s h)
  segment_of_keeps (metadata_key n) bytes s h = h
  segment_of_keeps (directory_key n) bytes s h = h
  segment_of_keeps stats_key bytes s h = h

  read_segment_keeps :
      (key : EntryKey) (e : DiskEntry) (s : Store W) → P s → P (read_segment files codec key e s).0
  unfolding read_segment
  read_segment_keeps key e s h =
      let r = read_disk_entry files codec e s in
      let k : P r.0 = on_read e s h in
      elim (Result-cases r.1) [
        | inr (b, right) ↦ rw (right, read_segment) (segment_of_keeps key b r.0 k)
        | inl (x, wrong) ↦ rw (wrong, read_segment) (or_remove_keeps _ key x r.0 k)
      ]

  read_segments_keeps : (l : Entries) (s : Store W) → P s → P (read_segments files codec l s).0
  unfolding read_segments
  read_segments_keeps [] s h = h
  read_segments_keeps ((key, e) ∷ rest) s h =
      and_then-lem_on P (read_segment files codec key e s) _ (read_segment_keeps key e s h)
        (λ segment t i.
          and_then-lem_on P (read_segments files codec rest t) _ (read_segments_keeps rest t i)
            (λ segments u j. j))

  answer_range_keeps :
      (key : RangeKey) (segments : List (Segment EntryKey)) (s : Store W)
      → P s
      → P (answer_range files codec key segments s).0
  unfolding answer_range
  answer_range_keeps key segments s h = elim (Option-cases (assemble_range key segments)) [
    | inl gap ↦ rw (gap, answer_range) h
    | inr (assembled, whole) ↦ rw (whole, answer_range) (on_touch assembled.used_keys s h)
  ]

  -- A read of a range keeps what each read of a file, removal and touch keeps.
  pub get_range_value_keeps :
      (key : RangeKey) (s : Store W) → P s → P (get_range_value files codec key s).0
  unfolding get_range_value
  get_range_value_keeps key s h = elim (Option-cases (checked_add key.offset key.length)) [
    | inl overflow ↦ rw (overflow, get_range_value) h
    | inr (end', fits) ↦
        rw (fits, get_range_value)
          (if_lem_on (λ (y : Store W × CacheResult (Option Bytes)). P y.0) (key.length == 0) h
            (if_lem_on (λ (y : Store W × CacheResult (Option Bytes)). P y.0)
              (ltb s.maximum_payload_bytes key.length) h
              (and_then-lem_on P (read_segments files codec _ s) _ (read_segments_keeps _ s h)
                (answer_range_keeps key))))
  ]

  read_cover_keeps :
      (range : RangeKey) (e : DiskEntry) (s : Store W)
      → P s
      → P (read_cover files codec range e s).0
  unfolding read_cover
  read_cover_keeps range e s h =
      let r = read_disk_entry files codec e s in
      let k : P r.0 = on_read e s h in
      elim (Result-cases r.1) [
        | inl (x, wrong) ↦ rw (wrong, read_cover) (or_remove_keeps _ (range_key range) x r.0 k)
        | inr (b, right) ↦
            rw (right, read_cover)
              (if_lem_on (λ (y : Store W × CacheResult (Option (RangeKey × Bytes))). P y.0)
                (valid_range_payload range b) (on_touch (range_key range ∷ []) r.0 k)
                (remove_corrupt_keeps _ (range_key range) r.0 k))
      ]

  pub get_covering_range_value_keeps :
      (key : RangeKey) (s : Store W) → P s → P (get_covering_range_value files codec key s).0
  unfolding get_covering_range_value
  get_covering_range_value_keeps key s h = elim (Option-cases (checked_add key.offset key.length)) [
    | inl overflow ↦ rw (overflow, get_covering_range_value) h
    | inr (end', fits) ↦
        rw (fits, get_covering_range_value)
          (if_lem_on (λ (y : Store W × CacheResult (Option (RangeKey × Bytes))). P y.0)
            (key.length == 0) h
            (if_lem_on (λ (y : Store W × CacheResult (Option (RangeKey × Bytes))). P y.0)
              (ltb s.maximum_payload_bytes key.length) h (covered key end' s h)))
  ]
    where
      covered :
          (key : RangeKey) (request_end : ℕ) (s : Store W)
          → P s
          → P
              (elim (shortest_cover key request_end s.state.entries)
                as (λ _. Store W × CacheResult (Option (RangeKey × Bytes))) [
                  | none ↦ (s, ok none)
                  | some (range, entry) ↦ read_cover files codec range entry s
                ]).0
      covered key request_end s h =
          elim (Option-cases (shortest_cover key request_end s.state.entries)) [
            | inl absent ↦ rw absent h
            | inr ((range, e), found) ↦ rw found (read_cover_keeps range e s h)
          ]

-- ===== src/Persistent/Ranges.antt =====
-- The reads and insertions of ranges of PersistentCache in crates/cache/src/lib.rs.
use quic_kfs.Prelude.{
  ℕ, Bool, false, not, ◌&&◌, Option, none, some, List, [], ◌∷◌, ltb, leb, ◌==◌, if◌then◌else◌,
  retain, checked_add,
}
use quic_kfs.Cache.Keys.{
  RangeKey, revision_eq, valid_range_payload, ranges_overlap, Segment, assemble_range,
}
use quic_kfs.Persistent.Store.{
  invalid_range, corrupt_entry, invalid_manifest, err, ok, Bytes, EntryKey, range_key, DiskEntry,
  Entries, Encoding, Files, Call, and_then, fail,
}
use quic_kfs.Persistent.Commits.{remove_keys_locked}
use quic_kfs.Persistent.Inserts.{insert_entries}
use quic_kfs.Persistent.Reads.{read_disk_entry, or_remove, touch}

-- The entries that may hold bytes of a range.
unfoldable pub is_candidate : RangeKey → EntryKey → Bool
is_candidate key (range_key candidate) =
    revision_eq candidate.file key.file && ranges_overlap candidate key
is_candidate key _ = false

unfoldable pub covers : RangeKey → ℕ → RangeKey → Bool
covers key request_end range = elim (checked_add range.offset range.length) [
  | none ↦ false
  | some range_end ↦
      revision_eq range.file key.file && leb range.offset key.offset && leb request_end range_end
]

-- `min_by_key` on the length: the first of the shortest.
unfoldable pub shortest_cover : RangeKey → ℕ → Entries → Option (RangeKey × DiskEntry)
shortest_cover key request_end [] = none
shortest_cover key request_end ((range_key range, e) ∷ rest) =
    let others = shortest_cover key request_end rest in
    if covers key request_end range
    then elim others [
      | none ↦ some (range, e)
      | some (best, x) ↦ if leb range.length best.length then some (range, e) else some (best, x)
    ]
    else others
shortest_cover key request_end ((_, e) ∷ rest) = shortest_cover key request_end rest

module _ {W : Type 0} (files : Files W) (codec : Encoding) where
  unfoldable pub insert_range_value : RangeKey → Bytes → Call W (Unit {0})
  insert_range_value key value s =
      if not (valid_range_payload key value) then (s, err invalid_range) else elim value [
        | [] ↦ (s, ok tt)
        | b ∷ bs ↦ insert_entries files codec ((range_key key, b ∷ bs) ∷ []) s
      ]

  unfoldable pub remove_corrupt : {A : Type 0} → EntryKey → Call W A
  remove_corrupt key s =
      and_then (remove_keys_locked files codec (key ∷ []) s) (λ _. fail corrupt_entry)

  -- A payload of the wrong length is removed as well.
  unfoldable pub segment_of : EntryKey → Bytes → Call W (Segment EntryKey)
  segment_of (range_key range) bytes s =
      if valid_range_payload range bytes
      then (s, ok (record { key = range_key range; offset = range.offset; bytes = bytes }))
      else remove_corrupt (range_key range) s
  segment_of key bytes s = (s, err invalid_manifest)

  unfoldable pub read_segment : EntryKey → DiskEntry → Call W (Segment EntryKey)
  read_segment key entry s =
      let r = read_disk_entry files codec entry s in
      elim r.1 [ ok bytes ↦ segment_of key bytes r.0 | err x ↦ or_remove files codec key x r.0 ]

  unfoldable pub read_segments : Entries → Call W (List (Segment EntryKey))
  read_segments [] s = (s, ok [])
  read_segments ((key, entry) ∷ rest) s =
      and_then (read_segment key entry s)
        (λ segment t. and_then (read_segments rest t) (λ segments u. (u, ok (segment ∷ segments))))

  unfoldable pub answer_range : RangeKey → List (Segment EntryKey) → Call W (Option Bytes)
  answer_range key segments s = elim (assemble_range key segments) [
    | none ↦ (s, ok none)
    | some assembled ↦ (touch assembled.used_keys s, ok (some assembled.bytes))
  ]

  unfoldable pub get_range_value : RangeKey → Call W (Option Bytes)
  get_range_value key s = elim (checked_add key.offset key.length) [
    | none ↦ (s, err invalid_range)
    | some _ ↦
        if key.length == 0
        then (s, ok (some []))
        else if ltb s.maximum_payload_bytes key.length
        then (s, ok none)
        else and_then (read_segments (retain (λ e. is_candidate key e.0) s.state.entries) s)
            (answer_range key)
  ]

  -- The entry that covers the range, with its whole payload.
  unfoldable pub read_cover : RangeKey → DiskEntry → Call W (Option (RangeKey × Bytes))
  read_cover range entry s =
      let r = read_disk_entry files codec entry s in
      elim r.1 [
        | ok bytes ↦
            if valid_range_payload range bytes
            then (touch (range_key range ∷ []) r.0, ok (some (range, bytes)))
            else remove_corrupt (range_key range) r.0
        | err x ↦ or_remove files codec (range_key range) x r.0
      ]

  unfoldable pub get_covering_range_value : RangeKey → Call W (Option (RangeKey × Bytes))
  get_covering_range_value key s = elim (checked_add key.offset key.length) [
    | none ↦ (s, err invalid_range)
    | some request_end ↦
        if key.length == 0
        then (s, ok (some (key, [])))
        else if ltb s.maximum_payload_bytes key.length
        then (s, ok none)
        else elim (shortest_cover key request_end s.state.entries) [
          | none ↦ (s, ok none)
          | some (range, entry) ↦ read_cover range entry s
        ]
  ]

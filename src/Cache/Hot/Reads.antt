-- ===== src/Cache/Hot/Reads.antt =====
-- HotRangeCache::get of crates/cache/src/lib.rs: its loop ends, and returns the file's bytes.
use quic_kfs.Prelude.{
  ℕ, zero, suc, ◌-◌, ◌≤◌, ◌<◌, ◌≡◌, ◌≢◌, refl, sym, ap, subst, ◌∙◌, true, some, List, [], ◌∷◌, ◌++◌,
  arith, ltb, ◌==◌, length, All, Bool-cases, Option-cases, inl, inr, checked_add,
  checked_add-eq-some, min, ltb→lt,
}
use mathlib.Core.List.{append-nil}
use quic_kfs.Cache.Keys.{RangeKey, RevisionKey, revision_eq, range_eq, get_range, revision_eq→eq}
use quic_kfs.Cache.Content.{read_at, read_at_cong, get_range-read_at}
use quic_kfs.Cache.Assembly.{continued}
use quic_kfs.Cache.Hot.{
  Entries, HotRangeState, lookup, best_candidate, copy_from, Reading, found, missed, out_of_fuel,
  read_loop, get, finish_read,
}

-- The entry holds the bytes of its revision of its file.
abbrev pub Agrees : (RevisionKey → ℕ → ℕ) → RangeKey × List ℕ → Type 0
Agrees contents entry =
    (entry.1 ≡ read_at (contents entry.0.file) entry.0.offset (length entry.1))
    × (length entry.1 ≡ entry.0.length)

lookup-Agrees :
    (contents : RevisionKey → ℕ → ℕ) (key : RangeKey) (es : Entries) (value : List ℕ)
    → All (Agrees contents) es
    → lookup key es ≡ some value
    → (value ≡ read_at (contents key.file) key.offset (length value))
unfolding lookup
lookup-Agrees contents key [] value a e = absurd (cc)
lookup-Agrees contents key ((k, v) ∷ es) value a e = elim (Bool-cases (range_eq k key)) [
  | inl hit ↦
      let same : v ≡ value = ground arith in
      let keys : k ≡ key = ground arith in
      subst (λ r. r ≡ read_at (contents key.file) key.offset (length r)) same
        (subst (λ (j : RangeKey). v ≡ read_at (contents j.file) j.offset (length v)) keys (a.0).0)
  | inr miss ↦ lookup-Agrees contents key es value a.1 (rw (miss, lookup) at e)
]

-- What the loop chooses: an entry of the file that has the byte at the position.
pub best_candidate_covers :
    (file : RevisionKey) (position : ℕ) (es : Entries) (candidate : RangeKey) (end' : ℕ)
    → best_candidate file position es ≡ some (candidate, end')
    → (revision_eq candidate.file file ≡ true) × (candidate.offset ≤ position) × (position < end')
unfolding best_candidate
best_candidate_covers file position [] candidate end' e = absurd (cc)
best_candidate_covers file position ((k, v) ∷ es) candidate end' e =
    ground (arith, best_candidate_covers file position es candidate end')

copy_from_parts :
    (file : RevisionKey) (request_end position : ℕ) (es : Entries) (candidate : RangeKey)
    (chunk : List ℕ) (copy_end : ℕ)
    → copy_from file request_end position es ≡ some (candidate, chunk, copy_end)
    → (end' : ℕ) × (value : List ℕ) × (best_candidate file position es ≡ some (candidate, end'))
      × (lookup candidate es ≡ some value)
      × (copy_end ≡ min end' request_end)
      × (get_range (position - candidate.offset) (copy_end - candidate.offset) value ≡ some chunk)
unfolding copy_from
copy_from_parts file request_end position es candidate chunk copy_end e =
    elim (Option-cases (best_candidate file position es)) [
      | inl none' ↦ absurd (ground arith)
      | inr ((best, end'), best') ↦ elim (Option-cases (lookup best es)) [
        | inl none' ↦ absurd (ground arith)
        | inr (value, value') ↦
            (end', value, ground arith, ground arith, ground arith, ground arith)
      ]
    ]

module _ (contents : RevisionKey → ℕ → ℕ) (file : RevisionKey) (request_end : ℕ) (es : Entries)
    (agree : All (Agrees contents) es) where
  pub copy_from-read_at :
      (position : ℕ) (candidate : RangeKey) (chunk : List ℕ) (copy_end : ℕ)
      → position < request_end
      → copy_from file request_end position es ≡ some (candidate, chunk, copy_end)
      → (chunk ≡ read_at (contents file) position (copy_end - position))
        × (position < copy_end)
        × (copy_end ≤ request_end)
  copy_from-read_at position candidate chunk copy_end h e =
      let (end', value, best, value', copy_end', part) =
        copy_from_parts file request_end position es candidate chunk copy_end e in
      let (same, before, after) = best_candidate_covers file position es candidate end' best in
      (
        get_range-read_at (contents file) candidate.offset (position - candidate.offset)
              (copy_end - candidate.offset) value chunk
              (subst (λ f. value ≡ read_at (contents f) candidate.offset (length value))
                (revision_eq→eq candidate.file file same)
                (lookup-Agrees contents candidate es value agree value'))
              part
            ∙ read_at_cong (contents file) (omega arith) (omega arith),
        omega arith,
        omega arith,
      )

  read_loop-read_at :
      (fuel position : ℕ) (output : List ℕ) (used : List RangeKey) (out : List ℕ)
      (keys : List RangeKey)
      → position ≤ request_end
      → read_loop fuel file request_end position es output used ≡ found out keys
      → out ≡ output ++ read_at (contents file) position (request_end - position)
  unfolding read_loop
  read_loop-read_at zero position output used out keys h e = absurd (cc)
  read_loop-read_at (suc fuel) position output used out keys h e =
      elim (Bool-cases (ltb position request_end)) [
        | inr done ↦
            let same : out ≡ output = ground arith in
            same
            ∙ sym (append-nil output)
            ∙ ap (λ r. output ++ r)
                (read_at_cong (contents file) {a = position} {m = 0} refl (ground arith))
        | inl more ↦ elim (Option-cases (copy_from file request_end position es)) [
          | inl miss ↦ absurd (ground arith)
          | inr ((candidate, chunk, copy_end), copied) ↦
              let (bytes, forward, inside) =
                copy_from-read_at position candidate chunk copy_end (ltb→lt _ _ more) copied in
              read_loop-read_at fuel copy_end (output ++ chunk) (used ++ candidate ∷ []) out keys
                inside (rw (more, copied, read_loop) at e)
              ∙ continued (contents file) position copy_end request_end output chunk (omega arith)
                  inside bytes
        ]
      ]

  -- Each round moves on by a byte at least.
  pub read_loop_total :
      (fuel position : ℕ) (output : List ℕ) (used : List RangeKey)
      → position ≤ request_end
      → request_end - position < fuel
      → read_loop fuel file request_end position es output used ≢ out_of_fuel
  unfolding read_loop
  read_loop_total zero position output used h f e = elim f [ ]
  read_loop_total (suc fuel) position output used h f e =
      elim (Bool-cases (ltb position request_end)) [
        | inr done ↦ absurd (ground arith)
        | inl more ↦ elim (Option-cases (copy_from file request_end position es)) [
          | inl miss ↦ absurd (ground arith)
          | inr ((candidate, chunk, copy_end), copied) ↦
              let (bytes, forward, inside) =
                copy_from-read_at position candidate chunk copy_end (ltb→lt _ _ more) copied in
              read_loop_total fuel copy_end (output ++ chunk) (used ++ candidate ∷ []) inside
                (omega arith) (rw (more, copied, read_loop) at e)
        ]
      ]

finish_read_found :
    (hash_order : List RangeKey → List RangeKey) (state : HotRangeState) (out : List ℕ)
    (reading : Reading)
    → (finish_read hash_order state reading).0 ≡ some out
    → (keys : List RangeKey) × (reading ≡ found out keys)
unfolding finish_read
finish_read_found hash_order state out (found output used) e = (used, ground arith)
finish_read_found hash_order state out missed e = absurd (cc)
finish_read_found hash_order state out out_of_fuel e = absurd (cc)

-- A read of the hot tier, if its entries hold the bytes of their revisions, returns the bytes of
-- the requested revision at the requested range.
pub get-read_at :
    (hash_order : List RangeKey → List RangeKey) (contents : RevisionKey → ℕ → ℕ) (key : RangeKey)
    (state : HotRangeState) (out : List ℕ)
    → All (Agrees contents) state.entries
    → (get hash_order key state).0 ≡ some out
    → out ≡ read_at (contents key.file) key.offset key.length
unfolding get
get-read_at hash_order contents key state out agree e =
    elim (Option-cases (checked_add key.offset key.length)) [
      | inl overflow ↦ absurd (ground arith)
      | inr (request_end, fits) ↦
          let (end', _) = checked_add-eq-some _ _ _ fits in
          elim (Bool-cases (key.length == 0)) [
            | inl nothing ↦
                let empty' : out ≡ [] = ground arith in
                empty'
                ∙ read_at_cong (contents key.file) {a = key.offset} {m = 0} refl (ground arith)
            | inr more ↦
                let (keys, result) =
                  finish_read_found hash_order state out _ (rw (fits, more, get) at e) in
                read_loop-read_at contents key.file request_end state.entries agree (suc key.length)
                  key.offset [] [] out keys (omega arith) result
                ∙ read_at_cong (contents key.file) {a = key.offset} refl (omega arith)
          ]
    ]

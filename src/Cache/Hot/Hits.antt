-- ===== src/Cache/Hot/Hits.antt =====
-- HotRangeCache::get of crates/cache/src/lib.rs hits whenever the entries cover the request.
use quic_kfs.Prelude.{
  ℕ, zero, suc, ◌+◌, ◌≤◌, ◌<◌, ◌≡◌, ◌≢◌, refl, sym, ap, ◌∙◌, Bool, true, ◌&&◌, none, some, List, [],
  ◌∷◌, ◌++◌, arith, ltb, leb, ◌==◌, length, any, All, Bool-cases, Option-cases, inl, inr, u64_max,
  checked_add, ltb→lt,
}
use quic_kfs.Cache.Keys.{RangeKey, RevisionKey, revision_eq, range_eq, get_range}
use quic_kfs.Cache.Hot.{
  Entries, HotRangeState, lookup, best_candidate, copy_from, Reading, found, missed, out_of_fuel,
  read_loop, get, finish_read,
}
use quic_kfs.Cache.Hot.Reads.{Agrees, best_candidate_covers, copy_from-read_at, read_loop_total}

-- An entry of the file has the byte at an offset.
abbrev pub has_byte : RevisionKey → ℕ → RangeKey × List ℕ → Bool
has_byte file x entry =
    revision_eq entry.0.file file
    && (leb entry.0.offset x && ltb x (entry.0.offset + entry.0.length))

-- The entry ends at a 64-bit offset.
abbrev pub Fits : RangeKey × List ℕ → Type 0
Fits entry = entry.0.offset + entry.0.length ≤ u64_max

best_candidate_total :
    (file : RevisionKey) (x : ℕ) (es : Entries)
    → All Fits es
    → any (has_byte file x) es ≡ true
    → best_candidate file x es ≢ none
unfolding best_candidate
best_candidate_total file x [] fits h e = cc
best_candidate_total file x ((k, v) ∷ es) fits h e =
    ground (arith, best_candidate_total file x es fits.1)

best_candidate_stored :
    (file : RevisionKey) (x : ℕ) (es : Entries) (candidate : RangeKey) (end' : ℕ)
    → best_candidate file x es ≡ some (candidate, end')
    → (lookup candidate es ≢ none) × (end' ≡ candidate.offset + candidate.length)
unfolding best_candidate lookup
best_candidate_stored file x [] candidate end' e = absurd (cc)
best_candidate_stored file x ((k, v) ∷ es) candidate end' e = (
  λ h. ground (arith, best_candidate_stored file x es candidate end'),
  ground (arith, best_candidate_stored file x es candidate end'),
)

lookup-length :
    (contents : RevisionKey → ℕ → ℕ) (key : RangeKey) (es : Entries) (value : List ℕ)
    → All (Agrees contents) es
    → lookup key es ≡ some value
    → length value ≡ key.length
unfolding lookup
lookup-length contents key [] value a e = absurd (cc)
lookup-length contents key ((k, v) ∷ es) value a e = elim (Bool-cases (range_eq k key)) [
  | inl hit ↦
      let same : v ≡ value = ground arith in
      let keys : k.length ≡ key.length = ground arith in sym (ap length same) ∙ (a.0).1 ∙ keys
  | inr miss ↦ lookup-length contents key es value a.1 (rw (miss, lookup) at e)
]

copy_from_total :
    (contents : RevisionKey → ℕ → ℕ) (file : RevisionKey) (request_end position : ℕ) (es : Entries)
    → position < request_end
    → All (Agrees contents) es
    → All Fits es
    → any (has_byte file position) es ≡ true
    → copy_from file request_end position es ≢ none
unfolding copy_from get_range
copy_from_total contents file request_end position es h agree fits covered e =
    elim (Option-cases (best_candidate file position es)) [
      | inl none' ↦ best_candidate_total file position es fits covered none'
      | inr ((best, end'), best') ↦ elim (Option-cases (lookup best es)) [
        | inl none' ↦ (best_candidate_stored file position es best end' best').0 none'
        | inr (value, value') ↦ ground (
          arith,
          best_candidate_covers file position es best end' best',
          (best_candidate_stored file position es best end' best').1,
          lookup-length contents best es value agree value',
        )
      ]
    ]

module _ (contents : RevisionKey → ℕ → ℕ) (file : RevisionKey) (request_end : ℕ) (es : Entries)
    (agree : All (Agrees contents) es) (fits : All Fits es) where
  read_loop-ne-missed :
      (fuel position : ℕ) (output : List ℕ) (used : List RangeKey)
      → position ≤ request_end
      → ((x : ℕ) → position ≤ x → x < request_end → any (has_byte file x) es ≡ true)
      → read_loop fuel file request_end position es output used ≢ missed
  unfolding read_loop
  read_loop-ne-missed zero position output used h covered e = cc
  read_loop-ne-missed (suc fuel) position output used h covered e =
      elim (Bool-cases (ltb position request_end)) [
        | inr done ↦ ground arith
        | inl more ↦
            let inside = ltb→lt _ _ more in
            elim (Option-cases (copy_from file request_end position es)) [
              | inl miss ↦
                  copy_from_total contents file request_end position es inside agree fits
                    (covered position (omega arith) inside) miss
              | inr ((candidate, chunk, copy_end), copied) ↦
                  let (bytes, forward, within) =
                    copy_from-read_at contents file request_end es agree position candidate chunk
                      copy_end inside copied in
                  read_loop-ne-missed fuel copy_end (output ++ chunk) (used ++ candidate ∷ [])
                    within (λ x p q. covered x (omega arith) q) (rw (more, copied, read_loop) at e)
            ]
      ]

finish_read-ne-none :
    (hash_order : List RangeKey → List RangeKey) (state : HotRangeState) (reading : Reading)
    → reading ≢ missed
    → reading ≢ out_of_fuel
    → (finish_read hash_order state reading).0 ≢ none
unfolding finish_read
finish_read-ne-none hash_order state (found output used) m f e = cc
finish_read-ne-none hash_order state missed m f e = m refl
finish_read-ne-none hash_order state out_of_fuel m f e = f refl

-- A read of the hot tier hits if its entries hold the bytes of their revisions, the entries and
-- the request end at 64-bit offsets, and every requested byte is in some entry of the revision;
-- in particular the loop ends.
pub get_total :
    (hash_order : List RangeKey → List RangeKey) (contents : RevisionKey → ℕ → ℕ) (key : RangeKey)
    (state : HotRangeState)
    → key.offset + key.length ≤ u64_max
    → All (Agrees contents) state.entries
    → All Fits state.entries
    → ((x : ℕ)
        → key.offset ≤ x
        → x < key.offset + key.length
        → any (has_byte key.file x) state.entries ≡ true)
    → (get hash_order key state).0 ≢ none
unfolding get
get_total hash_order contents key state words agree fits covered e =
    elim (Bool-cases (key.length == 0)) [
      | inl nothing ↦ ground arith
      | inr more ↦
          finish_read-ne-none hash_order state _
            (read_loop-ne-missed contents key.file (key.offset + key.length) state.entries agree
              fits (suc key.length) key.offset [] [] (omega arith) covered)
            (read_loop_total contents key.file (key.offset + key.length) state.entries agree
              (suc key.length) key.offset [] [] (omega arith) (omega arith))
            (rw (no_overflow, get, more) at e)
    ]
  where
    no_overflow : checked_add key.offset key.length ≡ some (key.offset + key.length)
    no_overflow = ground arith

-- ===== src/Persistent/Faithful.antt =====
-- A run of the persistent cache of crates/cache/src/lib.rs that stores true ranges returns true ranges.
use quic_kfs.Prelude.{
  ℕ, ◌≤◌, ◌≡◌, ◌⊎◌, subst, sym, inl, inr, Option, some, List, [], ◌∷◌, All, u64_max, Bool,
}
use quic_kfs.Cache.Keys.{RevisionKey, RangeKey}
use quic_kfs.Cache.Content.{read_at}
use quic_kfs.Persistent.Store.{CacheResult, err, ok, Bytes, EntryKey, Encoding, Files, Store}
use quic_kfs.Persistent.Inserts.{insert_entries}
use quic_kfs.Persistent.Reads.{remove_matching}
use quic_kfs.Persistent.Values.{invalidate_node, invalidate_directories_containing}
use quic_kfs.Persistent.Invalidation.{is_listing_of, is_about, after_invalidation}
use quic_kfs.Persistent.Ranges.{get_range_value, get_covering_range_value}
use quic_kfs.Persistent.Backing.{IsDisk, IsCollisionFree}
use quic_kfs.Persistent.Stored.{
  Payloads, IsGiven, after_insert, after_removal, IsTrue, IsTrue-weaken,
}
use quic_kfs.Persistent.Histories.{
  CacheCall, insertion, removal, reading, range_reading, cover_reading, node_invalidation,
  listing_invalidation, batch_begins, batch_ends, cache_call, cache_calls, after_call, after_calls,
  cache_calls-IsTrue,
}
use quic_kfs.Persistent.Limits.{IsLimited, cache_calls-IsLimited}
use quic_kfs.Persistent.Covers.{IsCover, get_covering_range_value-IsCover}
use quic_kfs.Persistent.Content.{IsContent, get_range_value-read_at}

-- What is stored of ranges are the bytes of the files.
abbrev pub StoresContent : (RevisionKey → ℕ → ℕ) → CacheCall → Type 0
StoresContent content (insertion es) = All (λ e. IsContent content e.0 e.1) es
StoresContent content _ = Unit

given-IsContent :
    (content : RevisionKey → ℕ → ℕ) (es : List (EntryKey × Bytes)) (k : EntryKey) (b : Bytes)
    → All (λ e. IsContent content e.0 e.1) es
    → IsGiven es k b
    → IsContent content k b
given-IsContent content [] k b h g = absurd g
given-IsContent content ((j, x) ∷ es) k b h (inl (p, q)) =
    subst (λ i. IsContent content i b) (sym p) (subst (IsContent content j) (sym q) h.0)
given-IsContent content ((j, x) ∷ es) k b h (inr g) = given-IsContent content es k b h.1 g

inserted-IsContent :
    (content : RevisionKey → ℕ → ℕ) (Stored : Payloads) (es : List (EntryKey × Bytes))
    (r : CacheResult (Unit {0})) (k : EntryKey) (b : Bytes)
    → ((k : EntryKey) (b : Bytes) → Stored k b → IsContent content k b)
    → All (λ e. IsContent content e.0 e.1) es
    → after_insert es Stored r k b
    → IsContent content k b
inserted-IsContent content Stored es (err x) k b h c (inl old) = h k b old
inserted-IsContent content Stored es (err x) k b h c (inr new) =
    given-IsContent content es k b c new
inserted-IsContent content Stored es (ok _) k b h c (inl (_, old)) = h k b old
inserted-IsContent content Stored es (ok _) k b h c (inr new) = given-IsContent content es k b c new

kept-IsContent :
    (content : RevisionKey → ℕ → ℕ) (Stored : Payloads) (predicate : EntryKey → Bool)
    (r : CacheResult (Unit {0})) (k : EntryKey) (b : Bytes)
    → ((k : EntryKey) (b : Bytes) → Stored k b → IsContent content k b)
    → after_removal predicate Stored r k b
    → IsContent content k b
kept-IsContent content Stored predicate (err x) k b h old = h k b old
kept-IsContent content Stored predicate (ok _) k b h (_, old) = h k b old

left-IsContent :
    (content : RevisionKey → ℕ → ℕ) (Stored : Payloads) (gone : EntryKey → Bytes → Bool)
    (r : CacheResult (Unit {0})) (k : EntryKey) (b : Bytes)
    → ((k : EntryKey) (b : Bytes) → Stored k b → IsContent content k b)
    → after_invalidation gone Stored r k b
    → IsContent content k b
left-IsContent content Stored gone (err x) k b h old = h k b old
left-IsContent content Stored gone (ok _) k b h (_, old) = h k b old

module _ {W : Type 0} (files : Files W) (codec : Encoding) (content : RevisionKey → ℕ → ℕ) where
  call-IsContent :
      (c : CacheCall) (Stored : Payloads) (s : Store W) (k : EntryKey) (b : Bytes)
      → StoresContent content c
      → ((k : EntryKey) (b : Bytes) → Stored k b → IsContent content k b)
      → after_call files codec c Stored s k b
      → IsContent content k b
  call-IsContent (insertion es) Stored s k b c h g =
      inserted-IsContent content Stored es (insert_entries files codec es s).1 k b h c g
  call-IsContent (removal predicate) Stored s k b c h g =
      kept-IsContent content Stored predicate (remove_matching files codec predicate s).1 k b h g
  call-IsContent (reading key) Stored s k b c h g = h k b g
  call-IsContent (range_reading key) Stored s k b c h g = h k b g
  call-IsContent (cover_reading key) Stored s k b c h g = h k b g
  call-IsContent (node_invalidation node) Stored s k b c h g =
      left-IsContent content Stored (is_about codec node) (invalidate_node files codec node s).1 k b
        h g
  call-IsContent (listing_invalidation node) Stored s k b c h g =
      left-IsContent content Stored (is_listing_of codec node)
        (invalidate_directories_containing files codec node s).1 k b h g
  call-IsContent batch_begins Stored s k b c h g = h k b g
  call-IsContent batch_ends Stored s k b c h g = h k b g

  calls-IsContent :
      (calls : List CacheCall) (Stored : Payloads) (s : Store W) (k : EntryKey) (b : Bytes)
      → All (StoresContent content) calls
      → ((k : EntryKey) (b : Bytes) → Stored k b → IsContent content k b)
      → after_calls files codec calls Stored s k b
      → IsContent content k b
  calls-IsContent [] Stored s k b c h g = h k b g
  calls-IsContent (call ∷ calls) Stored s k b c h g =
      calls-IsContent calls (after_call files codec call Stored s) (cache_call files codec call s) k
        b c.1 (λ j x. call-IsContent call Stored s j x c.0 h) g

module _ {W : Type 0} (files : Files W) (codec : Encoding) (contents : W → Bytes → Option Bytes)
    (disk : IsDisk files contents) (free : IsCollisionFree codec) (m : ℕ) where
  -- If files change only by the calls that write or remove them, no two payloads have one name,
  -- the budget is a 64-bit number, the cache is within its bounds, and every entry of it has its
  -- file with the bytes of its range, then after any insertions, removals, reads, invalidations
  -- and batches of which each insertion stores only true ranges, whatever of them fails, a range
  -- that get_range_value or get_covering_range_value returns has the bytes of the file.
  pub cache_calls-read_at :
      (content : RevisionKey → ℕ → ℕ) (calls : List CacheCall) (key range : RangeKey)
      (bytes : Bytes) (s : Store W)
      → m ≤ u64_max
      → IsLimited files codec m s
      → IsTrue files codec contents disk free m (IsContent content) s
      → All (StoresContent content) calls
      → let after = cache_calls files codec calls s in
        ((range ≡ key) × ((get_range_value files codec key after).1 ≡ ok (some bytes)))
          ⊎ ((get_covering_range_value files codec key after).1 ≡ ok (some (range, bytes)))
        → bytes ≡ read_at (content range.file) range.offset range.length
  cache_calls-read_at content calls key range bytes s w l t c answered =
      let after = cache_calls files codec calls s in
      let truth =
        IsTrue-weaken files codec contents disk free
          (after_calls files codec calls (IsContent content) s) (IsContent content) m after
          (λ k b.
            calls-IsContent files codec content calls (IsContent content) s k b c (λ j x g. g))
          (cache_calls-IsTrue files codec contents disk free (IsContent content) m calls s w t) in
      let unique = (cache_calls-IsLimited files codec m calls s l).1.0.1 in
      elim answered [
        | inl (same, h) ↦
            subst (λ (r : RangeKey). bytes ≡ read_at (content r.file) r.offset r.length) (sym same)
              (get_range_value-read_at files codec contents disk free content m key after bytes w
                truth unique h)
        | inr h ↦ subst (IsCover files codec contents disk free content m) h (
            get_covering_range_value-IsCover files codec contents disk free content m key after w
              truth unique)
      ]

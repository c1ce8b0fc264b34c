-- ===== src/Persistent/Histories.antt =====
-- Runs of the persistent cache of crates/cache/src/lib.rs.
use quic_kfs.Prelude.{ℕ, ◌≤◌, refl, List, [], ◌∷◌, Bool, Option, u64_max}
use quic_kfs.Cache.Keys.{RangeKey}
use quic_kfs.Persistent.Store.{Bytes, EntryKey, Encoding, Files, Store}
use quic_kfs.Persistent.Commits.{flush_deferred_commits, begin_deferred_commits}
use quic_kfs.Persistent.Inserts.{insert_entries}
use quic_kfs.Persistent.Reads.{remove_matching, read_key}
use quic_kfs.Persistent.Values.{invalidate_directories_containing, invalidate_node}
use quic_kfs.Persistent.Ranges.{get_range_value, get_covering_range_value}
use quic_kfs.Persistent.Backing.{IsDisk, IsCollisionFree}
use quic_kfs.Persistent.Holding.{flush-Holding}
use quic_kfs.Persistent.Stored.{Payloads, after_insert, after_removal, IsTrue, Holding-IsTrue}
use quic_kfs.Persistent.Runs.{insert_entries-IsTrue}
use quic_kfs.Persistent.Removal.{remove_matching-IsTrue, any_removal-IsTrue}
use quic_kfs.Persistent.Answers.{IsAnswer, read_key-IsAnswer, read_disk_entry-IsTrue, touch-IsTrue}
use quic_kfs.Persistent.Keeping.{get_range_value_keeps, get_covering_range_value_keeps}
use quic_kfs.Persistent.Invalidation.{
  is_listing_of, is_about, after_invalidation, invalidate_node-IsTrue,
  invalidate_directories_containing-IsTrue,
}

-- What is asked of the cache: the writer's batches are among it.
pub data CacheCall : Type 0 where
  insertion : List (EntryKey × Bytes) → CacheCall
  removal : (EntryKey → Bool) → CacheCall
  reading : EntryKey → CacheCall
  range_reading : RangeKey → CacheCall
  cover_reading : RangeKey → CacheCall
  node_invalidation : ℕ → CacheCall
  listing_invalidation : ℕ → CacheCall
  batch_begins : CacheCall
  batch_ends : CacheCall

module _ {W : Type 0} (files : Files W) (codec : Encoding) where
  unfoldable pub cache_call : CacheCall → Store W → Store W
  cache_call (insertion es) s = (insert_entries files codec es s).0
  cache_call (removal predicate) s = (remove_matching files codec predicate s).0
  cache_call (reading key) s = (read_key files codec key s).0
  cache_call (range_reading key) s = (get_range_value files codec key s).0
  cache_call (cover_reading key) s = (get_covering_range_value files codec key s).0
  cache_call (node_invalidation node) s = (invalidate_node files codec node s).0
  cache_call (listing_invalidation node) s =
      (invalidate_directories_containing files codec node s).0
  cache_call batch_begins s = begin_deferred_commits s
  cache_call batch_ends s = (flush_deferred_commits files codec s).0

  unfoldable pub cache_calls : List CacheCall → Store W → Store W
  cache_calls [] s = s
  cache_calls (c ∷ cs) s = cache_calls cs (cache_call c s)

  -- What a read may return after a call, by the result of the call.
  abbrev pub after_call : CacheCall → Payloads → Store W → Payloads
  after_call (insertion es) Stored s = after_insert es Stored (insert_entries files codec es s).1
  after_call (removal predicate) Stored s =
      after_removal predicate Stored (remove_matching files codec predicate s).1
  after_call (node_invalidation node) Stored s =
      after_invalidation (is_about codec node) Stored (invalidate_node files codec node s).1
  after_call (listing_invalidation node) Stored s =
      after_invalidation (is_listing_of codec node) Stored
        (invalidate_directories_containing files codec node s).1
  after_call _ Stored s = Stored

  abbrev pub after_calls : List CacheCall → Payloads → Store W → Payloads
  after_calls [] Stored s = Stored
  after_calls (c ∷ cs) Stored s = after_calls cs (after_call c Stored s) (cache_call c s)

module _ {W : Type 0} (files : Files W) (codec : Encoding) (contents : W → Bytes → Option Bytes)
    (disk : IsDisk files contents) (free : IsCollisionFree codec) where
  abbrev pub IsTrueOf : ℕ → Payloads → Store W → Type 0
  IsTrueOf = IsTrue files codec contents disk free

  cache_call-IsTrue :
      (Stored : Payloads) (m : ℕ) (c : CacheCall) (s : Store W)
      → m ≤ u64_max
      → IsTrueOf m Stored s
      → IsTrueOf m (after_call files codec c Stored s) (cache_call files codec c s)
  unfolding cache_call begin_deferred_commits
  cache_call-IsTrue Stored m (insertion es) s w h =
      insert_entries-IsTrue files codec contents disk free Stored m es s h
  cache_call-IsTrue Stored m (removal predicate) s w h =
      remove_matching-IsTrue files codec contents disk free predicate Stored m s h
  cache_call-IsTrue Stored m (reading key) s w h =
      (read_key-IsAnswer files codec contents disk free Stored m key s w h).1
  cache_call-IsTrue Stored m (range_reading key) s w h =
      get_range_value_keeps files codec (IsTrueOf m Stored)
        (read_disk_entry-IsTrue files codec contents disk free Stored m)
        (any_removal-IsTrue files codec contents disk free Stored m)
        (touch-IsTrue files codec contents disk free Stored m) key s h
  cache_call-IsTrue Stored m (cover_reading key) s w h =
      get_covering_range_value_keeps files codec (IsTrueOf m Stored)
        (read_disk_entry-IsTrue files codec contents disk free Stored m)
        (any_removal-IsTrue files codec contents disk free Stored m)
        (touch-IsTrue files codec contents disk free Stored m) key s h
  cache_call-IsTrue Stored m (node_invalidation node) s w h =
      invalidate_node-IsTrue files codec contents disk free Stored m node s w h
  cache_call-IsTrue Stored m (listing_invalidation node) s w h =
      invalidate_directories_containing-IsTrue files codec contents disk free Stored m node s w h
  cache_call-IsTrue Stored m batch_begins s w h = h
  cache_call-IsTrue Stored m batch_ends s w (a, h) =
      Holding-IsTrue files codec contents disk free Stored m s.state
        (flush_deferred_commits files codec s).0
        (flush-Holding files codec contents disk free Stored m s.state s (a, refl, h))

  pub cache_calls-IsTrue :
      (Stored : Payloads) (m : ℕ) (calls : List CacheCall) (s : Store W)
      → m ≤ u64_max
      → IsTrueOf m Stored s
      → IsTrueOf m (after_calls files codec calls Stored s) (cache_calls files codec calls s)
  unfolding cache_calls
  cache_calls-IsTrue Stored m [] s w h = h
  cache_calls-IsTrue Stored m (c ∷ cs) s w h =
      cache_calls-IsTrue (after_call files codec c Stored s) m cs (cache_call files codec c s) w
        (cache_call-IsTrue Stored m c s w h)

  -- If files change only by the calls that write or remove them, no two payloads have one name,
  -- the budget is a 64-bit number, and every entry of a cache has its file with a payload that may
  -- be returned, then after any insertions, removals, reads, invalidations and batches, whatever
  -- of them fails, a read gives a payload that was inserted under its key and was not removed,
  -- replaced or invalidated (as one of the node, or as a listing that names it) by a call that
  -- succeeded since, or no entry, or an error other than CorruptEntry.
  pub cache_calls-IsAnswer :
      (Stored : Payloads) (m : ℕ) (calls : List CacheCall) (key : EntryKey) (s : Store W)
      → m ≤ u64_max
      → IsTrueOf m Stored s
      → IsAnswer
          (after_calls files codec calls Stored s)
          key
          (read_key files codec key (cache_calls files codec calls s)).1
  cache_calls-IsAnswer Stored m calls key s w h =
      (read_key-IsAnswer files codec contents disk free (after_calls files codec calls Stored s) m
        key (cache_calls files codec calls s) w (cache_calls-IsTrue Stored m calls s w h)).0

-- ===== src/Prefetch/Histories.antt =====
-- Every history of the controller of crates/client-core/src/cached.rs: reads, blocks that are given
-- back for want of permits, and completions, in any order.
use quic_kfs.Prelude.{
  ℕ, ◌≤◌, ◌≡◌, refl, Bool, true, false, List, [], ◌∷◌, arith, ◌==◌, length, All, Bool-cases, inl,
  inr,
}
use quic_kfs.Cache.Keys.{RangeKey}
use quic_kfs.Prefetch.Stream.{PrefetchStream, Read, release, finish}
use quic_kfs.Prefetch.Controller.{
  SequentialPrefetcher, empty, observe, update_stream, unschedule, complete,
}
use quic_kfs.Prefetch.Limits.{IsStream, IsController, observe-IsController}

pub data Event : Type 0 where
  reads : Read → Event
  returns : ℕ → List RangeKey → Event
  completes : ℕ → Bool → Event

unfoldable pub step : SequentialPrefetcher → Event → SequentialPrefetcher
unfolding observe unschedule complete
step p (reads r) = (observe r p).0
step p (returns id blocks) = unschedule id blocks p
step p (completes id done) = complete id done p

unfoldable pub run : SequentialPrefetcher → List Event → SequentialPrefetcher
run p [] = p
run p (e ∷ es) = run (step p e) es

abbrev pub WithinLimit : ℕ → Event → Type 0
WithinLimit blocks (reads r) = r.cap_blocks ≤ blocks
WithinLimit blocks (returns id bs) = Unit
WithinLimit blocks (completes id done) = Unit

update_stream-IsStream :
    (blocks id : ℕ) (f : PrefetchStream → PrefetchStream) (ss : List PrefetchStream)
    → ((s : PrefetchStream) → IsStream blocks s → IsStream blocks (f s))
    → All (IsStream blocks) ss
    → All (IsStream blocks) (update_stream id f ss)
unfolding update_stream
update_stream-IsStream blocks id f [] keep a = tt
update_stream-IsStream blocks id f (s ∷ ss) keep a = elim (Bool-cases (s.id == id)) [
  | inl hit ↦ rw hit (keep s a.0, a.1)
  | inr miss ↦ rw miss (a.0, update_stream-IsStream blocks id f ss keep a.1)
]

length-update_stream :
    (id : ℕ) (f : PrefetchStream → PrefetchStream) (ss : List PrefetchStream)
    → length (update_stream id f ss) ≡ length ss
unfolding update_stream
length-update_stream id f [] = refl
length-update_stream id f (s ∷ ss) = ground (arith, length-update_stream id f ss)

release-IsStream :
    (blocks : ℕ) (bs : List RangeKey) (s : PrefetchStream)
    → IsStream blocks s
    → IsStream blocks (release bs s)
unfolding release
release-IsStream blocks [] s i = i
release-IsStream blocks (b ∷ bs) s i = record {
  window = i.window;
  flight = omega (arith, i.flight);
}

finish-IsStream :
    (blocks : ℕ) (done : Bool) (s : PrefetchStream)
    → IsStream blocks s
    → IsStream blocks (finish done s)
unfolding finish
finish-IsStream blocks true s i = record { window = i.window; flight = omega (arith, i.flight) }
finish-IsStream blocks false s i = record { window = omega arith; flight = omega (arith, i.flight) }

updated :
    (blocks id : ℕ) (f : PrefetchStream → PrefetchStream) (p : SequentialPrefetcher)
    → ((s : PrefetchStream) → IsStream blocks s → IsStream blocks (f s))
    → IsController blocks p
    → IsController blocks (record p { streams = update_stream id f p.streams })
updated blocks id f p keep c = record {
  few = omega (arith, length-update_stream id f p.streams, c.few);
  each = update_stream-IsStream blocks id f p.streams keep c.each;
}

step-IsController :
    (blocks : ℕ) (p : SequentialPrefetcher) (e : Event)
    → WithinLimit blocks e
    → IsController blocks p
    → IsController blocks (step p e)
unfolding step
step-IsController blocks p (reads r) within c = observe-IsController blocks r within p c
step-IsController blocks p (returns id bs) within c =
    unfold unschedule in updated blocks id (release bs) p (release-IsStream blocks bs) c
step-IsController blocks p (completes id done) within c =
    unfold complete in updated blocks id (finish done) p (finish-IsStream blocks done) c

run-IsController :
    (blocks : ℕ) (p : SequentialPrefetcher) (es : List Event)
    → All (WithinLimit blocks) es
    → IsController blocks p
    → IsController blocks (run p es)
unfolding run
run-IsController blocks p [] within c = c
run-IsController blocks p (e ∷ es) within c =
    run-IsController blocks (step p e) es within.1 (step-IsController blocks p e within.0 c)

-- However reads, completions and returned blocks follow one another on a new handle, if no read's
-- limit is above `blocks`, there are never more than MAX_PREFETCH_STREAMS streams, and no stream's
-- window or outstanding reads exceed `blocks` blocks.
pub run-empty-IsController :
    (blocks : ℕ) (es : List Event)
    → All (WithinLimit blocks) es
    → IsController blocks (run empty es)
run-empty-IsController blocks es within =
    run-IsController blocks empty es within (record { few = omega arith; each = tt })

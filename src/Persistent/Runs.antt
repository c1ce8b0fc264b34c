-- ===== src/Persistent/Runs.antt =====
-- Each call of the persistent cache of crates/cache/src/lib.rs keeps its entries true, whatever fails.
use quic_kfs.Prelude.{
  ℕ, ◌≡◌, refl, subst, ◌∙◌, ◌⊎◌, inl, inr, true, not, Option, some, List, Bool-cases, All-retain,
  retain,
}
use quic_kfs.Persistent.Store.{
  CacheResult, err, ok, Bytes, EntryKey, DiskEntry, PersistentState, Encoding, Files, Store,
}
use quic_kfs.Persistent.Table.{entry_of, PreparedEntry}
use quic_kfs.Persistent.Inserts.{prepare, is_current, store_prepared, insert_entries}
use quic_kfs.Persistent.Backing.{IsDisk, IsCollisionFree, Backed}
use quic_kfs.Persistent.Lookups.{Result-cases}
use quic_kfs.Persistent.Insertion.{IsFresh, Outcome, store_prepared-Outcome}
use quic_kfs.Persistent.Stored.{
  Payloads, IsGiven, has_key, after_insert, IsReady, prepare-IsReady, IsGivenEntry, placed-IsGiven,
  dropped-IsGiven, IsTrue, Holding-IsTrue, IsTrue-weaken,
}

module _ {W : Type 0} (files : Files W) (codec : Encoding) (contents : W → Bytes → Option Bytes)
    (disk : IsDisk files contents) (free : IsCollisionFree codec) where
  abbrev IsTrueOf : ℕ → Payloads → Store W → Type 0
  IsTrueOf = IsTrue files codec contents disk free

  -- After a success the entries of the keys are those given.
  abbrev IsReplaced : List (EntryKey × Bytes) → PersistentState → Type 0
  IsReplaced es q =
      (k : EntryKey) (e : DiskEntry)
      → entry_of k q.entries ≡ some e
      → has_key k es ≡ true
      → IsGivenEntry codec es k e

  replaced-Backed :
      (Stored : Payloads) (m : ℕ) (es : List (EntryKey × Bytes)) (w : W) (k : EntryKey)
      (e : DiskEntry)
      → (has_key k es ≡ true → IsGivenEntry codec es k e)
      → Backed codec contents (λ k b. Stored k b ⊎ IsGiven es k b) m w k e
      → Backed codec contents (after_insert es Stored (ok tt)) m w k e
  replaced-Backed Stored m es w k e given (b, c, n, d, l, r, inr new) = (b, c, n, d, l, r, inr new)
  replaced-Backed Stored m es w k e given (b, c, n, d, l, r, inl old) =
      elim (Bool-cases (has_key k es)) [
        | inr absent ↦ (b, c, n, d, l, r, inl (absent, old))
        | inl present ↦
            let (b', n', new) = given present in
            let same = (free k k b' b e.file_name n' n).1 in
            (b, c, n, d, l, r, inr (subst (IsGiven es k) same new))
      ]

  after_store-IsTrue :
      (Stored : Payloads) (m : ℕ) (es : List (EntryKey × Bytes)) (p : PersistentState)
      (kept : List PreparedEntry) (r : Store W × CacheResult (Unit {0}))
      → ((q : PersistentState) → IsFresh kept p q → IsReplaced es q)
      → Outcome files codec contents disk free (λ k b. Stored k b ⊎ IsGiven es k b) m p kept r
      → IsTrueOf m (after_insert es Stored r.1) r.0
  after_store-IsTrue Stored m es p kept (t, err x) f (q, held) =
      Holding-IsTrue files codec contents disk free (λ k b. Stored k b ⊎ IsGiven es k b) m q t held
  after_store-IsTrue Stored m es p kept (t, ok _) f (q, fresh, (a, b, c)) =
      Holding-IsTrue files codec contents disk free (after_insert es Stored (ok tt)) m q t
        (a, b, λ k e g. replaced-Backed Stored m es t.world k e (f q fresh k e g) (c k e g))

  kept-IsReplaced :
      (m : ℕ) (es : List (EntryKey × Bytes)) (p : PersistentState) (ps : List PreparedEntry)
      → prepare codec m es ≡ ok ps
      → (q : PersistentState) → IsFresh (retain (λ x. not (is_current p.entries x)) ps) p q
      → IsReplaced es q
  kept-IsReplaced m es p ps prepared q fresh k e f present =
      let (ready, names) = prepare-IsReady codec (IsGiven es) m es ps (λ k b g. g) prepared in
      elim (fresh k e f) [
        | inl placed ↦
            placed-IsGiven codec es m (retain (λ x. not (is_current p.entries x)) ps) k e
              (All-retain (IsReady codec (IsGiven es) m) (λ x. not (is_current p.entries x)) ps
                ready)
              placed
        | inr (dropped, old) ↦
            dropped-IsGiven codec es m p.entries ps k e ready (names k ∙ present) dropped old
      ]

  pub insert_entries-IsTrue :
      (Stored : Payloads) (m : ℕ) (es : List (EntryKey × Bytes)) (s : Store W)
      → IsTrueOf m Stored s
      → let r = insert_entries files codec es s in IsTrueOf m (after_insert es Stored r.1) r.0
  unfolding insert_entries
  insert_entries-IsTrue Stored m es s (a, h) =
      let Wider : Payloads = λ k b. Stored k b ⊎ IsGiven es k b in
      elim (Result-cases (prepare codec s.maximum_payload_bytes es)) [
        | inl (x, wrong) ↦
            rw wrong
              (IsTrue-weaken files codec contents disk free Stored Wider m s (λ k b. inl) (a, h))
        | inr (ps, prepared) ↦
            let prepared' : prepare codec m es ≡ ok ps =
              subst (λ x. prepare codec x es ≡ ok ps) a prepared in
            let kept = retain (λ x. not (is_current s.state.entries x)) ps in
            let ready = (prepare-IsReady codec Wider m es ps (λ k b. inr) prepared').0 in
            let (_, wide) =
              IsTrue-weaken files codec contents disk free Stored Wider m s (λ k b. inl) (a, h) in
            rw prepared (
              after_store-IsTrue Stored m es s.state kept (store_prepared files codec kept s)
                (kept-IsReplaced m es s.state ps prepared')
                (store_prepared-Outcome files codec contents disk free Wider m s.state kept s
                  (a, refl, wide)
                  (All-retain (IsReady codec Wider m) (λ x. not (is_current s.state.entries x)) ps
                    ready)))
      ]

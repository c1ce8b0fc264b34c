-- ===== src/Persistent/Holding.antt =====
-- Commits of the persistent cache of crates/cache/src/lib.rs leave every entry backed, whatever fails.
use quic_kfs.Prelude.{
  ℕ, ◌≡◌, refl, subst, ◌⊎◌, inl, inr, Bool, true, false, not, Option, List, [], ◌∷◌, ◌++◌,
  Bool-cases, if◌then◌else◌,
}
use quic_kfs.Persistent.Store.{
  CacheResult, err, ok, Bytes, EntryKey, Entries, PersistentState, Encoding, Files, Store, and_then,
  on_files,
}
use quic_kfs.Persistent.Commits.{
  references, remove_unreferenced_files, remove_file, write_file, manifest_file, manifest_bytes,
  write_manifest, settle, commit_state, flush_removals, flush_deferred_commits, leave_batch,
}
use quic_kfs.Persistent.Backing.{
  IsDisk, IsCollisionFree, AllBacked, Backed-same, manifest-Backed, remove-AllBacked,
}

pub and_then-lem_on :
    {W A B : Type 0} (P : Store W → Type 0) (r : Store W × CacheResult A)
    (f : A → Store W → Store W × CacheResult B)
    → P r.0
    → ((a : A) (t : Store W) → P t → P (f a t).0)
    → P (and_then r f).0
and_then-lem_on P (s, err e) f h next = h
and_then-lem_on P (s, ok a) f h next = next a s h

pub if_lem_on {ℓ κ} :
    {A : Type ℓ} (P : A → Type κ) (b : Bool) {x y : A} → P x → P y → P (if b then x else y)
if_lem_on P true hx hy = hx
if_lem_on P false hx hy = hy

module _ {W : Type 0} (files : Files W) (codec : Encoding) (contents : W → Bytes → Option Bytes)
    (disk : IsDisk files contents) (free : IsCollisionFree codec)
    (Stored : EntryKey → Bytes → Type 0) where
  abbrev pub Table : ℕ → W → Entries → Type 0
  Table = AllBacked files codec contents disk free Stored

  -- A state in memory, and a table of which every entry is backed.
  abbrev pub Holding : ℕ → PersistentState → Entries → Store W → Type 0
  Holding m p l t = (t.maximum_payload_bytes ≡ m) × (t.state ≡ p) × Table m t.world l

  pub remove_unreferenced-Holding :
      (m : ℕ) (p : PersistentState) (names : List Bytes) (s : Store W)
      → Holding m p p.entries s
      → Holding m p p.entries (remove_unreferenced_files files names s).0
  unfolding remove_unreferenced_files
  remove_unreferenced-Holding m p [] s h = h
  remove_unreferenced-Holding m p (name ∷ names) s h =
      elim (Bool-cases (references name s.state.entries)) [
        | inl used ↦ rw used (remove_unreferenced-Holding m p names s h)
        | inr unused ↦
            let free_name : references name p.entries ≡ false =
              subst (λ x. references name x.entries ≡ false) h.1 unused in
            rw unused (
              and_then-lem_on (Holding m p p.entries) (remove_file files name s) _
                (
                  h.0,
                  h.1,
                  remove-AllBacked files codec contents disk free Stored m s.world p.entries name
                      free_name h.2,
                )
                (λ _ t. remove_unreferenced-Holding m p names t))
      ]

  pub sync-Holding :
      (m : ℕ) (p : PersistentState) (l : Entries) (s : Store W)
      → Holding m p l s
      → Holding m p l (on_files files.sync_directory s).0
  sync-Holding m p l s (a, b, c) = (
    a,
    b,
    λ k e f.
        Backed-same files codec contents disk free Stored m s.world _ k e
          (disk.sync_same s.world e.file_name) (c k e f),
  )

  pub write_manifest-Holding :
      (m : ℕ) (p : PersistentState) (l : Entries) (state : PersistentState) (s : Store W)
      → Holding m p l s
      → Holding m p l (write_manifest files codec state s).0
  unfolding write_manifest
  write_manifest-Holding m p l state s h =
      and_then-lem_on (Holding m p l) (s, manifest_bytes codec s state) _ h
        (λ bytes t (a, b, c).
          and_then-lem_on (Holding m p l) (write_file files manifest_file bytes t) _
            (
              a,
              b,
              λ k e f.
                  manifest-Backed files codec contents disk free Stored m t.world k e bytes
                    (c k e f),
            )
            (λ _ u k. k))

  pub settle-Holding :
      (m : ℕ) (p q : PersistentState) (obsolete : List Bytes) (s : Store W)
      → Holding m p q.entries s
      → Holding m q q.entries (settle files q obsolete s).0
  unfolding settle
  settle-Holding m p q obsolete s (a, b, c) =
      and_then-lem_on (Holding m q q.entries) (remove_unreferenced_files files _ _) _
        (remove_unreferenced-Holding m q (s.deferred.pending_removals ++ obsolete) _ (a, refl, c))
        (λ _ t. sync-Holding m q q.entries t)

  -- A commit that fails has left the old state or the new one, and one that succeeds the new one.
  abbrev pub Committed :
      ℕ → PersistentState → PersistentState → Store W × CacheResult (Unit {0}) → Type 0
  Committed m p q (t, err x) = Holding m p p.entries t ⊎ Holding m q q.entries t
  Committed m p q (t, ok _) = Holding m q q.entries t

  Committed-inr :
      (m : ℕ) (p q : PersistentState) (r : Store W × CacheResult (Unit {0}))
      → Holding m q q.entries r.0
      → Committed m p q r
  Committed-inr m p q (t, err x) h = inr h
  Committed-inr m p q (t, ok _) h = h

  after_manifest-Committed :
      (m : ℕ) (p q : PersistentState) (obsolete : List Bytes) (r : Store W × CacheResult (Unit {0}))
      → Holding m p p.entries r.0
      → Holding m p q.entries r.0
      → Committed m p q (and_then r (λ _. settle files q obsolete))
  after_manifest-Committed m p q obsolete (t, err x) h k = inl h
  after_manifest-Committed m p q obsolete (t, ok _) h k =
      Committed-inr m p q (settle files q obsolete t) (settle-Holding m p q obsolete t k)

  pub commit_state-Committed :
      (m : ℕ) (p q : PersistentState) (s : Store W)
      → Holding m p p.entries s
      → Table m s.world q.entries
      → Committed m p q (commit_state files codec q s)
  unfolding commit_state
  commit_state-Committed m p q s h tq =
      if_lem_on (Committed m p q) s.deferred.active (h.0, refl, tq)
        (after_manifest-Committed m p q _ (write_manifest files codec q s)
          (write_manifest-Holding m p p.entries q s h)
          (write_manifest-Holding m p q.entries q s (h.0, h.1, tq)))

  pub flush-Holding :
      (m : ℕ) (p : PersistentState) (s : Store W)
      → Holding m p p.entries s
      → Holding m p p.entries (flush_deferred_commits files codec s).0
  unfolding flush_deferred_commits flush_removals
  flush-Holding m p s h =
      if_lem_on (λ (r : Store W × CacheResult (Unit {0})). Holding m p p.entries r.0)
        (not s.deferred.dirty) h
        (and_then-lem_on (Holding m p p.entries)
          (write_manifest files codec s.state (leave_batch s)) _
          (write_manifest-Holding m p p.entries s.state (leave_batch s) h)
          (λ _ t k.
            and_then-lem_on (Holding m p p.entries) (remove_unreferenced_files files _ _) _
              (remove_unreferenced-Holding m p t.deferred.pending_removals _ k)
              (λ _ u. sync-Holding m p p.entries u)))

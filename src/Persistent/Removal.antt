-- ===== src/Persistent/Removal.antt =====
-- Removals and reads of the persistent cache of crates/cache/src/lib.rs keep its entries true.
use quic_kfs.Prelude.{
  ℕ, ◌≡◌, refl, sym, ap, ◌∙◌, inl, inr, Bool, true, false, Option, none, some, List, [], ◌∷◌, arith,
  Bool-cases, Option-cases, any,
}
use quic_kfs.Persistent.Store.{
  CacheResult, err, ok, Bytes, EntryKey, key_eq, DiskEntry, Entries, PersistentState, Encoding,
  Files, Store,
}
use quic_kfs.Persistent.Table.{entry_of, take_out, remove_keys}
use quic_kfs.Persistent.Commits.{remove_keys_locked, commit_state}
use quic_kfs.Persistent.Reads.{matching_keys, remove_matching}
use quic_kfs.Persistent.Backing.{IsDisk, IsCollisionFree, Backed, key_eq→eq}
use quic_kfs.Persistent.Lookups.{Result-cases, remove_keys-IsWithin, entry_of-without}
use quic_kfs.Persistent.Holding.{Committed, commit_state-Committed}
use quic_kfs.Persistent.Stored.{Payloads, after_removal, IsTrue, Holding-IsTrue, IsTrue-weaken}

abbrev pub lists : EntryKey → List EntryKey → Bool
lists k keys = any (λ x. key_eq x k) keys

none_within :
    (s t : PersistentState) (k : EntryKey)
    → ((k : EntryKey) (e : DiskEntry)
        → entry_of k t.entries ≡ some e
        → entry_of k s.entries ≡ some e)
    → entry_of k s.entries ≡ none
    → entry_of k t.entries ≡ none
none_within s t k within absent = elim (Option-cases (entry_of k t.entries)) [
  | inl still ↦ still
  | inr (e, there) ↦ let before = within k e there in absurd (ground arith)
]

take_out-none :
    (key k : EntryKey) (entry : DiskEntry) (s t : PersistentState)
    → take_out key entry s ≡ ok t
    → key_eq key k ≡ true
    → entry_of k t.entries ≡ none
unfolding take_out
take_out-none key k entry s t h same = ground (arith, entry_of-without key k s.entries)

-- The keys that are removed are found no more.
remove_keys-none :
    (keys : List EntryKey) (s t : PersistentState) (k : EntryKey)
    → remove_keys keys s ≡ ok t
    → lists k keys ≡ true
    → entry_of k t.entries ≡ none
unfolding remove_keys
remove_keys-none [] s t k h l = absurd (ground arith)
remove_keys-none (key ∷ keys) s t k h l = elim (Option-cases (entry_of key s.entries)) [
  | inl absent ↦ elim (Bool-cases (key_eq key k)) [
    | inl same ↦
        none_within s t k (remove_keys-IsWithin keys s t (rw (absent, remove_keys) at h))
          (ap (λ x. entry_of x s.entries) (sym (key_eq→eq key k same)) ∙ absent)
    | inr other ↦ remove_keys-none keys s t k (rw (absent, remove_keys) at h) (ground arith)
  ]
  | inr (entry, present) ↦ elim (Result-cases (take_out key entry s)) [
    | inl (x, wrong) ↦ absurd (ground arith)
    | inr (u, taken) ↦
        let rest = rw (present, taken, remove_keys) at h in
        elim (Bool-cases (key_eq key k)) [
          | inl same ↦
              none_within u t k (remove_keys-IsWithin keys u t rest)
                (take_out-none key k entry s u taken same)
          | inr other ↦ remove_keys-none keys u t k rest (ground arith)
        ]
  ]
]

pub matching_keys-lists :
    (predicate : EntryKey → Bool) (entries : Entries) (k : EntryKey) (e : DiskEntry)
    → entry_of k entries ≡ some e
    → predicate k ≡ true
    → lists k (matching_keys predicate entries) ≡ true
unfolding matching_keys entry_of
matching_keys-lists predicate [] k e f h = absurd (ground arith)
matching_keys-lists predicate ((j, x) ∷ rest) k e f h = elim (Bool-cases (key_eq j k)) [
  | inl same ↦ let q : predicate j ≡ true = ap predicate (key_eq→eq j k same) ∙ h in ground arith
  | inr other ↦ ground (arith, matching_keys-lists predicate rest k e)
]

pub after_removal-weaken :
    (predicate : EntryKey → Bool) (Stored : Payloads) (r : CacheResult (Unit {0})) (k : EntryKey)
    (b : Bytes)
    → after_removal predicate Stored r k b
    → Stored k b
after_removal-weaken predicate Stored (err x) k b h = h
after_removal-weaken predicate Stored (ok _) k b (_, h) = h

module _ {W : Type 0} (files : Files W) (codec : Encoding) (contents : W → Bytes → Option Bytes)
    (disk : IsDisk files contents) (free : IsCollisionFree codec) where
  abbrev IsTrueOf : ℕ → Payloads → Store W → Type 0
  IsTrueOf = IsTrue files codec contents disk free

  after_commit-IsTrue :
      (predicate : EntryKey → Bool) (Stored : Payloads) (m : ℕ) (p q : PersistentState)
      (r : Store W × CacheResult (Unit {0}))
      → ((k : EntryKey) (e : DiskEntry) → entry_of k q.entries ≡ some e → predicate k ≡ false)
      → Committed files codec contents disk free Stored m p q r
      → IsTrueOf m (after_removal predicate Stored r.1) r.0
  after_commit-IsTrue predicate Stored m p q (t, err x) f (inl h) =
      Holding-IsTrue files codec contents disk free Stored m p t h
  after_commit-IsTrue predicate Stored m p q (t, err x) f (inr h) =
      Holding-IsTrue files codec contents disk free Stored m q t h
  after_commit-IsTrue predicate Stored m p q (t, ok _) f (a, b, c) =
      Holding-IsTrue files codec contents disk free (after_removal predicate Stored (ok tt)) m q t
        (a, b, λ k e g. with_test k e (f k e g) (c k e g))
    where
      with_test :
          (k : EntryKey) (e : DiskEntry)
          → predicate k ≡ false
          → Backed codec contents Stored m t.world k e
          → Backed codec contents (after_removal predicate Stored (ok tt)) m t.world k e
      with_test k e u (b', c', n, d, l, r, st) = (b', c', n, d, l, r, (u, st))

  pub remove_keys_locked-IsTrue :
      (predicate : EntryKey → Bool) (keys : List EntryKey) (Stored : Payloads) (m : ℕ) (s : Store W)
      → ((k : EntryKey) (e : DiskEntry)
          → entry_of k s.state.entries ≡ some e
          → predicate k ≡ true
          → lists k keys ≡ true)
      → IsTrueOf m Stored s
      → let r = remove_keys_locked files codec keys s in
        IsTrueOf m (after_removal predicate Stored r.1) r.0
  unfolding remove_keys_locked
  remove_keys_locked-IsTrue predicate [] Stored m s f (a, h) =
      after_commit-IsTrue predicate Stored m s.state s.state (s, ok tt) (λ k e g. outside k e g)
        (a, refl, h)
    where
      outside :
          (k : EntryKey) (e : DiskEntry) → entry_of k s.state.entries ≡ some e → predicate k ≡ false
      outside k e g = elim (Bool-cases (predicate k)) [
        | inr no_match ↦ no_match
        | inl inside ↦ absurd (ground (arith, f k e g inside))
      ]
  remove_keys_locked-IsTrue predicate (key ∷ keys) Stored m s f (a, h) =
      elim (Result-cases (remove_keys (key ∷ keys) s.state)) [
        | inl (x, wrong) ↦ rw wrong (a, h)
        | inr (q, removed) ↦
            let within = remove_keys-IsWithin (key ∷ keys) s.state q removed in
            rw removed (
              after_commit-IsTrue predicate Stored m s.state q (commit_state files codec q s)
                (λ k e g. gone q removed k e g)
                (commit_state-Committed files codec contents disk free Stored m s.state q s
                  (a, refl, h) (λ k e g. h k e (within k e g))))
      ]
    where
      gone :
          (q : PersistentState)
          → remove_keys (key ∷ keys) s.state ≡ ok q
          → (k : EntryKey) (e : DiskEntry) → entry_of k q.entries ≡ some e
          → predicate k ≡ false
      gone q removed k e g = elim (Bool-cases (predicate k)) [
        | inr outside ↦ outside
        | inl inside ↦
            let before = remove_keys-IsWithin (key ∷ keys) s.state q removed k e g in
            let absent = remove_keys-none (key ∷ keys) s.state q k removed (f k e before inside) in
            absurd (ground arith)
      ]

  pub remove_matching-IsTrue :
      (predicate : EntryKey → Bool) (Stored : Payloads) (m : ℕ) (s : Store W)
      → IsTrueOf m Stored s
      → let r = remove_matching files codec predicate s in
        IsTrueOf m (after_removal predicate Stored r.1) r.0
  unfolding remove_matching
  remove_matching-IsTrue predicate Stored m s h =
      remove_keys_locked-IsTrue predicate (matching_keys predicate s.state.entries) Stored m s
        (matching_keys-lists predicate s.state.entries) h

  -- Whatever keys are removed, what is left is true.
  pub any_removal-IsTrue :
      (Stored : Payloads) (m : ℕ) (keys : List EntryKey) (s : Store W)
      → IsTrueOf m Stored s
      → IsTrueOf m Stored (remove_keys_locked files codec keys s).0
  any_removal-IsTrue Stored m keys s h =
      let r = remove_keys_locked files codec keys s in
      IsTrue-weaken files codec contents disk free (after_removal (λ _. false) Stored r.1) Stored m
        r.0 (after_removal-weaken (λ _. false) Stored r.1)
        (remove_keys_locked-IsTrue (λ _. false) keys Stored m s
          (λ k e f wrong. absurd (ground arith)) h)

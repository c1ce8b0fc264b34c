-- ===== src/Persistent/Stored.antt =====
-- What insertions and removals of crates/cache/src/lib.rs make of the payloads that a read may return.
use quic_kfs.Prelude.{
  ℕ, ◌≤◌, ◌≡◌, refl, sym, ap, subst, ◌∙◌, ◌⊎◌, inl, inr, Bool, true, false, not, ◌||◌, Option, some,
  List, [], ◌∷◌, arith, Bool-cases, Option-cases, All, length, ltb, retain, any,
}
use quic_kfs.Persistent.Store.{
  CacheResult, err, ok, Bytes, bytes_eq, EntryKey, key_eq, DiskEntry, Entries, PersistentState,
  Encoding, Files, Store,
}
use quic_kfs.Persistent.Table.{entry_of, PreparedEntry}
use quic_kfs.Persistent.Inserts.{file_name_of, prepare_entry, prepare, is_current}
use quic_kfs.Persistent.Backing.{
  IsDisk, IsCollisionFree, AllBacked, Backed-weaken, key_eq→eq, bytes_eq→eq,
}
use quic_kfs.Persistent.Lookups.{Result-cases, IsPlaced, named}
use quic_kfs.Persistent.Holding.{Holding}

-- The payloads that a read of a key may return.
abbrev pub Payloads : Type 1
Payloads = EntryKey → Bytes → Type 0

abbrev pub IsGiven : List (EntryKey × Bytes) → EntryKey → Bytes → Type 0
IsGiven [] k b = ⊥
IsGiven ((k', b') ∷ es) k b = ((k ≡ k') × (b ≡ b')) ⊎ IsGiven es k b

abbrev pub has_key : EntryKey → List (EntryKey × Bytes) → Bool
has_key k es = any (λ e. key_eq e.0 k) es

-- A successful insertion replaces the payloads of its keys; a failed one may have stored its own.
abbrev pub after_insert :
    {A : Type 0} → List (EntryKey × Bytes) → Payloads → CacheResult A → Payloads
after_insert es Stored (err x) k b = Stored k b ⊎ IsGiven es k b
after_insert es Stored (ok _) k b = ((has_key k es ≡ false) × Stored k b) ⊎ IsGiven es k b

-- A successful removal leaves no payload of its keys.
abbrev pub after_removal : {A : Type 0} → (EntryKey → Bool) → Payloads → CacheResult A → Payloads
after_removal predicate Stored (err x) k b = Stored k b
after_removal predicate Stored (ok _) k b = (predicate k ≡ false) × Stored k b

module _ (codec : Encoding) where
  abbrev pub IsReady : Payloads → ℕ → PreparedEntry → Type 0
  IsReady Stored m p =
      (file_name_of codec p.key p.bytes ≡ some p.file_name)
      × (p.sha256 ≡ codec.sha256 p.bytes)
      × (p.stored_length ≡ length p.bytes)
      × (length p.bytes ≤ m)
      × Stored p.key p.bytes

  prepare_entry-IsReady :
      (Stored : Payloads) (m : ℕ) (k : EntryKey) (b : Bytes) (p : PreparedEntry)
      → Stored k b
      → prepare_entry codec m k b ≡ ok p
      → IsReady Stored m p × (p.key ≡ k)
  unfolding prepare_entry
  prepare_entry-IsReady Stored m k b p st h = elim (Bool-cases (ltb m (length b))) [
    | inl large ↦ absurd (ground arith)
    | inr fits ↦ elim (Option-cases (file_name_of codec k b)) [
      | inl unencoded ↦ absurd (ground arith)
      | inr (n, name) ↦
          let made : PreparedEntry = record {
            key = k;
            bytes = b;
            file_name = n;
            sha256 = codec.sha256 b;
            stored_length = length b;
          } in
          let same : made ≡ p = ground arith in
          subst (λ (x : PreparedEntry). IsReady Stored m x × (x.key ≡ k)) same
            ((name, refl, refl, ground arith, st), refl)
    ]
  ]

  pub prepare-IsReady :
      (Stored : Payloads) (m : ℕ) (es : List (EntryKey × Bytes)) (ps : List PreparedEntry)
      → ((k : EntryKey) (b : Bytes) → IsGiven es k b → Stored k b)
      → prepare codec m es ≡ ok ps
      → All (IsReady Stored m) ps × ((k : EntryKey) → named k ps ≡ has_key k es)
  unfolding prepare
  prepare-IsReady Stored m [] ps st h =
      let same : [] ≡ ps = ground arith in
      subst
        (λ (x : List PreparedEntry).
          All (IsReady Stored m) x × ((k : EntryKey) → named k x ≡ false))
        same (tt, λ k. refl)
  prepare-IsReady Stored m ((k, b) ∷ es) ps st h = elim (Result-cases (prepare_entry codec m k b)) [
    | inl (x, wrong) ↦ absurd (ground arith)
    | inr (p, first) ↦ elim (Result-cases (prepare codec m es)) [
      | inl (x, wrong) ↦ absurd (ground arith)
      | inr (qs, rest) ↦
          let same : p ∷ qs ≡ ps = ground arith in
          let ready = prepare_entry-IsReady Stored m k b p (st k b (inl (refl, refl))) first in
          let (all_ready, names) =
            prepare-IsReady Stored m es qs (λ k' b' g. st k' b' (inr g)) rest in
          subst
            (λ (x : List PreparedEntry).
              All (IsReady Stored m) x × ((k' : EntryKey) → named k' x ≡ has_key k' ((k, b) ∷ es)))
            same ((ready.0, all_ready), λ k'. rw ready.1 (ap (λ x. key_eq k k' || x) (names k')))
    ]
  ]

  -- The payload of an entry, if it is one of those given.
  abbrev pub IsGivenEntry : List (EntryKey × Bytes) → EntryKey → DiskEntry → Type 0
  IsGivenEntry es k e = (b : Bytes) × (file_name_of codec k b ≡ some e.file_name) × IsGiven es k b

  pub placed-IsGiven :
      (es : List (EntryKey × Bytes)) (m : ℕ) (ps : List PreparedEntry) (k : EntryKey)
      (e : DiskEntry)
      → All (IsReady (IsGiven es) m) ps
      → IsPlaced ps k e
      → IsGivenEntry es k e
  placed-IsGiven es m [] k e ready placed = absurd placed
  placed-IsGiven es m (p ∷ ps) k e ready (inl (a, b, c, d)) = (
    p.bytes,
    ap (λ x. file_name_of codec x p.bytes) a ∙ ready.0.0 ∙ ap some (sym b),
    subst (λ x. IsGiven es x p.bytes) (sym a) ready.0.4,
  )
  placed-IsGiven es m (p ∷ ps) k e ready (inr placed) = placed-IsGiven es m ps k e ready.1 placed

  is_current-file_name :
      (entries : Entries) (p : PreparedEntry) (e : DiskEntry)
      → is_current entries p ≡ true
      → entry_of p.key entries ≡ some e
      → bytes_eq e.file_name p.file_name ≡ true
  unfolding is_current
  is_current-file_name entries p e h f = ground arith

  -- An entry of a payload that was dropped as current is that payload's.
  pub dropped-IsGiven :
      (es : List (EntryKey × Bytes)) (m : ℕ) (entries : Entries) (ps : List PreparedEntry)
      (k : EntryKey) (e : DiskEntry)
      → All (IsReady (IsGiven es) m) ps
      → named k ps ≡ true
      → named k (retain (λ p. not (is_current entries p)) ps) ≡ false
      → entry_of k entries ≡ some e
      → IsGivenEntry es k e
  dropped-IsGiven es m entries [] k e ready h d f = absurd (ground arith)
  dropped-IsGiven es m entries (p ∷ ps) k e ready h d f = elim (Bool-cases (is_current entries p)) [
    | inr stale ↦ dropped-IsGiven es m entries ps k e ready.1 (ground arith) (ground arith) f
    | inl current ↦ elim (Bool-cases (key_eq p.key k)) [
      | inr other ↦ dropped-IsGiven es m entries ps k e ready.1 (ground arith) (ground arith) f
      | inl same ↦
          let a = key_eq→eq p.key k same in
          let n =
            bytes_eq→eq e.file_name p.file_name
              (is_current-file_name entries p e current (ap (λ x. entry_of x entries) a ∙ f)) in
          (
            p.bytes,
            ap (λ x. file_name_of codec x p.bytes) (sym a) ∙ ready.0.0 ∙ ap some (sym n),
            subst (λ x. IsGiven es x p.bytes) a ready.0.4,
          )
    ]
  ]

module _ {W : Type 0} (files : Files W) (codec : Encoding) (contents : W → Bytes → Option Bytes)
    (disk : IsDisk files contents) (free : IsCollisionFree codec) where
  -- Every entry has its file, with a payload that a read may return.
  abbrev pub IsTrue : ℕ → Payloads → Store W → Type 0
  IsTrue m Stored t =
      (t.maximum_payload_bytes ≡ m)
      × AllBacked files codec contents disk free Stored m t.world t.state.entries

  pub Holding-IsTrue :
      (Stored : Payloads) (m : ℕ) (q : PersistentState) (t : Store W)
      → Holding files codec contents disk free Stored m q q.entries t
      → IsTrue m Stored t
  Holding-IsTrue Stored m q t (a, b, c) = (
    a,
    subst
        (λ (x : PersistentState).
          AllBacked files codec contents disk free Stored m t.world x.entries)
        (sym b) c,
  )

  pub IsTrue-weaken :
      (A B : Payloads) (m : ℕ) (t : Store W)
      → ((k : EntryKey) (b : Bytes) → A k b → B k b)
      → IsTrue m A t
      → IsTrue m B t
  IsTrue-weaken A B m t f (a, h) =
      (a, λ k e g. Backed-weaken files codec contents disk free A B m t.world k e (f k) (h k e g))

-- ===== src/Persistent/Insertion.antt =====
-- What `insert_entries` of crates/cache/src/lib.rs leaves behind, on success and on every error.
use quic_kfs.Prelude.{
  ℕ, ◌≤◌, ◌≡◌, refl, sym, ap, subst, ◌∙◌, ◌⊎◌, inl, inr, false, Option, some, List, [], ◌∷◌, ◌++◌,
  arith, Bool-cases, All, length, ltb,
}
use quic_kfs.Persistent.Store.{
  CacheResult, err, ok, Bytes, EntryKey, DiskEntry, Entries, PersistentState, Encoding, Files,
  FileResult, done, failed, Store, and_then, result_of,
}
use quic_kfs.Persistent.Table.{entry_of, PreparedEntry, entry_at, splice}
use quic_kfs.Persistent.Commits.{remove_unreferenced_files, write_file, commit_state}
use quic_kfs.Persistent.Inserts.{
  file_name_of, propose, max_manifest_entries, both, write_payloads, splice_in, finish_insert,
  store_prepared,
}
use quic_kfs.Persistent.Backing.{IsDisk, IsCollisionFree, Backed, write-Backed}
use quic_kfs.Persistent.Lookups.{Result-cases, evict-IsWithin, IsPlaced, named, splice-entry_of}
use quic_kfs.Persistent.Holding.{
  Holding, remove_unreferenced-Holding, Committed, commit_state-Committed,
}

-- The new table has the placed entries, and the old ones under other keys.
abbrev pub IsFresh : List PreparedEntry → PersistentState → PersistentState → Type 0
IsFresh ps p q =
    (k : EntryKey) (e : DiskEntry)
    → entry_of k q.entries ≡ some e
    → IsPlaced ps k e ⊎ ((named k ps ≡ false) × (entry_of k p.entries ≡ some e))

propose-IsFresh :
    (m : ℕ) (ps : List PreparedEntry) (p q : PersistentState)
    → propose m ps p ≡ ok q
    → IsFresh ps p q
unfolding propose
propose-IsFresh m ps p q h k e f = elim (Result-cases (splice ps p)) [
  | inl (x, wrong) ↦ absurd (ground arith)
  | inr (t, spliced) ↦ elim (Bool-cases (ltb max_manifest_entries (length t.entries))) [
    | inl full ↦ absurd (ground arith)
    | inr room ↦
        splice-entry_of ps p t k e spliced
          (evict-IsWithin m t q (rw (spliced, room, propose) at h) k e f)
  ]
]

result_of-ok : (r : FileResult (Unit {0})) {x : Unit {0}} → result_of r ≡ ok x → r ≡ done tt
result_of-ok (failed e) h = ground arith
result_of-ok (done x) h = refl

module _ {W : Type 0} (files : Files W) (codec : Encoding) (contents : W → Bytes → Option Bytes)
    (disk : IsDisk files contents) (free : IsCollisionFree codec)
    (Stored : EntryKey → Bytes → Type 0) where
  abbrev Held : ℕ → PersistentState → Entries → Store W → Type 0
  Held = Holding files codec contents disk free Stored

  -- A payload is prepared as the entry that will stand for it, but for its file.
  abbrev pub IsPrepared : ℕ → PreparedEntry → Type 0
  IsPrepared m p =
      (file_name_of codec p.key p.bytes ≡ some p.file_name)
      × (p.sha256 ≡ codec.sha256 p.bytes)
      × (p.stored_length ≡ length p.bytes)
      × (length p.bytes ≤ m)
      × Stored p.key p.bytes

  abbrev IsOnDisk : ℕ → W → PreparedEntry → Type 0
  IsOnDisk m w p = Backed codec contents Stored m w p.key (entry_at 0 p)

  -- The payloads that are written later spoil no entry.
  write_payloads-Backed :
      (m : ℕ) (ps : List PreparedEntry) (written names : List Bytes) (s : Store W) (k : EntryKey)
      (e : DiskEntry)
      → All (IsPrepared m) ps
      → (write_payloads files ps written s).1 ≡ ok names
      → Backed codec contents Stored m s.world k e
      → Backed codec contents Stored m (write_payloads files ps written s).0.world k e
  unfolding write_payloads
  write_payloads-Backed m [] written names s k e hp h b = b
  write_payloads-Backed m (p ∷ ps) written names s k e hp h b =
      let r = write_file files p.file_name p.bytes s in
      elim (Result-cases r.1) [
        | inl (x, wrong) ↦ absurd (ground arith)
        | inr (_, wrote) ↦
            rw (wrote, write_payloads)
              (write_payloads-Backed m ps (written ++ p.file_name ∷ []) names r.0 k e hp.1
                (rw (wrote, write_payloads) at h)
                (write-Backed files codec contents disk free Stored m s.world k e p.key p.bytes
                  p.file_name hp.0.0 b))
      ]

  write_payloads-IsOnDisk :
      (m : ℕ) (ps : List PreparedEntry) (written names : List Bytes) (s : Store W)
      → All (IsPrepared m) ps
      → (write_payloads files ps written s).1 ≡ ok names
      → All (IsOnDisk m (write_payloads files ps written s).0.world) ps
  unfolding write_payloads
  write_payloads-IsOnDisk m [] written names s hp h = tt
  write_payloads-IsOnDisk m (p ∷ ps) written names s hp h =
      let r = write_file files p.file_name p.bytes s in
      elim (Result-cases r.1) [
        | inl (x, wrong) ↦ absurd (ground arith)
        | inr (_, wrote) ↦
            let later =
              write_payloads-Backed m ps (written ++ p.file_name ∷ []) names r.0 p.key
                (entry_at 0 p) hp.1 in
            let rest = rw (wrote, write_payloads) at h in
            let now = disk.write_done p.file_name p.bytes s.world (result_of-ok _ wrote) in
            let next = write_payloads files ps (written ++ p.file_name ∷ []) r.0 in
            let step : write_payloads files (p ∷ ps) written s ≡ next =
              rw (wrote, write_payloads) refl in
            subst (λ (c : Store W × CacheResult (List Bytes)). All (IsOnDisk m c.0.world) (p ∷ ps))
              (sym step)
              (
                later rest (p.bytes, now, hp.0.0, hp.0.1, hp.0.2, hp.0.3, hp.0.4),
                write_payloads-IsOnDisk m ps (written ++ p.file_name ∷ []) names r.0 hp.1 rest,
              )
      ]

  write_payloads-Holding :
      (m : ℕ) (p : PersistentState) (ps : List PreparedEntry) (written : List Bytes) (s : Store W)
      → All (IsPrepared m) ps
      → Held m p p.entries s
      → Held m p p.entries (write_payloads files ps written s).0
  unfolding write_payloads
  write_payloads-Holding m p [] written s hp h = h
  write_payloads-Holding m p (q ∷ ps) written s hp (a, b, c) =
      let r = write_file files q.file_name q.bytes s in
      let h : Held m p p.entries r.0 = (
        a,
        b,
        λ k e f.
            write-Backed files codec contents disk free Stored m s.world k e q.key q.bytes
              q.file_name hp.0.0 (c k e f),
      ) in
      elim (Result-cases r.1) [
        | inl (x, wrong) ↦
            rw (wrong, write_payloads)
              (remove_unreferenced-Holding files codec contents disk free Stored m p written r.0 h)
        | inr (_, wrote) ↦
            rw (wrote, write_payloads)
              (write_payloads-Holding m p ps (written ++ q.file_name ∷ []) r.0 hp.1 h)
      ]

  placed-Backed :
      (m : ℕ) (w : W) (ps : List PreparedEntry) (k : EntryKey) (e : DiskEntry)
      → All (IsOnDisk m w) ps
      → IsPlaced ps k e
      → Backed codec contents Stored m w k e
  placed-Backed m w [] k e on placed = absurd placed
  placed-Backed m w (p ∷ ps) k e on (inl (a, b, c, d)) =
      let (bytes, f, n, g, l, r, t) = on.0 in
      (
        bytes,
        ap (contents w) b ∙ f,
        ap (λ x. file_name_of codec x bytes) a ∙ n ∙ ap some (sym b),
        c ∙ g,
        d ∙ l,
        r,
        subst (λ x. Stored x bytes) (sym a) t,
      )
  placed-Backed m w (p ∷ ps) k e on (inr placed) = placed-Backed m w ps k e on.1 placed

  -- On success the table is fresh; on an error it is still backed.
  abbrev pub Outcome :
      ℕ → PersistentState → List PreparedEntry → Store W × CacheResult (Unit {0}) → Type 0
  Outcome m p ps (t, err x) = (q : PersistentState) × Held m q q.entries t
  Outcome m p ps (t, ok _) = (q : PersistentState) × IsFresh ps p q × Held m q q.entries t

  cleaned-Outcome :
      (m : ℕ) (p q : PersistentState) (ps : List PreparedEntry) (written : List Bytes)
      (r : Store W × CacheResult (Unit {0}))
      → IsFresh ps p q
      → Committed files codec contents disk free Stored m p q r
      → let cleanup = remove_unreferenced_files files written r.0 in
        Outcome m p ps (cleanup.0, both r.1 cleanup.1)
  cleaned-Outcome m p q ps written (t, err x) fresh (inl h) =
      (p, remove_unreferenced-Holding files codec contents disk free Stored m p written t h)
  cleaned-Outcome m p q ps written (t, err x) fresh (inr h) =
      (q, remove_unreferenced-Holding files codec contents disk free Stored m q written t h)
  cleaned-Outcome m p q ps written (t, ok _) fresh h =
      of_cleanup (remove_unreferenced_files files written t)
        (remove_unreferenced-Holding files codec contents disk free Stored m q written t h)
    where
      of_cleanup :
          (c : Store W × CacheResult (Unit {0})) → Held m q q.entries c.0 → Outcome m p ps c
      of_cleanup (u, err x) k = (q, k)
      of_cleanup (u, ok _) k = (q, fresh, k)

  finish_insert-Outcome :
      (m : ℕ) (p : PersistentState) (ps : List PreparedEntry) (written : List Bytes) (s : Store W)
      → Held m p p.entries s
      → All (IsOnDisk m s.world) ps
      → Outcome m p ps (finish_insert files codec ps written s)
  unfolding finish_insert splice_in
  finish_insert-Outcome m p ps written s (a, b, c) on =
      elim (Result-cases (propose s.maximum_payload_bytes ps s.state)) [
        | inl (x, wrong) ↦ rw wrong (
          p,
          remove_unreferenced-Holding files codec contents disk free Stored m p written s (a, b, c),
        )
        | inr (q, proposed) ↦
            let fresh : IsFresh ps p q =
              subst (λ x. IsFresh ps x q) b
                (propose-IsFresh s.maximum_payload_bytes ps s.state q proposed) in
            rw proposed (
              cleaned-Outcome m p q ps written (commit_state files codec q s) fresh (
                commit_state-Committed files codec contents disk free Stored m p q s (a, b, c)
                  (λ k e f. new_table q fresh k e f)))
      ]
    where
      new_table :
          (q : PersistentState)
          → IsFresh ps p q
          → (k : EntryKey) (e : DiskEntry) → entry_of k q.entries ≡ some e
          → Backed codec contents Stored m s.world k e
      new_table q fresh k e f = elim (fresh k e f) [
        | inl placed ↦ placed-Backed m s.world ps k e on placed
        | inr (unnamed, old) ↦ c k e old
      ]

  after_writes-Outcome :
      (m : ℕ) (p : PersistentState) (ps : List PreparedEntry)
      (r : Store W × CacheResult (List Bytes))
      → Held m p p.entries r.0
      → ((names : List Bytes) → r.1 ≡ ok names → All (IsOnDisk m r.0.world) ps)
      → Outcome m p ps (and_then r (finish_insert files codec ps))
  after_writes-Outcome m p ps (t, err x) h on = (p, h)
  after_writes-Outcome m p ps (t, ok names) h on =
      finish_insert-Outcome m p ps names t h (on names refl)

  pub store_prepared-Outcome :
      (m : ℕ) (p : PersistentState) (ps : List PreparedEntry) (s : Store W)
      → Held m p p.entries s
      → All (IsPrepared m) ps
      → Outcome m p ps (store_prepared files codec ps s)
  unfolding store_prepared
  store_prepared-Outcome m p [] s h hp = (p, λ k e f. inr (refl, f), h)
  store_prepared-Outcome m p (q ∷ qs) s h hp =
      after_writes-Outcome m p (q ∷ qs) (write_payloads files (q ∷ qs) [] s)
        (write_payloads-Holding m p (q ∷ qs) [] s hp h)
        (λ names e. write_payloads-IsOnDisk m (q ∷ qs) [] names s hp e)

-- ===== src/Persistent/Answers.antt =====
-- What a read of the persistent cache of crates/cache/src/lib.rs may answer.
use quic_kfs.Prelude.{
  ℕ, zero, suc, ◌≤◌, ◌≡◌, refl, sym, ap, subst, ◌∙◌, inl, inr, false, not, ◌||◌, Option, none, some,
  List, [], ◌∷◌, arith, Option-cases, length, take, ltb, ◌==◌, saturating_add, u64_max,
}
use quic_kfs.Persistent.Store.{
  CacheResult, err, ok, Bytes, EntryKey, DiskEntry, Encoding, Files, FileError, io_error,
  not_private, FileResult, failed, done, Opened, missing, unreadable, opened, Store, bytes_eq,
  cache_error,
}
use quic_kfs.Persistent.Table.{entry_of}
use quic_kfs.Persistent.Reads.{
  read_disk_entry, verify, or_remove, is_corrupt, touch, read_entry, read_key,
  valid_cache_file_name,
}
use quic_kfs.Persistent.Backing.{
  IsDisk, IsCollisionFree, Backed, Backed-same, Holds, Gives, bytes_eq_refl,
}
use quic_kfs.Persistent.Holding.{if_lem_on}
use quic_kfs.Persistent.Lookups.{touch-entry_of, IsTouched}
use quic_kfs.Persistent.Stored.{Payloads, IsTrue}

take_whole : (n : ℕ) (xs : Bytes) → length xs ≤ n → take n xs ≡ xs
take_whole zero [] h = refl
take_whole zero (x ∷ xs) h = absurd (omega arith)
take_whole (suc n) [] h = refl
take_whole (suc n) (x ∷ xs) h = ap (◌∷◌ x) (take_whole n xs (omega arith))

-- The bytes of the file, or an error that does not blame them.
abbrev pub Verified : Bytes → CacheResult Bytes → Type 0
Verified bytes (ok b) = b ≡ bytes
Verified bytes (err x) = is_corrupt x ≡ false

file_error-not_corrupt : (x : FileError) → is_corrupt (cache_error x) ≡ false
file_error-not_corrupt io_error = refl
file_error-not_corrupt not_private = refl

given-Verified :
    (codec : Encoding) (m : ℕ) (e : DiskEntry) (bytes : Bytes) (size : ℕ)
    (contents : ℕ → FileResult Bytes)
    → e.sha256 ≡ codec.sha256 bytes
    → e.stored_length ≡ length bytes
    → length bytes ≤ m
    → size ≡ length bytes
    → (r : FileResult Bytes) → contents (saturating_add e.stored_length 1) ≡ r
    → Gives bytes r
    → Verified bytes (verify codec m e (opened size contents))
unfolding verify
given-Verified codec m e bytes size contents d l b s (failed x) c g =
    let right : (not (size == e.stored_length) || ltb m e.stored_length) ≡ false = ground arith in
    rw (right, c) (file_error-not_corrupt x)
given-Verified codec m e bytes size contents d l b s (done out) c g =
    let right : (not (size == e.stored_length) || ltb m e.stored_length) ≡ false = ground arith in
    let whole : (not (length out == e.stored_length) || not (bytes_eq (codec.sha256 out) e.sha256))
        ≡ false =
      rw (g, l, d) (ground (arith, bytes_eq_refl (codec.sha256 bytes))) in
    rw (right, c, whole) g

verify-Verified :
    (codec : Encoding) (m : ℕ) (e : DiskEntry) (bytes : Bytes) (o : Opened)
    → m ≤ u64_max
    → e.sha256 ≡ codec.sha256 bytes
    → e.stored_length ≡ length bytes
    → length bytes ≤ m
    → Holds bytes o
    → Verified bytes (verify codec m e o)
unfolding verify
verify-Verified codec m e bytes missing w d l b h = absurd h
verify-Verified codec m e bytes (unreadable x) w d l b h = file_error-not_corrupt x
verify-Verified codec m e bytes (opened size contents) w d l b (s, g) =
    given-Verified codec m e bytes size contents d l b s
      (contents (saturating_add e.stored_length 1)) refl
      (subst (λ x. Gives x (contents (saturating_add e.stored_length 1)))
        (take_whole (saturating_add e.stored_length 1) bytes (ground arith))
        (g (saturating_add e.stored_length 1)))

-- A payload that may be returned, no entry, or an error that does not blame the file.
abbrev pub IsAnswer : Payloads → EntryKey → CacheResult (Option Bytes) → Type 0
IsAnswer Stored key (ok none) = Unit
IsAnswer Stored key (ok (some bytes)) = Stored key bytes
IsAnswer Stored key (err x) = is_corrupt x ≡ false

module _ {W : Type 0} (files : Files W) (codec : Encoding) where
  pub read_disk_entry-state :
      (e : DiskEntry) (s : Store W) → (read_disk_entry files codec e s).0.state ≡ s.state
  unfolding read_disk_entry
  read_disk_entry-state e s =
      if_lem_on (λ (x : Store W × CacheResult Bytes). x.0.state ≡ s.state)
        (not (valid_cache_file_name e.file_name)) refl refl

module _ {W : Type 0} (files : Files W) (codec : Encoding) (contents : W → Bytes → Option Bytes)
    (disk : IsDisk files contents) (free : IsCollisionFree codec) where
  abbrev IsTrueOf : ℕ → Payloads → Store W → Type 0
  IsTrueOf = IsTrue files codec contents disk free

  pub read_disk_entry-Verified :
      (Stored : Payloads) (m : ℕ) (k : EntryKey) (e : DiskEntry) (s : Store W)
      → m ≤ u64_max
      → s.maximum_payload_bytes ≡ m
      → (held : Backed codec contents Stored m s.world k e)
      → Verified held.0 (read_disk_entry files codec e s).1
  unfolding read_disk_entry
  read_disk_entry-Verified Stored m k e s w a (bytes, c, n, d, l, r, st) =
      if_lem_on (λ (x : Store W × CacheResult Bytes). Verified bytes x.1)
        (not (valid_cache_file_name e.file_name)) refl
        (subst
          (λ x. Verified bytes (verify codec x e (files.open_private_file e.file_name s.world).1))
          (sym a)
          (verify-Verified codec m e bytes (files.open_private_file e.file_name s.world).1 w d l r
            (disk.open_holds e.file_name s.world bytes c)))

  pub read_disk_entry-IsTrue :
      (Stored : Payloads) (m : ℕ) (e : DiskEntry) (s : Store W)
      → IsTrueOf m Stored s
      → IsTrueOf m Stored (read_disk_entry files codec e s).0
  unfolding read_disk_entry
  read_disk_entry-IsTrue Stored m e s (a, h) =
      if_lem_on (λ (x : Store W × CacheResult Bytes). IsTrueOf m Stored x.0)
        (not (valid_cache_file_name e.file_name)) (a, h)
        (
          a,
          λ k e' f.
              Backed-same files codec contents disk free Stored m s.world _ k e'
                (disk.open_same e.file_name s.world e'.file_name) (h k e' f),
        )

  pub touch-IsTrue :
      (Stored : Payloads) (m : ℕ) (keys : List EntryKey) (s : Store W)
      → IsTrueOf m Stored s
      → IsTrueOf m Stored (touch keys s)
  touch-IsTrue Stored m keys s (a, h) = (
    a,
    λ k e f. let (e0, f0, t) = touch-entry_of keys s.state k e f in touched k e0 e t (h k e0 f0),
  )
    where
      touched :
          (k : EntryKey) (e0 e : DiskEntry)
          → IsTouched e0 e
          → Backed codec contents Stored m s.world k e0
          → Backed codec contents Stored m s.world k e
      touched k e0 e (p, q, r) (b, c, n, d, l, le, st) =
          (b, ap (contents s.world) p ∙ c, n ∙ ap some (sym p), q ∙ d, r ∙ l, le, st)

  -- A read of an entry, by what its file gave.
  read_entry-IsAnswer :
      (Stored : Payloads) (m : ℕ) (key : EntryKey) (e : DiskEntry) (s : Store W)
      → m ≤ u64_max
      → entry_of key s.state.entries ≡ some e
      → IsTrueOf m Stored s
      → let r = read_entry files codec key e s in IsAnswer Stored key r.1 × IsTrueOf m Stored r.0
  unfolding read_entry or_remove
  read_entry-IsAnswer Stored m key e s w f (a, h) =
      let held = h key e f in
      let v = read_disk_entry-Verified Stored m key e s w a held in
      let t = read_disk_entry-IsTrue Stored m e s (a, h) in
      answer (read_disk_entry files codec e s) held.0 held.6 v t
    where
      answer :
          (r : Store W × CacheResult Bytes) (bytes : Bytes)
          → Stored key bytes
          → Verified bytes r.1
          → IsTrueOf m Stored r.0
          → let q = elim r.1 as (λ _. Store W × CacheResult (Option Bytes)) [
            | ok b ↦ (touch (key ∷ []) r.0, ok (some b))
            | err x ↦ or_remove files codec key x r.0
          ] in
            IsAnswer Stored key q.1 × IsTrueOf m Stored q.0
      answer (t, ok b) bytes st v h' =
          (subst (Stored key) (sym v) st, touch-IsTrue Stored m (key ∷ []) t h')
      answer (t, err x) bytes st v h' = rw (v, or_remove) (v, h')

  -- In a cache whose entries are true and whose budget is a 64-bit number.
  pub read_key-IsAnswer :
      (Stored : Payloads) (m : ℕ) (key : EntryKey) (s : Store W)
      → m ≤ u64_max
      → IsTrueOf m Stored s
      → let r = read_key files codec key s in IsAnswer Stored key r.1 × IsTrueOf m Stored r.0
  unfolding read_key
  read_key-IsAnswer Stored m key s w h = elim (Option-cases (entry_of key s.state.entries)) [
    | inl absent ↦ rw (absent, read_key) (tt, h)
    | inr (e, present) ↦ rw (present, read_key) (read_entry-IsAnswer Stored m key e s w present h)
  ]

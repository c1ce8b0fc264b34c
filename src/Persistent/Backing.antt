-- ===== src/Persistent/Backing.antt =====
-- What the persistent cache relies on of its files and digests, and what an entry relies on: a file
-- with its bytes. Writes, removals and reads of files that keep it, in crates/cache/src/lib.rs.
use quic_kfs.Prelude.{
  ℕ, ◌≤◌, ◌≡◌, ◌≢◌, ◌⊎◌, inl, inr, refl, sym, ap, subst, ◌∙◌, Bool, true, false, ◌||◌, Option, some,
  [], ◌∷◌, ◌++◌, length, take, arith, ==→eq, ==_refl, ◌==◌, Bool-cases, &&-eq-true, Option-cases,
}
use quic_kfs.Persistent.Store.{
  Bytes, bytes_eq, EntryKey, key_eq, metadata_key, directory_key, range_key, stats_key, DiskEntry,
  Entries, Encoding, Files, FileResult, failed, done, Opened, missing, unreadable, opened,
}
use quic_kfs.Cache.Keys.{revision_eq→eq}
use quic_kfs.Persistent.Table.{entry_of}
use quic_kfs.Persistent.Commits.{references, manifest_file}
use quic_kfs.Persistent.Inserts.{file_name_of, extension}

pub bytes_eq→eq : (a b : Bytes) → bytes_eq a b ≡ true → a ≡ b
unfolding bytes_eq
bytes_eq→eq [] [] h = refl
bytes_eq→eq [] (b ∷ bs) h = ground arith
bytes_eq→eq (a ∷ as') [] h = ground arith
bytes_eq→eq (a ∷ as') (b ∷ bs) h =
    let (p, q) = &&-eq-true (a == b) (bytes_eq as' bs) h in
    rw (==→eq a b p) (ap (◌∷◌ b) (bytes_eq→eq as' bs q))

pub bytes_eq_refl : (a : Bytes) → bytes_eq a a ≡ true
unfolding bytes_eq
bytes_eq_refl [] = refl
bytes_eq_refl (a ∷ as') = ground (arith, bytes_eq_refl as')

pub key_eq→eq : (a b : EntryKey) → key_eq a b ≡ true → a ≡ b
unfolding key_eq
key_eq→eq (metadata_key a) (metadata_key b) h = ap metadata_key (==→eq a b h)
key_eq→eq (directory_key a) (directory_key b) h = ap directory_key (revision_eq→eq a b h)
key_eq→eq (range_key a) (range_key b) h = ground arith
key_eq→eq stats_key stats_key h = refl
key_eq→eq _ _ h = ground arith

pub key_eq_refl : (a : EntryKey) → key_eq a a ≡ true
unfolding key_eq
key_eq_refl (metadata_key a) = ==_refl a
key_eq_refl (directory_key a) = ground arith
key_eq_refl (range_key a) = ground arith
key_eq_refl stats_key = refl

-- Whether a name ends like a payload's.
is_payload : Bytes → Bool
is_payload [] = bytes_eq [] extension
is_payload (b ∷ bs) = bytes_eq (b ∷ bs) extension || is_payload bs

is_payload-extension : (xs : Bytes) → is_payload (xs ++ extension) ≡ true
unfolding is_payload bytes_eq
is_payload-extension [] = refl
is_payload-extension (x ∷ xs) = ground (arith, is_payload-extension xs)

manifest_file-not_payload : is_payload manifest_file ≢ true
unfolding is_payload bytes_eq
manifest_file-not_payload h = cc

abbrev pub Gives : Bytes → FileResult Bytes → Type 0
Gives bytes (failed x) = Unit
Gives bytes (done read) = read ≡ bytes

-- What the opening of a file with these bytes may give.
abbrev pub Holds : Bytes → Opened → Type 0
Holds bytes missing = ⊥
Holds bytes (unreadable x) = Unit
Holds bytes (opened size read) =
    (size ≡ length bytes) × ((limit : ℕ) → Gives (take limit bytes) (read limit))

-- Files change only by the calls that write or remove them, which may fail at any point, before or
-- after the change; what is read is what was written.
pub record IsDisk {W : Type 0} (files : Files W) (contents : W → Bytes → Option Bytes)
    : Type 0 where
  pub write_done :
      (n b : Bytes) (w : W)
      → (files.write_private_atomic n b w).1 ≡ done tt
      → contents (files.write_private_atomic n b w).0 n ≡ some b
  pub write_either :
      (n b : Bytes) (w : W)
      → (contents (files.write_private_atomic n b w).0 n ≡ some b)
        ⊎ (contents (files.write_private_atomic n b w).0 n ≡ contents w n)
  pub write_other :
      (n b : Bytes) (w : W) (m : Bytes)
      → m ≢ n
      → contents (files.write_private_atomic n b w).0 m ≡ contents w m
  pub remove_other :
      (n : Bytes) (w : W) (m : Bytes)
      → m ≢ n
      → contents (files.remove_cache_file n w).0 m ≡ contents w m
  pub open_same :
      (n : Bytes) (w : W) (m : Bytes) → contents (files.open_private_file n w).0 m ≡ contents w m
  pub open_holds :
      (n : Bytes) (w : W) (b : Bytes)
      → contents w n ≡ some b
      → Holds b (files.open_private_file n w).1
  pub sync_same : (w : W) (m : Bytes) → contents (files.sync_directory w).0 m ≡ contents w m
  pub read_dir_same : (w : W) (m : Bytes) → contents (files.read_dir w).0 m ≡ contents w m

-- No two payloads have one name.
abbrev pub IsCollisionFree : Encoding → Type 0
IsCollisionFree codec =
    (k k' : EntryKey) (b b' n : Bytes)
    → file_name_of codec k b ≡ some n
    → file_name_of codec k' b' ≡ some n
    → (k ≡ k') × (b ≡ b')

pub payload-ne-manifest :
    (codec : Encoding) (k : EntryKey) (b n : Bytes)
    → file_name_of codec k b ≡ some n
    → n ≢ manifest_file
unfolding file_name_of
payload-ne-manifest codec k b n h e = elim (Option-cases (codec.key_to_vec k)) [
  | inl unencoded ↦ ground arith
  | inr (kb, some_bytes) ↦
      let name : codec.hex (codec.sha256 (kb ++ b)) ++ extension ≡ manifest_file = ground arith in
      let ends = is_payload-extension (codec.hex (codec.sha256 (kb ++ b))) in
      manifest_file-not_payload (subst (λ m. is_payload m ≡ true) name ends)
]

pub references-entry_of :
    (n : Bytes) (k : EntryKey) (e : DiskEntry) (entries : Entries)
    → entry_of k entries ≡ some e
    → bytes_eq e.file_name n ≡ true
    → references n entries ≡ true
unfolding references entry_of
references-entry_of n k e [] h p = ground arith
references-entry_of n k e ((k', e') ∷ rest) h p = ground (arith, references-entry_of n k e rest)

differs : (a b : Bytes) → bytes_eq a b ≡ false → a ≢ b
differs a b h p =
    let q : bytes_eq a b ≡ true = subst (λ x. bytes_eq a x ≡ true) p (bytes_eq_refl a) in cc

-- An entry has its file, with the bytes that an insertion is known to have stored under its key.
abbrev pub Backed :
    {W : Type 0}
    → Encoding
    → (W → Bytes → Option Bytes)
    → (EntryKey → Bytes → Type 0)
    → ℕ
    → W
    → EntryKey
    → DiskEntry
    → Type 0
Backed codec contents Stored maximum w k e =
    (bytes : Bytes) × (contents w e.file_name ≡ some bytes)
    × (file_name_of codec k bytes ≡ some e.file_name)
    × (e.sha256 ≡ codec.sha256 bytes)
    × (e.stored_length ≡ length bytes)
    × (length bytes ≤ maximum)
    × Stored k bytes

module _ {W : Type 0} (files : Files W) (codec : Encoding) (contents : W → Bytes → Option Bytes)
    (disk : IsDisk files contents) (free : IsCollisionFree codec) where
  -- Every entry of a table that a lookup finds is backed.
  abbrev pub AllBacked : (EntryKey → Bytes → Type 0) → ℕ → W → Entries → Type 0
  AllBacked Stored maximum w entries =
      (k : EntryKey) (e : DiskEntry)
      → entry_of k entries ≡ some e
      → Backed codec contents Stored maximum w k e

  pub Backed-weaken :
      (A B : EntryKey → Bytes → Type 0) (m : ℕ) (w : W) (k : EntryKey) (e : DiskEntry)
      → ((b : Bytes) → A k b → B k b)
      → Backed codec contents A m w k e
      → Backed codec contents B m w k e
  Backed-weaken A B m w k e f (b, c, n, d, l, r, a) = (b, c, n, d, l, r, f b a)

  pub Backed-same :
      (A : EntryKey → Bytes → Type 0) (m : ℕ) (w w' : W) (k : EntryKey) (e : DiskEntry)
      → contents w' e.file_name ≡ contents w e.file_name
      → Backed codec contents A m w k e
      → Backed codec contents A m w' k e
  Backed-same A m w w' k e same (b, c, n, d, l, r, a) = (b, same ∙ c, n, d, l, r, a)

  -- A payload that is written spoils no other, and a failed write does not spoil its own.
  pub write-Backed :
      (A : EntryKey → Bytes → Type 0) (m : ℕ) (w : W) (k : EntryKey) (e : DiskEntry) (k' : EntryKey)
      (b' n : Bytes)
      → file_name_of codec k' b' ≡ some n
      → Backed codec contents A m w k e
      → Backed codec contents A m (files.write_private_atomic n b' w).0 k e
  write-Backed A m w k e k' b' n named (b, c, nm, d, l, r, a) =
      elim (Bool-cases (bytes_eq e.file_name n)) [
        | inl same ↦
            let p = bytes_eq→eq e.file_name n same in
            let q = (free k k' b b' n (nm ∙ ap some p) named).1 in
            elim (disk.write_either n b' w) [
              | inl new ↦ (b, ap (contents _) p ∙ new ∙ ap some (sym q), nm, d, l, r, a)
              | inr old ↦ (b, ap (contents _) p ∙ old ∙ ap (contents w) (sym p) ∙ c, nm, d, l, r, a)
            ]
        | inr other ↦
            Backed-same A m w _ k e
              (disk.write_other n b' w e.file_name (λ p. differs e.file_name n other p))
              (b, c, nm, d, l, r, a)
      ]

  -- The manifest is no payload.
  pub manifest-Backed :
      (A : EntryKey → Bytes → Type 0) (m : ℕ) (w : W) (k : EntryKey) (e : DiskEntry) (b' : Bytes)
      → Backed codec contents A m w k e
      → Backed codec contents A m (files.write_private_atomic manifest_file b' w).0 k e
  manifest-Backed A m w k e b' (b, c, nm, d, l, r, a) =
      Backed-same A m w _ k e
        (disk.write_other manifest_file b' w e.file_name
          (payload-ne-manifest codec k b e.file_name nm))
        (b, c, nm, d, l, r, a)

  -- A file that no entry refers to may go.
  pub remove-AllBacked :
      (A : EntryKey → Bytes → Type 0) (m : ℕ) (w : W) (entries : Entries) (n : Bytes)
      → references n entries ≡ false
      → AllBacked A m w entries
      → AllBacked A m (files.remove_cache_file n w).0 entries
  remove-AllBacked A m w entries n unused h k e f =
      Backed-same A m w _ k e (disk.remove_other n w e.file_name (λ p. unused_name p)) (h k e f)
    where
      unused_name : e.file_name ≢ n
      unused_name p =
          let q : bytes_eq e.file_name n ≡ true =
            subst (λ x. bytes_eq e.file_name x ≡ true) p (bytes_eq_refl e.file_name) in
          cc (references-entry_of n k e entries f q)

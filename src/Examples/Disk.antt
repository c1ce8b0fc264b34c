-- ===== src/Examples/Disk.antt =====
-- The persistent cache at work on a disk in memory, of which writes may fail.
use quic_kfs.Prelude.{
  ℕ, zero, suc, ◌≡◌, ◌≢◌, refl, sym, ap, ◌∙◌, ◌⊎◌, inl, inr, Bool, true, false, Option, none, some,
  List, [], ◌∷◌, ◌++◌, length, length-append, take, drop, ◌+◌, arith, Bool-cases, if◌then◌else◌,
}
use quic_kfs.Persistent.Store.{
  Bytes, bytes_eq, EntryKey, metadata_key, directory_key, range_key, stats_key, DiskEntry, Manifest,
  Encoding, Files, FileResult, failed, done, io_error, Opened, missing, opened,
}
use quic_kfs.Persistent.Backing.{IsDisk, IsCollisionFree, bytes_eq→eq, bytes_eq_refl, Holds}
use quic_kfs.Persistent.Inserts.{file_name_of, extension}

-- A disk: whether the next writes fail, and the files.
abbrev pub Disk : Type 0
Disk = List Bool × List (Bytes × Bytes)

abbrev look : Bytes → List (Bytes × Bytes) → Option Bytes
look n [] = none
look n ((m, b) ∷ rest) = if bytes_eq m n then some b else look n rest

abbrev drop_file : Bytes → List (Bytes × Bytes) → List (Bytes × Bytes)
drop_file n [] = []
drop_file n ((m, b) ∷ rest) = if bytes_eq m n then drop_file n rest else (m, b) ∷ drop_file n rest

abbrev write : Bytes → Bytes → Disk → Disk × FileResult (Unit {0})
write n b (true ∷ faults, d) = ((faults, d), failed io_error)
write n b (false ∷ faults, d) = ((faults, (n, b) ∷ d), done tt)
write n b ([], d) = (([], (n, b) ∷ d), done tt)

abbrev open_found : Option Bytes → Opened
open_found none = missing
open_found (some b) = opened (length b) (λ limit. done (take limit b))

abbrev pub memory_files : Files Disk
memory_files = record {
  write_private_atomic = write;
  open_private_file = λ n w. (w, open_found (look n w.1));
  remove_cache_file = λ n w. ((w.0, drop_file n w.1), done tt);
  sync_directory = λ w. (w, done tt);
  read_dir = λ w. (w, done []);
}

abbrev pub contents : Disk → Bytes → Option Bytes
contents w n = look n w.1

other_name : (n m : Bytes) → m ≢ n → bytes_eq n m ≡ false
other_name n m h = elim (Bool-cases (bytes_eq n m)) [
  | inr other ↦ other
  | inl same ↦ absurd (h (sym (bytes_eq→eq n m same)))
]

look_drop : (n m : Bytes) (d : List (Bytes × Bytes)) → m ≢ n → look m (drop_file n d) ≡ look m d
look_drop n m [] h = refl
look_drop n m ((j, b) ∷ rest) h = elim (Bool-cases (bytes_eq j n)) [
  | inl same ↦ rw (same, other_name j m (λ e. h (e ∙ bytes_eq→eq j n same))) (look_drop n m rest h)
  | inr other ↦ rw other (ap (λ r. if bytes_eq j m then some b else r) (look_drop n m rest h))
]

write_done :
    (n b : Bytes) (w : Disk) → (write n b w).1 ≡ done tt → contents (write n b w).0 n ≡ some b
write_done n b (true ∷ faults, d) h = absurd (ground arith)
write_done n b (false ∷ faults, d) h = rw (bytes_eq_refl n) refl
write_done n b ([], d) h = rw (bytes_eq_refl n) refl

write_either :
    (n b : Bytes) (w : Disk)
    → (contents (write n b w).0 n ≡ some b) ⊎ (contents (write n b w).0 n ≡ contents w n)
write_either n b (true ∷ faults, d) = inr refl
write_either n b (false ∷ faults, d) = inl (rw (bytes_eq_refl n) refl)
write_either n b ([], d) = inl (rw (bytes_eq_refl n) refl)

write_other :
    (n b : Bytes) (w : Disk) (m : Bytes) → m ≢ n → contents (write n b w).0 m ≡ contents w m
write_other n b (true ∷ faults, d) m h = refl
write_other n b (false ∷ faults, d) m h = rw (other_name n m h) refl
write_other n b ([], d) m h = rw (other_name n m h) refl

open_found-Holds : (o : Option Bytes) (b : Bytes) → o ≡ some b → Holds b (open_found o)
open_found-Holds o b h = rw h (refl, λ limit. refl)

pub memory_files-IsDisk : IsDisk memory_files contents
memory_files-IsDisk = record {
  write_done = write_done;
  write_either = write_either;
  write_other = write_other;
  remove_other = λ n w m h. look_drop n m w.1 h;
  open_same = λ n w m. refl;
  open_holds = λ n w b h. open_found-Holds (look n w.1) b h;
  sync_same = λ w m. refl;
  read_dir_same = λ w m. refl;
}

-- Keys in five bytes, and digests that are what they digest, padded to the length of a name.
abbrev pub key_bytes : EntryKey → Bytes
key_bytes (metadata_key n) = 48 ∷ (48 + n) ∷ 48 ∷ 48 ∷ 48 ∷ []
key_bytes (directory_key k) = 49 ∷ (48 + k.node) ∷ (48 + k.revision) ∷ 48 ∷ 48 ∷ []
key_bytes (range_key k) =
    50 ∷ (48 + k.file.node) ∷ (48 + k.file.revision) ∷ (48 + k.offset) ∷ (48 + k.length) ∷ []
key_bytes stats_key = 51 ∷ 48 ∷ 48 ∷ 48 ∷ 48 ∷ []

-- A manifest of one entry of metadata in bytes.
abbrev write_entries : ℕ → ℕ → ℕ → List DiskEntry → Option Bytes
write_entries version namespace clock (e ∷ []) = elim e.key [
  | metadata_key n ↦ some (
      version
      ∷ namespace
      ∷ clock
      ∷ n
      ∷ e.stored_length
      ∷ e.last_access
      ∷ length e.file_name
      ∷ (e.file_name ++ e.sha256))
  | _ ↦ none
]
write_entries version namespace clock _ = none

abbrev read_manifest : Bytes → Option Manifest
read_manifest (version ∷ namespace ∷ clock ∷ n ∷ stored ∷ last ∷ name ∷ rest) = some (record {
  format_version = version;
  namespace = namespace;
  clock = clock;
  entries =
      record {
        key = metadata_key n;
        file_name = take name rest;
        stored_length = stored;
        sha256 = drop name rest;
        last_access = last;
      }
      ∷ [];
})
read_manifest _ = none

abbrev zeros : ℕ → Bytes
zeros zero = []
zeros (suc n) = 48 ∷ zeros n

abbrev pub plain : Encoding
plain = record {
  key_to_vec = λ k. some (key_bytes k);
  manifest_to_vec = λ m. write_entries m.format_version m.namespace m.clock m.entries;
  manifest_from_slice = read_manifest;
  metadata_to_vec = λ m. none;
  metadata_from_slice = λ b. none;
  directory_to_vec = λ d. none;
  directory_from_slice = λ b. none;
  stats_to_vec = λ x. none;
  stats_from_slice = λ b. none;
  sha256 = λ b. b;
  hex = λ b. zeros 55 ++ b;
}

some_inj : {x y : Bytes} → some x ≡ some y → x ≡ y
some_inj h = cc

cancel_left : (p x y : Bytes) → p ++ x ≡ p ++ y → x ≡ y
cancel_left [] x y h = h
cancel_left (a ∷ p) x y h = cancel_left p x y (ground arith)

cancel_right : (x y e : Bytes) → x ++ e ≡ y ++ e → x ≡ y
cancel_right [] [] e h = refl
cancel_right [] (b ∷ y) e h =
    let l : length e ≡ length ((b ∷ y) ++ e) = ap (λ z. length z) h in
    absurd (omega (arith, l, length-append y e))
cancel_right (a ∷ x) [] e h =
    let l : length ((a ∷ x) ++ e) ≡ length e = ap (λ z. length z) h in
    absurd (omega (arith, l, length-append x e))
cancel_right (a ∷ x) (b ∷ y) e h =
    let heads : a ≡ b = ground arith in
    let tails : x ++ e ≡ y ++ e = ground arith in rw heads (ap (◌∷◌ b) (cancel_right x y e tails))

key_bytes-split :
    (k k' : EntryKey) (b b' : Bytes) → key_bytes k ++ b ≡ key_bytes k' ++ b' → (k ≡ k') × (b ≡ b')
key_bytes-split (metadata_key n) (metadata_key n') b b' h = ground arith
key_bytes-split (directory_key n) (directory_key n') b b' h = ground arith
key_bytes-split (range_key n) (range_key n') b b' h = ground arith
key_bytes-split stats_key stats_key b b' h = ground arith
key_bytes-split _ _ b b' h = ground arith

pub plain-IsCollisionFree : IsCollisionFree plain
unfolding file_name_of
plain-IsCollisionFree k k' b b' n p q =
    let same : (zeros 55 ++ (key_bytes k ++ b)) ++ extension
        ≡ (zeros 55 ++ (key_bytes k' ++ b')) ++ extension =
      some_inj (p ∙ sym q) in
    key_bytes-split k k' b b' (
      cancel_left (zeros 55) (key_bytes k ++ b) (key_bytes k' ++ b')
        (cancel_right _ _ extension same))

take-append : (xs ys : Bytes) → take (length xs) (xs ++ ys) ≡ xs
take-append [] ys = refl
take-append (x ∷ xs) ys = ap (◌∷◌ x) (take-append xs ys)

drop-append : (xs ys : Bytes) → drop (length xs) (xs ++ ys) ≡ ys
drop-append [] ys = refl
drop-append (x ∷ xs) ys = drop-append xs ys

read-write_entries :
    (version namespace clock : ℕ) (entries : List DiskEntry) (b : Bytes)
    → write_entries version namespace clock entries ≡ some b
    → read_manifest b
      ≡ some (record {
        format_version = version;
        namespace = namespace;
        clock = clock;
        entries = entries;
      })
read-write_entries version namespace clock [] b h = absurd (ground arith)
read-write_entries version namespace clock (e ∷ []) b h =
    one_entry e.key e.file_name e.sha256 e.stored_length e.last_access h
  where
    one_entry :
        (k : EntryKey) (name digest : Bytes) (stored last : ℕ)
        → write_entries version namespace clock (
            record {
              key = k;
              file_name = name;
              stored_length = stored;
              sha256 = digest;
              last_access = last;
            }
            ∷ [])
          ≡ some b
        → read_manifest b
          ≡ some (record {
            format_version = version;
            namespace = namespace;
            clock = clock;
            entries =
                record {
                  key = k;
                  file_name = name;
                  stored_length = stored;
                  sha256 = digest;
                  last_access = last;
                }
                ∷ [];
          })
    one_entry (metadata_key n) name digest stored last h' =
        rw (sym (some_inj h')) (rw (take-append name digest, drop-append name digest) refl)
    one_entry (directory_key n) name digest stored last h' = absurd (ground arith)
    one_entry (range_key n) name digest stored last h' = absurd (ground arith)
    one_entry stats_key name digest stored last h' = absurd (ground arith)
read-write_entries version namespace clock (e ∷ x ∷ xs) b h = absurd (ground arith)

pub plain_round_trip :
    (m : Manifest) (b : Bytes)
    → plain.manifest_to_vec m ≡ some b
    → plain.manifest_from_slice b ≡ some m
plain_round_trip m b h = read-write_entries m.format_version m.namespace m.clock m.entries b h

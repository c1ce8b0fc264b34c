-- ===== src/Accounts/Users.antt =====
-- UserRecord, add_user, change_password, set_user_enabled, set_user_writable, remove_user and
-- verify_user_authorization of crates/auth/src/lib.rs, with what they read and write. The bytes of
-- the file stand for the directory that holds it.
use quic_kfs.Prelude.{
  ℕ, ◌*◌, Bool, true, false, not, ◌&&◌, ◌||◌, Option, none, some, List, [], ◌∷◌, ◌++◌, leb, ltb,
  ◌==◌, if◌then◌else◌, length, any, find, retain,
}
use quic_kfs.Protocol.Messages.{Bytes}
use quic_kfs.Server.Login.{valid_username, max_password_length}
use quic_kfs.Accounts.Results.{
  io, invalid, user_exists, user_not_found, crypto, AuthResult, err, ok, ◌>>=◌, ensure, present,
}

pub record UserRecord : Type 0 where
  pub username : Bytes
  pub password_hash : Bytes
  pub enabled : Bool
  pub writable : Bool

abbrev pub UserDatabase : Type 0
UserDatabase = List UserRecord

pub record UserAuthorization : Type 0 where
  pub writable : Bool

abbrev pub max_users : ℕ
max_users = 65536

abbrev pub max_user_database_size : ℕ
max_user_database_size = 16 * 1024 * 1024

abbrev pub max_password_hash_length : ℕ
max_password_hash_length = 256

abbrev pub min_password_length : ℕ
min_password_length = 12

-- serde_json and Argon2: the contents of a file with a database and their size, the hash of a password with a random salt, whether
-- a hash is of the kind that is supported, and whether a password is the one of a hash.
pub record Platform (File : Type 0) : Type 0 where
  pub to_json : UserDatabase → File
  pub from_json : File → Option UserDatabase
  pub size : File → ℕ
  pub hash : Bytes → Bytes → Option Bytes
  pub supported : Bytes → Bool
  pub verify : Bytes → Bytes → Bool

-- A state directory: whether validate_server_state accepts it, whether the users' file is private,
-- whether another administration holds its lock, and the file.
pub record StateDirectory (File : Type 0) : Type 0 where
  pub secure : Bool
  pub private : Bool
  pub locked : Bool
  pub users : Option File

-- What a call draws from outside: the random salt, if there is one, and whether a write succeeds.
pub record Chance : Type 0 where
  pub salt : Option Bytes
  pub written : Bool

-- The equality of names.
abbrev pub same_name : Bytes → Bytes → Bool
same_name [] [] = true
same_name (a ∷ as') (b ∷ bs) = a == b && same_name as' bs
same_name _ _ = false

unfoldable pub validate_new_password : Bytes → Bool
validate_new_password password =
    leb min_password_length (length password) && leb (length password) max_password_length

-- `iter_mut().find(..)`, and the change of what it finds.
unfoldable pub change_first :
    Bytes → (UserRecord → UserRecord) → UserDatabase → AuthResult UserDatabase
change_first username f [] = err user_not_found
change_first username f (user ∷ users) =
    let rest = change_first username f users in
    if same_name user.username username
    then ok (f user ∷ users)
    else (do users' ← rest; ok (user ∷ users'))

module _ {File : Type 0} (platform : Platform File) where
  unfoldable pub hash_password : Chance → Bytes → AuthResult Bytes
  hash_password chance password = do
    salt ← present chance.salt crypto
    present (platform.hash password salt) crypto

  -- Whether parse_password_hash accepts a hash.
  unfoldable pub parse_password_hash : Bytes → Bool
  parse_password_hash value =
      leb (length value) max_password_hash_length && platform.supported value

  -- The loop of read_user_database: every record is valid and no name comes twice.
  unfoldable pub valid_records : List Bytes → UserDatabase → Bool
  valid_records seen [] = true
  valid_records seen (user ∷ users) =
      valid_username user.username
      && parse_password_hash user.password_hash
      && not (any (same_name user.username) seen)
      && valid_records (user.username ∷ seen) users

  -- read_json of the users' file
  unfoldable pub read_json : Option File → AuthResult UserDatabase
  read_json none = err io
  read_json (some bytes) =
      ensure (leb (platform.size bytes) max_user_database_size) invalid
        (present (platform.from_json bytes) invalid)

  unfoldable pub read_user_database : StateDirectory File → AuthResult UserDatabase
  read_user_database root = do
    database ← read_json root.users
    ensure (leb (length database) max_users && valid_records [] database) invalid (ok database)

  -- write_json and write_private: the old file stays when the write fails.
  unfoldable pub write_json :
      Chance → UserDatabase → StateDirectory File → AuthResult (StateDirectory File)
  write_json chance database root =
      let bytes = platform.to_json database in
      ensure (leb (platform.size bytes) max_user_database_size) invalid
        (ensure chance.written io (ok (record root { users = some bytes })))

  -- lock_user_database, which the end of the call undoes.
  unfoldable pub lock_user_database : StateDirectory File → AuthResult UserDatabase
  lock_user_database root = ensure (not root.locked) invalid (read_user_database root)

  unfoldable pub add_user :
      Chance → Bytes → Bytes → StateDirectory File → AuthResult (StateDirectory File)
  add_user chance username password root = ensure root.secure invalid (
      ensure (valid_username username) invalid (
        ensure (validate_new_password password) invalid (do
          database ← lock_user_database root
          ensure (not (any (λ user. same_name user.username username) database)) user_exists (
              ensure (ltb (length database) max_users) invalid (do
                hash ← hash_password chance password
                write_json chance
                    (database
                      ++ (record {
                        username = username;
                        password_hash = hash;
                        enabled = true;
                        writable = false;
                      }
                          ∷ []))
                    root)))))

  unfoldable pub change_password :
      Chance → Bytes → Bytes → StateDirectory File → AuthResult (StateDirectory File)
  change_password chance username password root = ensure root.secure invalid (
      ensure (valid_username username) invalid (
        ensure (validate_new_password password) invalid (do
          database ← lock_user_database root
          ensure (any (λ user. same_name user.username username) database) user_not_found (do
            hash ← hash_password chance password
            changed ← change_first username (λ user. record user { password_hash = hash }) database
            write_json chance changed root))))

  unfoldable pub set_user :
      (UserRecord → UserRecord)
      → Chance
      → Bytes
      → StateDirectory File
      → AuthResult (StateDirectory File)
  set_user f chance username root = ensure root.secure invalid (
      ensure (valid_username username) invalid (do
        database ← lock_user_database root
        changed ← change_first username f database
        write_json chance changed root))

  unfoldable pub set_user_enabled :
      Chance → Bytes → Bool → StateDirectory File → AuthResult (StateDirectory File)
  set_user_enabled chance username enabled =
      set_user (λ user. record user { enabled = enabled }) chance username

  unfoldable pub set_user_writable :
      Chance → Bytes → Bool → StateDirectory File → AuthResult (StateDirectory File)
  set_user_writable chance username writable =
      set_user (λ user. record user { writable = writable }) chance username

  unfoldable pub remove_user :
      Chance → Bytes → StateDirectory File → AuthResult (StateDirectory File)
  remove_user chance username root = ensure root.secure invalid (
      ensure (valid_username username) invalid (do
        database ← lock_user_database root
        let others = retain (λ user. not (same_name user.username username)) database
        ensure (not (length others == length database)) user_not_found
            (write_json chance others root)))

  -- The password of the user that was found, if one was.
  unfoldable pub check_user : Bytes → Option UserRecord → AuthResult (Option UserAuthorization)
  check_user password none = ok none
  check_user password (some user) = ensure (parse_password_hash user.password_hash) invalid (
      ok (
        if platform.verify password user.password_hash
        then some (record { writable = user.writable })
        else none))

  unfoldable pub verify_user_authorization :
      Bytes → Bytes → StateDirectory File → AuthResult (Option UserAuthorization)
  verify_user_authorization username password root =
      if not (valid_username username) || ltb max_password_length (length password)
      then ok none
      else ensure root.private invalid (do
        database ← read_user_database root
        check_user password
            (find (λ user. same_name user.username username && user.enabled) database))

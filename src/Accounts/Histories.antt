-- ===== src/Accounts/Histories.antt =====
-- Any administration of users in crates/auth/src/lib.rs, and the logins that it allows.
use quic_kfs.Prelude.{
  ℕ, ◌≡◌, refl, sym, ◌∙◌, subst, Bool, true, false, ◌&&◌, ◌||◌, Option, none, some, List, [], ◌∷◌,
  if◌then◌else◌, length, any, find, ltb, ◌≤◌, Bool-cases, inl, inr, arith,
}
use quic_kfs.Protocol.Messages.{Bytes}
use quic_kfs.Server.Login.{valid_username, max_password_length}
use quic_kfs.Accounts.Results.{AuthResult, err, ok}
use quic_kfs.Accounts.Users.{
  UserRecord, UserDatabase, UserAuthorization, Platform, StateDirectory, Chance, same_name,
  valid_records, parse_password_hash, read_user_database, verify_user_authorization, check_user,
}
use quic_kfs.Accounts.Records.{valid_parts, same_name_comm, same_name→eq}
use quic_kfs.Accounts.Views.{view}
use quic_kfs.Accounts.Refinement.{
  Command, IsSound, execute, accounts, apply, execute-apply, apply-at, read_bounds,
}

absurd_bool : {A : Type 0} → true ≡ false → A
absurd_bool h = ground arith

||-right : (a : Bool) {b : Bool} → b ≡ true → (a || b) ≡ true
||-right a h = ground arith

||-left : {a : Bool} (b : Bool) → a ≡ true → (a || b) ≡ true
||-left b h = ground arith

ltb-false : {a b : ℕ} → a ≤ b → ltb b a ≡ false
ltb-false h = ground arith

some_injective : {x y : UserRecord} → some x ≡ some y → x ≡ y
some_injective h = cc

module _ {File : Type 0} (platform : Platform File) where
  abbrev pub settle : StateDirectory File → AuthResult (StateDirectory File) → StateDirectory File
  settle root (err e) = root
  settle root (ok root') = root'

  -- Commands one after another; one that is refused leaves the directory as it is.
  unfoldable pub execute_all : List (Chance × Command) → StateDirectory File → StateDirectory File
  execute_all [] root = root
  execute_all ((chance, c) ∷ rest) root =
      execute_all rest (settle root (execute platform chance c root))

  abbrev pub is_ok : {A : Type 0} → AuthResult A → Bool
  is_ok (err e) = false
  is_ok (ok a) = true

  -- The commands that succeeded, done to a map.
  unfoldable pub replay :
      List (Chance × Command)
      → StateDirectory File
      → (Bytes → Option UserRecord)
      → Bytes
      → Option UserRecord
  replay [] root map = map
  replay ((chance, c) ∷ rest) root map =
      replay rest (settle root (execute platform chance c root))
        (if is_ok (execute platform chance c root) then apply platform chance c map else map)

module _ {File : Type 0} (platform : Platform File) (sound : IsSound platform) where
  step_lem :
      (chance : Chance) (c : Command) (root : StateDirectory File) (map : Bytes → Option UserRecord)
      → ((key : Bytes) → accounts platform root key ≡ map key)
      → (key : Bytes)
      → accounts platform (settle platform root (execute platform chance c root)) key
        ≡ (if is_ok platform (execute platform chance c root)
              then apply platform chance c map
              else map)
            key
  step_lem chance c root map h key = go (execute platform chance c root) refl
    where
      go :
          (r : AuthResult (StateDirectory File))
          → execute platform chance c root ≡ r
          → accounts platform (settle platform root r) key
            ≡ (if is_ok platform r then apply platform chance c map else map) key
      go (err e) q = h key
      go (ok root') q =
          execute-apply platform sound chance c root root' key q
          ∙ apply-at platform sound chance c (accounts platform root) map key (h key)

  replay_lem :
      (commands : List (Chance × Command)) (root : StateDirectory File)
      (map : Bytes → Option UserRecord)
      → ((key : Bytes) → accounts platform root key ≡ map key)
      → (key : Bytes)
      → accounts platform (execute_all platform commands root) key
        ≡ replay platform commands root map key
  unfolding execute_all replay
  replay_lem [] root map h key = h key
  replay_lem ((chance, c) ∷ rest) root map h key =
      replay_lem rest (settle platform root (execute platform chance c root)) _
        (step_lem chance c root map h) key

  -- If a database is read back from its file and a hash that is made is supported, then any
  -- commands leave the file with the map of names that the ones that succeeded make of the map that
  -- it stood for.
  pub execute_all-replay :
      (commands : List (Chance × Command)) (root : StateDirectory File) (key : Bytes)
      → accounts platform (execute_all platform commands root) key
        ≡ replay platform commands root (accounts platform root) key
  execute_all-replay commands root key =
      replay_lem commands root (accounts platform root) (λ _. refl) key

module _ {File : Type 0} (platform : Platform File) where
  -- No record of a name that came before.
  absent :
      (name : Bytes) (seen : List Bytes) (users : UserDatabase)
      → any (same_name name) seen ≡ true
      → valid_records platform seen users ≡ true
      → find (λ user. same_name user.username name && user.enabled) users ≡ none
  absent name seen [] h v = refl
  absent name seen (u ∷ us) h v =
      let p = valid_parts platform seen u us v in
      elim (Bool-cases (same_name u.username name)) [
        | inl mine ↦ absurd_bool (
            sym h
            ∙ subst (λ x. any (same_name x) seen ≡ false) (same_name→eq u.username name mine) p.1)
        | inr other ↦
            rw other
              (absent name (u.username ∷ seen) us (||-right (same_name name u.username) h) p.2)
      ]

  abbrev pub enabled_only : Option UserRecord → Option UserRecord
  enabled_only none = none
  enabled_only (some user) = if user.enabled then some user else none

  find_enabled :
      (name : Bytes) (seen : List Bytes) (users : UserDatabase)
      → valid_records platform seen users ≡ true
      → find (λ user. same_name user.username name && user.enabled) users
        ≡ enabled_only (view users name)
  find_enabled name seen [] v = refl
  find_enabled name seen (u ∷ us) v =
      let p = valid_parts platform seen u us v in
      elim (Bool-cases (same_name u.username name)) [
        | inl mine ↦ elim (Bool-cases u.enabled) [
          | inl on ↦ rw (mine, on) refl
          | inr off ↦
              rw (mine, off)
                (absent name (u.username ∷ seen) us
                  (||-left (any (same_name name) seen) (same_name_comm name u.username ∙ mine)) p.2)
        ]
        | inr other ↦ rw other (find_enabled name (u.username ∷ seen) us p.2)
      ]

  -- Every record has a hash that is supported.
  view-supported :
      (name : Bytes) (seen : List Bytes) (users : UserDatabase) (user : UserRecord)
      → valid_records platform seen users ≡ true
      → view users name ≡ some user
      → parse_password_hash platform user.password_hash ≡ true
  view-supported name seen [] user v h = ground arith
  view-supported name seen (u ∷ us) user v h =
      let p = valid_parts platform seen u us v in
      go (same_name u.username name) p.0.1
        (λ k. view-supported name (u.username ∷ seen) us user p.2 k) h
    where
      go :
          (b : Bool)
          → parse_password_hash platform u.password_hash ≡ true
          → (view us name ≡ some user → parse_password_hash platform user.password_hash ≡ true)
          → (if b then some u else view us name) ≡ some user
          → parse_password_hash platform user.password_hash ≡ true
      go true q k e =
          subst (λ x. parse_password_hash platform x.password_hash ≡ true) (some_injective e) q
      go false q k e = k e

  -- What a login is to be given, by the record of its name.
  unfoldable pub grant : Bytes → Option UserRecord → Option UserAuthorization
  grant password none = none
  grant password (some user) =
      if user.enabled && platform.verify password user.password_hash
      then some (record { writable = user.writable })
      else none

  check_lem :
      (password : Bytes) (o : Option UserRecord)
      → ((user : UserRecord)
          → o ≡ some user
          → parse_password_hash platform user.password_hash ≡ true)
      → check_user platform password (enabled_only o) ≡ ok (grant password o)
  unfolding check_user grant
  check_lem password none h = refl
  check_lem password (some user) h = elim (Bool-cases user.enabled) [
    | inl on ↦ rw (on, h user refl) refl
    | inr off ↦ rw off refl
  ]

  -- If the file can be read and is private, then a login with a valid name and a password within the
  -- limit is given what the record of its name says: the write grant of the record, if the user is
  -- enabled and the password is the one of the hash, and nothing otherwise.
  pub verify_user_authorization-grant :
      (name password : Bytes) (root : StateDirectory File) (users : UserDatabase)
      → root.private ≡ true
      → read_user_database platform root ≡ ok users
      → valid_username name ≡ true
      → length password ≤ max_password_length
      → verify_user_authorization platform name password root
        ≡ ok (grant password (accounts platform root name))
  unfolding verify_user_authorization accounts
  verify_user_authorization-grant name password root users private known valid short =
      rw (valid, ltb-false short, accounts, known, private)
        (rw (find_enabled name [] users (read_bounds platform root users known).1) (
          check_lem password (view users name) (λ user e.
            view-supported name [] users user (read_bounds platform root users known).1 e)))

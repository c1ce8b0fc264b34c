-- ===== src/Accounts/Refinement.antt =====
-- The administration of users in crates/auth/src/lib.rs does to the map of names what it says.
use quic_kfs.Prelude.{
  ℕ, suc, ◌≤◌, ◌≡◌, refl, sym, ◌∙◌, ap, subst, Bool, true, false, not, ◌&&◌, Option, none, some, [],
  ◌∷◌, ◌++◌, ◌==◌, if◌then◌else◌, length, any, retain, leb, ltb, leb→le, ltb→lt, arith, inl, inr,
  length-append, length-retain-le, &&-eq-true,
}
use quic_kfs.Protocol.Messages.{Bytes}
use quic_kfs.Server.Login.{valid_username}
use quic_kfs.Accounts.Results.{
  AuthError, io, invalid, user_not_found, user_exists, crypto, AuthResult, err, ok, ◌>>=◌, ensure,
  present,
}
use quic_kfs.Accounts.Users
use quic_kfs.Accounts.Users.{
  UserRecord, UserDatabase, Platform, StateDirectory, Chance, same_name, change_first,
  parse_password_hash, valid_records, read_json, read_user_database, write_json, lock_user_database,
  hash_password, validate_new_password, add_user, set_user, set_user_enabled, set_user_writable,
  remove_user, max_users, max_user_database_size,
}
use quic_kfs.Accounts.Records.{
  IsRecord, ok_injective, valid_records-append, valid_records-retain, valid_records-change_first,
  change_first-cases,
}
use quic_kfs.Accounts.Views.{view, change, view-append, view-retain, view-change_first}

pub data Command : Type 0 where
  add replace_password : Bytes → Bytes → Command
  set_enabled set_writable : Bytes → Bool → Command
  remove : Bytes → Command

-- What serde_json and Argon2 promise: a database is read back from its file, and a hash that is
-- made is of the kind that is supported.
pub record IsSound {File : Type 0} (platform : Platform File) : Type 0 where
  pub json : (users : UserDatabase) → platform.from_json (platform.to_json users) ≡ some users
  pub hashes :
      (password salt hash : Bytes)
      → platform.hash password salt ≡ some hash
      → parse_password_hash platform hash ≡ true

not-true : (b : Bool) → not b ≡ true → b ≡ false
not-true b h = ground arith

leb-true : {a b : ℕ} → a ≤ b → leb a b ≡ true
leb-true h = ground arith

ensure-ok :
    {A : Type 0} (b : Bool) (e : AuthError) (r : AuthResult A) (a : A)
    → ensure b e r ≡ ok a
    → (b ≡ true) × (r ≡ ok a)
ensure-ok true e r a h = (refl, h)
ensure-ok false e r a h = ground arith

bind-ok :
    {A B : Type 0} (m : AuthResult A) (k : A → AuthResult B) (b : B)
    → (m >>= k) ≡ ok b
    → (a : A) × (m ≡ ok a) × (k a ≡ ok b)
bind-ok (err e) k b h = ground arith
bind-ok (ok a) k b h = (a, refl, h)

present-ok : {A : Type 0} (o : Option A) (e : AuthError) (a : A) → present o e ≡ ok a → o ≡ some a
present-ok none e a h = ground arith
present-ok (some x) e a h = ap some (ok_injective h)

module _ {File : Type 0} (platform : Platform File) where
  -- A command that is carried out.
  unfoldable pub execute : Chance → Command → StateDirectory File → AuthResult (StateDirectory File)
  execute chance (add name password) = add_user platform chance name password
  execute chance (replace_password name password) =
      Users.change_password platform chance name password
  execute chance (set_enabled name enabled) = set_user_enabled platform chance name enabled
  execute chance (set_writable name writable) = set_user_writable platform chance name writable
  execute chance (remove name) = remove_user platform chance name

  -- The map of names that the file stands for.
  unfoldable pub accounts : StateDirectory File → Bytes → Option UserRecord
  accounts root name = elim (read_user_database platform root) [
    | err e ↦ none
    | ok users ↦ view users name
  ]

  abbrev pub new_hash : Chance → Bytes → Bytes
  new_hash chance password = elim (hash_password platform chance password) [
    | err e ↦ []
    | ok hash ↦ hash
  ]

  -- What a command is to do to the map.
  unfoldable pub apply : Chance → Command → (Bytes → Option UserRecord) → Bytes → Option UserRecord
  apply chance (add name password) map key =
      if same_name name key
      then some (record {
        username = name;
        password_hash = new_hash chance password;
        enabled = true;
        writable = false;
      })
      else map key
  apply chance (replace_password name password) map key =
      if same_name name key
      then change (λ user. record user { password_hash = new_hash chance password }) (map key)
      else map key
  apply chance (set_enabled name enabled) map key =
      if same_name name key
      then change (λ user. record user { enabled = enabled }) (map key)
      else map key
  apply chance (set_writable name writable) map key =
      if same_name name key
      then change (λ user. record user { writable = writable }) (map key)
      else map key
  apply chance (remove name) map key = if same_name name key then none else map key

change_first-length :
    (name : Bytes) (f : UserRecord → UserRecord) (users users' : UserDatabase)
    → change_first name f users ≡ ok users'
    → length users' ≡ length users
unfolding change_first
change_first-length name f [] users' h = ground arith
change_first-length name f (u ∷ us) users' h = elim (change_first-cases name f u us users' h) [
  | inl (_, is) ↦ ap length (sym is)
  | inr (us', _, rest, is) ↦ ap length (sym is) ∙ ap suc (change_first-length name f us us' rest)
]

module _ {File : Type 0} (platform : Platform File) where
  -- What is read is valid.
  pub read_bounds :
      (root : StateDirectory File) (users : UserDatabase)
      → read_user_database platform root ≡ ok users
      → (length users ≤ max_users) × (valid_records platform [] users ≡ true)
  unfolding read_user_database
  read_bounds root users h =
      let (database, _, checked) = bind-ok (read_json platform root.users) _ users h in
      let c =
        ensure-ok (leb (length database) max_users && valid_records platform [] database) invalid
          (ok database) users checked in
      let d = &&-eq-true _ _ c.0 in
      let e = ok_injective c.1 in
      (
        subst (λ x. length x ≤ max_users) e (leb→le (length database) max_users d.0),
        subst (λ x. valid_records platform [] x ≡ true) e d.1,
      )

module _ {File : Type 0} (platform : Platform File) (sound : IsSound platform) where
  -- What is written is read back.
  written :
      (chance : Chance) (users : UserDatabase) (root root' : StateDirectory File)
      → length users ≤ max_users
      → valid_records platform [] users ≡ true
      → write_json platform chance users root ≡ ok root'
      → read_user_database platform root' ≡ ok users
  unfolding write_json read_user_database read_json
  written chance users root root' few valid h =
      let bytes = platform.to_json users in
      let root'' = record root { users = some bytes } in
      let a =
        ensure-ok (leb (platform.size bytes) max_user_database_size) invalid
          (ensure chance.written io (ok root'')) root' h in
      let b = ensure-ok chance.written io (ok root'') root' a.1 in
      rw (sym (ok_injective b.1), a.0, sound.json users, leb-true few, valid) refl

  reads :
      (root : StateDirectory File) (users : UserDatabase)
      → lock_user_database platform root ≡ ok users
      → (read_user_database platform root ≡ ok users)
        × (length users ≤ max_users)
        × (valid_records platform [] users ≡ true)
  unfolding lock_user_database
  reads root users h =
      let a = ensure-ok (not root.locked) invalid (read_user_database platform root) users h in
      let b = read_bounds platform root users a.1 in (a.1, b.0, b.1)

  pub apply-at :
      (chance : Chance) (c : Command) (map map' : Bytes → Option UserRecord) (key : Bytes)
      → map key ≡ map' key
      → apply platform chance c map key ≡ apply platform chance c map' key
  unfolding apply
  apply-at chance (add name password) map map' key e = rw e refl
  apply-at chance (replace_password name password) map map' key e = rw e refl
  apply-at chance (set_enabled name enabled) map map' key e = rw e refl
  apply-at chance (set_writable name writable) map map' key e = rw e refl
  apply-at chance (remove name) map map' key e = rw e refl

  accounts-view :
      (root : StateDirectory File) (users : UserDatabase) (key : Bytes)
      → read_user_database platform root ≡ ok users
      → accounts platform root key ≡ view users key
  unfolding accounts
  accounts-view root users key h = rw (accounts, h) refl

  -- What a change of the records amounts to when it is written.
  kept :
      (chance : Chance) (c : Command) (users users' : UserDatabase)
      (root root' : StateDirectory File) (key : Bytes)
      → lock_user_database platform root ≡ ok users
      → length users' ≤ max_users
      → valid_records platform [] users' ≡ true
      → write_json platform chance users' root ≡ ok root'
      → view users' key ≡ apply platform chance c (view users) key
      → accounts platform root' key ≡ apply platform chance c (accounts platform root) key
  unfolding accounts apply
  kept chance c users users' root root' key locked few valid done same =
      let before : accounts platform root key ≡ view users key =
        accounts-view root users key (reads root users locked).0 in
      let after : accounts platform root' key ≡ view users' key =
        accounts-view root' users' key (written chance users' root root' few valid done) in
      after ∙ same ∙ apply-at chance c (view users) (accounts platform root) key (sym before)

  hash_password-supported :
      (chance : Chance) (password hash : Bytes)
      → hash_password platform chance password ≡ ok hash
      → parse_password_hash platform hash ≡ true
  unfolding hash_password
  hash_password-supported chance password hash h =
      let (salt, _, rest) = bind-ok (present chance.salt crypto) _ hash h in
      sound.hashes password salt hash (present-ok (platform.hash password salt) crypto hash rest)

  new_hash-ok :
      (chance : Chance) (password hash : Bytes)
      → hash_password platform chance password ≡ ok hash
      → new_hash platform chance password ≡ hash
  new_hash-ok chance password hash h = rw (new_hash, h) refl

  add-law :
      (chance : Chance) (name password hash : Bytes) (map : Bytes → Option UserRecord) (key : Bytes)
      → hash_password platform chance password ≡ ok hash
      → (if same_name name key
          then some
              (record { username = name; password_hash = hash; enabled = true; writable = false })
          else map key)
        ≡ apply platform chance (add name password) map key
  unfolding apply
  add-law chance name password hash map key h =
      ap
        (λ x.
          if same_name name key
          then some
              (record { username = name; password_hash = x; enabled = true; writable = false })
          else map key)
        (sym (new_hash-ok chance password hash h))

  replace-law :
      (chance : Chance) (name password hash : Bytes) (map : Bytes → Option UserRecord) (key : Bytes)
      → hash_password platform chance password ≡ ok hash
      → (if same_name name key
          then change (λ user. record user { password_hash = hash }) (map key)
          else map key)
        ≡ apply platform chance (replace_password name password) map key
  unfolding apply
  replace-law chance name password hash map key h =
      ap
        (λ x.
          if same_name name key
          then change (λ user. record user { password_hash = x }) (map key)
          else map key)
        (sym (new_hash-ok chance password hash h))

  added :
      (chance : Chance) (name password : Bytes) (root root' : StateDirectory File) (key : Bytes)
      → add_user platform chance name password root ≡ ok root'
      → accounts platform root' key
        ≡ apply platform chance (add name password) (accounts platform root) key
  unfolding add_user apply hash_password
  added chance name password root root' key h =
      let a = ensure-ok root.secure invalid _ root' h in
      let b = ensure-ok (valid_username name) invalid _ root' a.1 in
      let c = ensure-ok (validate_new_password password) invalid _ root' b.1 in
      let (users, locked, rest) = bind-ok (lock_user_database platform root) _ root' c.1 in
      let d =
        ensure-ok (not (any (λ user. same_name user.username name) users)) user_exists _ root'
          rest in
      let e = ensure-ok (ltb (length users) max_users) invalid _ root' d.1 in
      let (hash, hashed, last) = bind-ok (hash_password platform chance password) _ root' e.1 in
      let user : UserRecord = record {
        username = name;
        password_hash = hash;
        enabled = true;
        writable = false;
      } in
      let read = reads root users locked in
      let fresh = not-true (any (λ user. same_name user.username name) users) d.0 in
      kept chance (add name password) users (users ++ (user ∷ [])) root root' key locked
        (omega (arith, length-append users (user ∷ []), ltb→lt (length users) max_users e.0))
        (valid_records-append platform [] users user read.2
          (b.0, hash_password-supported chance password hash hashed) refl fresh)
        last
        (view-append users user key fresh
          ∙ add-law chance name password hash (view users) key hashed)

  replaced :
      (chance : Chance) (name password : Bytes) (root root' : StateDirectory File) (key : Bytes)
      → Users.change_password platform chance name password root ≡ ok root'
      → accounts platform root' key
        ≡ apply platform chance (replace_password name password) (accounts platform root) key
  unfolding Users.change_password apply
  replaced chance name password root root' key h =
      let a = ensure-ok root.secure invalid _ root' h in
      let b = ensure-ok (valid_username name) invalid _ root' a.1 in
      let c = ensure-ok (validate_new_password password) invalid _ root' b.1 in
      let (users, locked, rest) = bind-ok (lock_user_database platform root) _ root' c.1 in
      let d =
        ensure-ok (any (λ user. same_name user.username name) users) user_not_found _ root' rest in
      let (hash, hashed, rest') = bind-ok (hash_password platform chance password) _ root' d.1 in
      let f = λ (user : UserRecord). record user { password_hash = hash } in
      let (users', changed, last) = bind-ok (change_first name f users) _ root' rest' in
      let read = reads root users locked in
      kept chance (replace_password name password) users users' root root' key locked
        (rw (change_first-length name f users users' changed) read.1)
        (valid_records-change_first platform [] name f users users' (λ u. refl)
          (λ u r. (r.0, hash_password-supported chance password hash hashed)) changed read.2)
        last
        (view-change_first users users' name key f (λ u. refl) changed
          ∙ replace-law chance name password hash (view users) key hashed)

  set :
      (chance : Chance) (name : Bytes) (f : UserRecord → UserRecord) (c : Command)
      (root root' : StateDirectory File) (key : Bytes)
      → ((u : UserRecord) → (f u).username ≡ u.username)
      → ((u : UserRecord) → IsRecord platform u → IsRecord platform (f u))
      → ((users : UserDatabase)
          → apply platform chance c (view users) key
            ≡ (if same_name name key then change f (view users key) else view users key))
      → set_user platform f chance name root ≡ ok root'
      → accounts platform root' key ≡ apply platform chance c (accounts platform root) key
  unfolding set_user
  set chance name f c root root' key n r law h =
      let a = ensure-ok root.secure invalid _ root' h in
      let b = ensure-ok (valid_username name) invalid _ root' a.1 in
      let (users, locked, rest) = bind-ok (lock_user_database platform root) _ root' b.1 in
      let (users', changed, last) = bind-ok (change_first name f users) _ root' rest in
      let read = reads root users locked in
      kept chance c users users' root root' key locked
        (rw (change_first-length name f users users' changed) read.1)
        (valid_records-change_first platform [] name f users users' n r changed read.2) last
        (view-change_first users users' name key f n changed ∙ sym (law users))

  removed :
      (chance : Chance) (name : Bytes) (root root' : StateDirectory File) (key : Bytes)
      → remove_user platform chance name root ≡ ok root'
      → accounts platform root' key
        ≡ apply platform chance (remove name) (accounts platform root) key
  unfolding remove_user apply
  removed chance name root root' key h =
      let a = ensure-ok root.secure invalid _ root' h in
      let b = ensure-ok (valid_username name) invalid _ root' a.1 in
      let (users, locked, rest) = bind-ok (lock_user_database platform root) _ root' b.1 in
      let others = retain (λ user. not (same_name user.username name)) users in
      let c =
        ensure-ok (not (length others == length users)) user_not_found
          (write_json platform chance others root) root' rest in
      let read = reads root users locked in
      kept chance (remove name) users others root root' key locked
        (omega (arith, length-retain-le (λ user. not (same_name user.username name)) users, read.1))
        (valid_records-retain platform [] _ users read.2) c.1
        (unfolded_remove chance users name key)
    where
      unfolded_remove :
          (chance : Chance) (users : UserDatabase) (name key : Bytes)
          → view (retain (λ user. not (same_name user.username name)) users) key
            ≡ apply platform chance (remove name) (view users) key
      unfolded_remove chance users name key = view-retain users name key

  -- If a database is read back from its file and a hash that is made is supported, then a command
  -- that succeeds changes the map of names as it is to: the new user is there, disabled to write, or
  -- the password, the enabling or the write grant of the named user is changed, or the user is gone,
  -- and every other name is as it was.
  pub execute-apply :
      (chance : Chance) (c : Command) (root root' : StateDirectory File) (key : Bytes)
      → execute platform chance c root ≡ ok root'
      → accounts platform root' key ≡ apply platform chance c (accounts platform root) key
  unfolding execute set_user_enabled set_user_writable apply
  execute-apply chance (add name password) root root' key h =
      added chance name password root root' key h
  execute-apply chance (replace_password name password) root root' key h =
      replaced chance name password root root' key h
  execute-apply chance (set_enabled name enabled) root root' key h =
      set chance name (λ user. record user { enabled = enabled }) (set_enabled name enabled) root
        root' key (λ u. refl) (λ u r. r) (λ users. refl) h
  execute-apply chance (set_writable name writable) root root' key h =
      set chance name (λ user. record user { writable = writable }) (set_writable name writable)
        root root' key (λ u. refl) (λ u r. r) (λ users. refl) h
  execute-apply chance (remove name) root root' key h = removed chance name root root' key h

-- ===== src/Accounts/Records.antt =====
-- The records of the users' file in crates/auth/src/lib.rs stay valid when one is added, changed or
-- removed.
use quic_kfs.Prelude.{
  ◌⊎◌, ◌≡◌, refl, subst, Bool, true, false, not, ◌||◌, List, [], ◌∷◌, ◌++◌, ◌==◌, if◌then◌else◌,
  any, retain, arith, ==→eq, ==_refl, inl, inr, &&-eq-true,
}
use quic_kfs.Protocol.Messages.{Bytes}
use quic_kfs.Server.Login.{valid_username}
use quic_kfs.Accounts.Results.{AuthResult, err, ok, ◌>>=◌}
use quic_kfs.Accounts.Users.{
  UserRecord, UserDatabase, Platform, same_name, parse_password_hash, valid_records, change_first,
}

pub same_name_refl : (a : Bytes) → same_name a a ≡ true
same_name_refl [] = refl
same_name_refl (x ∷ xs) = rw (==_refl x, same_name_refl xs) refl

pub same_name→eq : (a b : Bytes) → same_name a b ≡ true → a ≡ b
same_name→eq [] [] h = refl
same_name→eq [] (y ∷ ys) h = ground arith
same_name→eq (x ∷ xs) [] h = ground arith
same_name→eq (x ∷ xs) (y ∷ ys) h =
    let both = &&-eq-true (x == y) (same_name xs ys) h in
    rw (==→eq x y both.0, same_name→eq xs ys both.1) refl

pub same_name_comm : (a b : Bytes) → same_name a b ≡ same_name b a
same_name_comm [] [] = refl
same_name_comm [] (y ∷ ys) = refl
same_name_comm (x ∷ xs) [] = refl
same_name_comm (x ∷ xs) (y ∷ ys) = ground (arith, same_name_comm xs ys)

not-true : (b : Bool) → not b ≡ true → b ≡ false
not-true b h = ground arith

||-false : (a b : Bool) → (a || b) ≡ false → (a ≡ false) × (b ≡ false)
||-false a b h = ground arith

pub ok_injective : {A : Type 0} {x y : A} → ok x ≡ ok y → x ≡ y
ok_injective h = cc

-- What a change of the first record of a name makes of a list that is not empty.
pub change_first-cases :
    (name : Bytes) (f : UserRecord → UserRecord) (u : UserRecord) (us users' : UserDatabase)
    → change_first name f (u ∷ us) ≡ ok users'
    → ((same_name u.username name ≡ true) × ((f u ∷ us) ≡ users'))
      ⊎ ((us' : UserDatabase) × (same_name u.username name ≡ false)
          × (change_first name f us ≡ ok us')
          × ((u ∷ us') ≡ users'))
unfolding change_first
change_first-cases name f u us users' e = go (same_name u.username name) (change_first name f us) e
  where
    go :
        (b : Bool) (rest : AuthResult UserDatabase)
        → (if b then ok (f u ∷ us) else rest >>= (λ us'. ok (u ∷ us'))) ≡ ok users'
        → ((b ≡ true) × ((f u ∷ us) ≡ users'))
          ⊎ ((us' : UserDatabase) × (b ≡ false) × (rest ≡ ok us') × ((u ∷ us') ≡ users'))
    go true rest h = inl (refl, ok_injective h)
    go false (err x) h = ground arith
    go false (ok us') h = inr (us', refl, refl, ok_injective h)

module _ {File : Type 0} (platform : Platform File) where
  -- A record that read_user_database accepts, whatever came before it.
  abbrev pub IsRecord : UserRecord → Type 0
  IsRecord user =
      (valid_username user.username ≡ true)
      × (parse_password_hash platform user.password_hash ≡ true)

  abbrev pub has : Bytes → UserDatabase → Bool
  has username users = any (λ user. same_name user.username username) users

  -- The parts of the validity of a list that is not empty.
  pub valid_parts :
      (seen : List Bytes) (u : UserRecord) (us : UserDatabase)
      → valid_records platform seen (u ∷ us) ≡ true
      → IsRecord u
        × (any (same_name u.username) seen ≡ false)
        × (valid_records platform (u.username ∷ seen) us ≡ true)
  unfolding valid_records
  valid_parts seen u us h = ((ground arith, ground arith), ground arith, ground arith)

  pub valid_whole :
      (seen : List Bytes) (u : UserRecord) (us : UserDatabase)
      → IsRecord u
      → any (same_name u.username) seen ≡ false
      → valid_records platform (u.username ∷ seen) us ≡ true
      → valid_records platform seen (u ∷ us) ≡ true
  unfolding valid_records
  valid_whole seen u us r s h = rw (r.0, r.1, s, h) refl

  -- One record more.
  pub valid_records-append :
      (seen : List Bytes) (users : UserDatabase) (user : UserRecord)
      → valid_records platform seen users ≡ true
      → IsRecord user
      → any (same_name user.username) seen ≡ false
      → has user.username users ≡ false
      → valid_records platform seen (users ++ (user ∷ [])) ≡ true
  unfolding valid_records
  valid_records-append seen [] user h r s n = valid_whole seen user [] r s refl
  valid_records-append seen (u ∷ us) user h r s n =
      let p = valid_parts seen u us h in
      let q = ||-false (same_name u.username user.username) (has user.username us) n in
      valid_whole seen u (us ++ (user ∷ [])) p.0 p.1 (
        valid_records-append (u.username ∷ seen) us user p.2 r
          (rw (same_name_comm user.username u.username, q.0, s) refl) q.1)

  -- Fewer names that came before.
  pub valid_records_fewer :
      (more fewer : List Bytes) (users : UserDatabase)
      → ((n : Bytes) → any (same_name n) more ≡ false → any (same_name n) fewer ≡ false)
      → valid_records platform more users ≡ true
      → valid_records platform fewer users ≡ true
  unfolding valid_records
  valid_records_fewer more fewer [] k h = refl
  valid_records_fewer more fewer (u ∷ us) k h =
      let p = valid_parts more u us h in
      valid_whole fewer u us p.0 (k u.username p.1) (
        valid_records_fewer (u.username ∷ more) (u.username ∷ fewer) us
          (λ n e.
            let q = ||-false (same_name n u.username) (any (same_name n) more) e in
            rw (q.0, k n q.1) refl)
          p.2)

  -- Some records less.
  pub valid_records-retain :
      (seen : List Bytes) (keep : UserRecord → Bool) (users : UserDatabase)
      → valid_records platform seen users ≡ true
      → valid_records platform seen (retain keep users) ≡ true
  unfolding valid_records
  valid_records-retain seen keep [] h = refl
  valid_records-retain seen keep (u ∷ us) h =
      let p = valid_parts seen u us h in
      let kept = valid_records-retain (u.username ∷ seen) keep us p.2 in
      elim (keep u)
        as (λ b.
          valid_records platform seen (if b then u ∷ retain keep us else retain keep us) ≡ true) [
            | true ↦ valid_whole seen u _ p.0 p.1 kept
            | false ↦
                valid_records_fewer (u.username ∷ seen) seen (retain keep us)
                  (λ n e. (||-false (same_name n u.username) (any (same_name n) seen) e).1) kept
          ]

  -- One record changed, but for its name.
  pub valid_records-change_first :
      (seen : List Bytes) (name : Bytes) (f : UserRecord → UserRecord) (users users' : UserDatabase)
      → ((u : UserRecord) → (f u).username ≡ u.username)
      → ((u : UserRecord) → IsRecord u → IsRecord (f u))
      → change_first name f users ≡ ok users'
      → valid_records platform seen users ≡ true
      → valid_records platform seen users' ≡ true
  unfolding change_first
  valid_records-change_first seen name f [] users' n r e h = ground arith
  valid_records-change_first seen name f (u ∷ us) users' n r e h =
      let p = valid_parts seen u us h in
      elim (change_first-cases name f u us users' e) [
        | inl (_, is) ↦
            subst (λ x. valid_records platform seen x ≡ true) is
              (valid_whole seen (f u) us (r u p.0) (rw (n u) p.1) (rw (n u) p.2))
        | inr (us', _, rest, is) ↦
            subst (λ x. valid_records platform seen x ≡ true) is
              (valid_whole seen u us' p.0 p.1
                (valid_records-change_first (u.username ∷ seen) name f us us' n r rest p.2))
      ]

-- ===== src/Accounts/Views.antt =====
-- The users' file of crates/auth/src/lib.rs as a map of names, which the changes of it keep.
use quic_kfs.Prelude.{
  ◌≡◌, refl, sym, ◌∙◌, ap, subst, Bool, true, false, not, ◌||◌, Option, none, some, [], ◌∷◌, ◌++◌,
  if◌then◌else◌, any, find, retain, arith, Bool-cases, inl, inr,
}
use quic_kfs.Protocol.Messages.{Bytes}
use quic_kfs.Accounts.Results.{ok}
use quic_kfs.Accounts.Users.{UserRecord, UserDatabase, same_name, change_first}
use quic_kfs.Accounts.Records.{same_name→eq, same_name_comm, change_first-cases}

-- The record of a name.
abbrev pub view : UserDatabase → Bytes → Option UserRecord
view users name = find (λ user. same_name user.username name) users

abbrev pub change : (UserRecord → UserRecord) → Option UserRecord → Option UserRecord
change f none = none
change f (some user) = some (f user)

-- A user of a name has it under every key, and a user of another name has none of its keys.
same_name_other :
    (a name key : Bytes) → same_name a name ≡ true → same_name a key ≡ same_name name key
same_name_other a name key h = rw (same_name→eq a name h) refl

apart : (a b key : Bytes) → same_name a b ≡ false → same_name a key ≡ true → same_name b key ≡ false
apart a b key h k =
    subst (λ x. same_name b x ≡ false) (same_name→eq a key k) (same_name_comm b a ∙ h)

||-false : (a b : Bool) → (a || b) ≡ false → (a ≡ false) × (b ≡ false)
||-false a b h = ground arith

pub view-append :
    (users : UserDatabase) (user : UserRecord) (key : Bytes)
    → any (λ u. same_name u.username user.username) users ≡ false
    → view (users ++ (user ∷ [])) key
      ≡ (if same_name user.username key then some user else view users key)
view-append [] user key h = refl
view-append (u ∷ us) user key h =
    let q = ||-false (same_name u.username user.username) _ h in
    elim (Bool-cases (same_name u.username key)) [
      | inl mine ↦ rw (mine, apart u.username user.username key q.0 mine) refl
      | inr other ↦ rw other (view-append us user key q.1)
    ]

skip :
    {A : Type 0} (b : Bool) (a c r : Option A)
    → r ≡ (if b then none else c)
    → r ≡ (if b then none else if b then a else c)
skip true a c r h = h
skip false a c r h = h

pub view-retain :
    (users : UserDatabase) (name key : Bytes)
    → view (retain (λ u. not (same_name u.username name)) users) key
      ≡ (if same_name name key then none else view users key)
view-retain [] name key = ground arith
view-retain (u ∷ us) name key =
    let rest = view-retain us name key in
    elim (Bool-cases (same_name u.username name)) [
      | inl mine ↦
          rw (mine, same_name_other u.username name key mine)
            (skip (same_name name key) (some u) _ _ rest)
      | inr other ↦ elim (Bool-cases (same_name u.username key)) [
        | inl there ↦ rw (other, there, apart u.username name key other there) refl
        | inr away ↦ rw (other, away) rest
      ]
    ]

pub view-change_first :
    (users users' : UserDatabase) (name key : Bytes) (f : UserRecord → UserRecord)
    → ((u : UserRecord) → (f u).username ≡ u.username)
    → change_first name f users ≡ ok users'
    → view users' key ≡ (if same_name name key then change f (view users key) else view users key)
unfolding change_first
view-change_first [] users' name key f n e = ground arith
view-change_first (u ∷ us) users' name key f n e = elim (change_first-cases name f u us users' e) [
  | inl (same, is) ↦
      subst
        (λ x.
          view x key
          ≡ (if same_name name key then change f (view (u ∷ us) key) else view (u ∷ us) key))
        is
        (elim (Bool-cases (same_name u.username key)) [
          | inl mine ↦
              rw
                (
                  ap (λ x. same_name x key) (n u) ∙ mine,
                  mine,
                  sym (same_name_other u.username name key same) ∙ mine,
                )
                refl
          | inr other ↦
              rw
                (
                  ap (λ x. same_name x key) (n u) ∙ other,
                  other,
                  sym (same_name_other u.username name key same) ∙ other,
                )
                refl
        ])
  | inr (us', other, rest, is) ↦
      subst
        (λ x.
          view x key
          ≡ (if same_name name key then change f (view (u ∷ us) key) else view (u ∷ us) key))
        is
        (elim (Bool-cases (same_name u.username key)) [
          | inl mine ↦ rw (mine, apart u.username name key other mine) refl
          | inr away ↦ rw away (view-change_first us us' name key f n rest)
        ])
]

-- ===== src/Accounts/Results.antt =====
-- AuthError of crates/auth/src/lib.rs, without the texts, and results that carry it.
use quic_kfs.Prelude.{Bool, true, false, Option, none, some}

pub data AuthError : Type 0 where
  io invalid user_exists user_not_found pairing_not_found pairing_expired crypto : AuthError

pub data AuthResult {ℓ} (A : Type ℓ) : Type ℓ where
  err : AuthError → AuthResult A
  ok : A → AuthResult A

infixl 5 ◌>>=◌
-- A result that must be there for what comes next.
abbrev pub ◌>>=◌ {ℓ} : {A B : Type ℓ} → AuthResult A → (A → AuthResult B) → AuthResult B
(err e) >>= next = err e
(ok a) >>= next = next a

-- An error unless a test holds.
abbrev pub ensure {ℓ} : {A : Type ℓ} → Bool → AuthError → AuthResult A → AuthResult A
ensure true e next = next
ensure false e next = err e

abbrev pub present {ℓ} : {A : Type ℓ} → Option A → AuthError → AuthResult A
present none e = err e
present (some a) e = ok a

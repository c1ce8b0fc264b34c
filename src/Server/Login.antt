-- ===== src/Server/Login.antt =====
-- The Pair and Authenticate requests of `handle` in servers/linux/server-daemon/src/main.rs, with
-- validate_username of crates/auth/src/lib.rs.
use quic_kfs.Prelude.{
  ℕ, ◌+◌, Bool, true, false, not, ◌&&◌, ◌||◌, none, some, [], ◌∷◌, ltb, leb, ◌==◌, if◌then◌else◌,
  length, min, any,
}
use quic_kfs.Protocol.Access.{ErrorCode}
use quic_kfs.Protocol.Messages.{Bytes, Response}
use quic_kfs.Server.RateLimit.{allow}
use quic_kfs.Server.Service.{
  Export, Auth, Server, Moment, Handler, reply, authentication_error, internal_error, Loaded,
  Verified,
}

abbrev pub max_password_length : ℕ
max_password_length = 1024

-- u8::saturating_add(1)
abbrev pub saturating_succ : ℕ → ℕ
saturating_succ n = min (n + 1) 255

-- u8::is_ascii_alphanumeric
abbrev pub is_ascii_alphanumeric : ℕ → Bool
is_ascii_alphanumeric b =
    (leb 48 b && leb b 57) || (leb 65 b && leb b 90) || (leb 97 b && leb b 122)

-- Whether validate_username accepts the name.
unfoldable pub valid_username : Bytes → Bool
valid_username username =
    leb 1 (length username)
    && leb (length username) 64
    && not (any (λ b. not (is_ascii_alphanumeric b || b == 95 || b == 45 || b == 46)) username)

abbrev pub is_empty : Bytes → Bool
is_empty [] = true
is_empty (b ∷ bs) = false

module _ {S P : Type 0} where
  abbrev pub failed_attempt : Server S P → Server S P
  failed_attempt s = record s {
    auth_state = record s.auth_state {
      failed_attempts = saturating_succ s.auth_state.failed_attempts;
    };
  }

module _ {S P K : Type 0} (export : Export S) (auth : Auth P K) (fingerprint : Bytes) where
  unfoldable pub consume : ℕ → Bytes → Handler S P
  consume pairing_id proof s = elim (auth.consume_pairing pairing_id s.pairings) [
    | none ↦ reply authentication_error s
    | some pairings ↦
        reply (Response.pairing_proof fingerprint proof) (record s { pairings = pairings })
  ]

  unfoldable pub handle_pair : ℕ → Bytes → Bytes → Handler S P
  handle_pair pairing_id client_nonce client_proof s =
      elim (auth.load_pairing pairing_id s.pairings) [
        | Loaded.unavailable ↦ reply authentication_error s
        | Loaded.secret key ↦
            if auth.verify_client_proof key pairing_id fingerprint client_nonce client_proof
            then elim (auth.server_proof key pairing_id fingerprint client_nonce) [
              | none ↦ reply internal_error s
              | some proof ↦ consume pairing_id proof s
            ]
            else reply authentication_error s
      ]

  -- What follows the verification of a password.
  unfoldable pub verified : Verified → Handler S P
  verified (Verified.authorized writable) s = reply Response.authenticate_ack (record s {
    export = export.set_write_authorized writable s.export;
    auth_state = record s.auth_state { authenticated = true };
  })
  verified Verified.rejected s = reply authentication_error (failed_attempt s)
  verified Verified.failed s = reply internal_error s

  -- A login that the input checks let pass: the rate limit, the permit, the password.
  unfoldable pub attempt_login : Moment → Bytes → Bytes → Handler S P
  attempt_login m username password s =
      let (limiter, allowed) = allow m.now m.peer_ip s.auth_limiter in
      let s' = record s { auth_limiter = limiter } in
      if allowed
      then if m.auth_permit
        then verified (auth.verify_user_authorization username password) s'
        else reply (Response.error ErrorCode.timeout) s'
      else reply authentication_error s'

  unfoldable pub handle_authenticate : Moment → Bytes → Bytes → Handler S P
  handle_authenticate m username password s =
      if s.auth_state.authenticated
      then reply (Response.error ErrorCode.invalid_request) s
      else if leb 5 s.auth_state.failed_attempts
      then reply authentication_error s
      else if not (valid_username username)
          || is_empty password
          || ltb max_password_length (length password)
      then reply authentication_error (failed_attempt s)
      else attempt_login m username password s

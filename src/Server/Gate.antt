-- ===== src/Server/Gate.antt =====
-- What a request of `handle` in servers/linux/server-daemon/src/main.rs may do before a login, and
-- what a login takes.
use quic_kfs.Prelude.{
  ℕ, subst, ◌+◌, ◌≤◌, ◌<◌, ◌≡◌, refl, sym, Bool, true, false, not, ◌||◌, [], ltb, leb, ◌==◌, length,
  arith, Bool-cases, inl, inr,
}
use quic_kfs.Protocol.Access.{ErrorCode}
use quic_kfs.Protocol.Messages.{Bytes, Request, Response}
use quic_kfs.Protocol.Version.{version_major, protocol_major}
use quic_kfs.Server.RateLimit.{allow}
use quic_kfs.Server.Service.{
  Export, Auth, Server, Moment, Outcome, respond, reply, authentication_error, Verified,
}
use quic_kfs.Server.Login.{
  handle_pair, handle_authenticate, attempt_login, verified, consume, valid_username, is_empty,
  max_password_length, failed_attempt,
}
use quic_kfs.Server.Handle.{open_to_all, serve, handle}

module _ {S P K : Type 0} (export : Export S) (auth : Auth P K) (fingerprint : Bytes)
    (fits : Response → Bool) where
  -- What a request did to a connection that had not logged in: nothing to the export, or a login
  -- that the user's record allows, which set the write grant to the record's.
  pub data Gate (m : Moment) (request : Request) (s : Server S P) (t : Server S P × Outcome)
      : Type 0 where
    closed :
        t.0.export ≡ s.export
        → t.0.auth_state.authenticated ≡ false
        → s.auth_state.failed_attempts ≤ t.0.auth_state.failed_attempts
        → t.0.auth_state.failed_attempts ≤ s.auth_state.failed_attempts + 1
        → Gate m request s t
    opened :
        (username password : Bytes) (writable : Bool)
        → request ≡ Request.authenticate username password
        → auth.verify_user_authorization username password ≡ Verified.authorized writable
        → (allow m.now m.peer_ip s.auth_limiter).1 ≡ true
        → s.auth_state.failed_attempts < 5
        → t.0.export ≡ export.set_write_authorized writable s.export
        → t.0.auth_state.authenticated ≡ true
        → t.1 ≡ respond Response.authenticate_ack []
        → Gate m request s t

  pair_lem :
      (id : ℕ) (nonce proof : Bytes) (s : Server S P)
      → ((handle_pair export auth fingerprint id nonce proof s).0.export ≡ s.export)
        × ((handle_pair export auth fingerprint id nonce proof s).0.auth_state ≡ s.auth_state)
        × ((handle_pair export auth fingerprint id nonce proof s).0.auth_limiter ≡ s.auth_limiter)
  unfolding handle_pair consume
  pair_lem id nonce proof s = (ground arith, ground arith, ground arith)

  verified_lem :
      (m : Moment) (username password : Bytes) (s t : Server S P) (v : Verified)
      → auth.verify_user_authorization username password ≡ v
      → (allow m.now m.peer_ip s.auth_limiter).1 ≡ true
      → s.auth_state.failed_attempts < 5
      → s.auth_state.authenticated ≡ false
      → t.export ≡ s.export
      → t.auth_state ≡ s.auth_state
      → Gate m (Request.authenticate username password) s (verified export auth fingerprint v t)
  unfolding verified
  verified_lem m username password s t (Verified.authorized w) e allowed few out same state =
      opened username password w refl e allowed few (rw same refl) refl refl
  verified_lem m username password s t Verified.rejected e allowed few out same state =
      closed same (rw state out) (rw state (omega arith)) (rw state (omega arith))
  verified_lem m username password s t Verified.failed e allowed few out same state =
      closed same (rw state out) (rw state (omega arith)) (rw state (omega arith))

  unchanged :
      (m : Moment) (request : Request) (s : Server S P) (t : Server S P × Outcome)
      → t.0.export ≡ s.export
      → t.0.auth_state ≡ s.auth_state
      → s.auth_state.authenticated ≡ false
      → Gate m request s t
  unchanged m request s t same state out =
      closed same (rw state out) (rw state (omega arith)) (rw state (omega arith))

  -- The same, of a result that is computed.
  via :
      (m : Moment) (request : Request) (s : Server S P) (t t' : Server S P × Outcome)
      → t ≡ t'
      → Gate m request s t'
      → Gate m request s t
  via m request s t t' e g = subst (Gate m request s) (sym e) g

  attempt_login_lem :
      (m : Moment) (username password : Bytes) (s : Server S P)
      → s.auth_state.failed_attempts < 5
      → s.auth_state.authenticated ≡ false
      → Gate m
          (Request.authenticate username password)
          s
          (attempt_login export auth fingerprint m username password s)
  unfolding attempt_login
  attempt_login_lem m username password s few out =
      elim (Bool-cases (allow m.now m.peer_ip s.auth_limiter).1) [
        | inr refused ↦
            via m _ s _ (reply authentication_error s') (rw refused refl)
              (unchanged m _ s _ refl refl out)
        | inl allowed ↦ elim (Bool-cases m.auth_permit) [
          | inr busy ↦
              via m _ s _ (reply (Response.error ErrorCode.timeout) s') (rw (allowed, busy) refl)
                (unchanged m _ s _ refl refl out)
          | inl free ↦
              via m _ s _
                (verified export auth fingerprint (auth.verify_user_authorization username password)
                  s')
                (rw (allowed, free) refl)
                (verified_lem m username password s s'
                  (auth.verify_user_authorization username password) refl allowed few out refl refl)
        ]
      ]
    where
      s' : Server S P
      s' = record s { auth_limiter = (allow m.now m.peer_ip s.auth_limiter).0 }

  authenticate_lem :
      (m : Moment) (username password : Bytes) (s : Server S P)
      → s.auth_state.authenticated ≡ false
      → Gate m
          (Request.authenticate username password)
          s
          (handle_authenticate export auth fingerprint m username password s)
  unfolding handle_authenticate
  authenticate_lem m username password s out =
      elim (Bool-cases (leb 5 s.auth_state.failed_attempts)) [
        | inl many ↦
            via m _ s _ (reply authentication_error s) (rw (out, many) refl)
              (unchanged m _ s _ refl refl out)
        | inr few ↦
            elim (Bool-cases (
              not (valid_username username)
              || is_empty password
              || ltb max_password_length (length password))) [
                | inl bad ↦
                    via m _ s _ (reply authentication_error (failed_attempt s))
                      (rw (out, few, bad) refl) (closed refl out (ground arith) (omega arith))
                | inr good ↦
                    via m _ s _ (attempt_login export auth fingerprint m username password s)
                      (rw (out, few, good) refl)
                      (attempt_login_lem m username password s (ground arith) out)
              ]
      ]

  serve_lem :
      (m : Moment) (request : Request) (s : Server S P)
      → open_to_all request ≡ true
      → s.auth_state.authenticated ≡ false
      → Gate m request s (serve export auth fingerprint fits m request s)
  unfolding serve open_to_all
  serve_lem m (Request.hello name) s e out = unchanged m _ s _ refl refl out
  serve_lem m (Request.ping nonce) s e out = unchanged m _ s _ refl refl out
  serve_lem m (Request.pair id nonce proof) s e out =
      let (same, state, _) = pair_lem id nonce proof s in unchanged m _ s _ same state out
  serve_lem m (Request.authenticate username password) s e out =
      authenticate_lem m username password s out
  serve_lem m _ s e out = ground arith

  -- On a connection that has not logged in, a request leaves the export as it is and the
  -- connection not logged in, with at most one more failed attempt, unless it is a login that the
  -- rate limit lets pass, after fewer than five failures, with the name and password of a user's
  -- record: then the connection is logged in and its write grant is what the record says.
  pub handle-Gate :
      (m : Moment) (version : ℕ) (request : Request) (s : Server S P)
      → s.auth_state.authenticated ≡ false
      → Gate m request s (handle export auth fingerprint fits m version request s)
  unfolding handle
  handle-Gate m version request s out =
      elim (Bool-cases (version_major version == protocol_major)) [
        | inr other ↦
            via m _ s _ (reply (Response.error ErrorCode.unsupported_version) s) (rw other refl)
              (unchanged m _ s _ refl refl out)
        | inl same ↦ elim (Bool-cases (open_to_all request)) [
          | inl free ↦
              via m _ s _ (serve export auth fingerprint fits m request s) (rw (same, free) refl)
                (serve_lem m request s free out)
          | inr guarded ↦
              via m _ s _ (reply (Response.error ErrorCode.unauthenticated) s)
                (rw (same, guarded, out) refl) (unchanged m _ s _ refl refl out)
        ]
      ]

-- ===== src/Server/Sessions.antt =====
-- Sequences of requests on one connection of servers/linux/server-daemon/src/main.rs.
use quic_kfs.Prelude.{ℕ, ◌≤◌, ◌≡◌, ◌≢◌, ◌∙◌, Bool, false, List, [], ◌∷◌, arith}
use quic_kfs.Protocol.Messages.{Bytes, Request, Response}
use quic_kfs.Server.Service.{Export, Auth, Server, Moment, Verified}
use quic_kfs.Server.Handle.{handle}
use quic_kfs.Server.Gate.{Gate, closed, opened, handle-Gate}

pub record Arrival : Type 0 where
  pub moment : Moment
  pub version : ℕ
  pub request : Request

-- The connection has not logged in, and the export is as it was.
pub record IsOutside {S P : Type 0} (before : S) (s : Server S P) : Type 0 where
  pub same : s.export ≡ before
  pub out : s.auth_state.authenticated ≡ false

module _ {S P K : Type 0} (export : Export S) (auth : Auth P K) (fingerprint : Bytes)
    (fits : Response → Bool) where
  -- The requests one after the other.
  unfoldable pub serve_all : List Arrival → Server S P → Server S P
  serve_all [] s = s
  serve_all (a ∷ arrivals) s =
      serve_all arrivals (handle export auth fingerprint fits a.moment a.version a.request s).0

  closed_out :
      (before : S) (a : Arrival) (s : Server S P)
      → IsOutside before s
      → 5 ≤ s.auth_state.failed_attempts
      → Gate export auth fingerprint fits a.moment a.request s
          (handle export auth fingerprint fits a.moment a.version a.request s)
      → IsOutside before (handle export auth fingerprint fits a.moment a.version a.request s).0
        × (5
            ≤ (handle export auth fingerprint fits a.moment a.version a.request
                s).0.auth_state.failed_attempts)
  closed_out before a s i many (closed same out more _) =
      (record { same = same ∙ i.same; out = out }, omega arith)
  closed_out before a s i many (opened _ _ _ _ _ _ few _ _ _) = absurd (omega arith)

  no_login :
      (before : S) (a : Arrival) (s : Server S P)
      → IsOutside before s
      → ((username password : Bytes) (w : Bool)
          → auth.verify_user_authorization username password ≢ Verified.authorized w)
      → Gate export auth fingerprint fits a.moment a.request s
          (handle export auth fingerprint fits a.moment a.version a.request s)
      → IsOutside before (handle export auth fingerprint fits a.moment a.version a.request s).0
  no_login before a s i none' (closed same out _ _) = record { same = same ∙ i.same; out = out }
  no_login before a s i none' (opened username password w _ e _ _ _ _ _) =
      absurd (none' username password w e)

  -- After five failed logins a connection that has not logged in never does, whatever it sends, and
  -- never changes the export.
  pub serve_all-locked_out :
      (arrivals : List Arrival) (before : S) (s : Server S P)
      → IsOutside before s
      → 5 ≤ s.auth_state.failed_attempts
      → IsOutside before (serve_all arrivals s)
  unfolding serve_all
  serve_all-locked_out [] before s i many = i
  serve_all-locked_out (a ∷ arrivals) before s i many =
      let (i', many') =
        closed_out before a s i many
          (handle-Gate export auth fingerprint fits a.moment a.version a.request s i.out) in
      serve_all-locked_out arrivals before _ i' many'

  -- If no name and password are those of a user's record, then no requests of a connection that has
  -- not logged in change the export or log it in.
  pub serve_all-no_login :
      (arrivals : List Arrival) (before : S) (s : Server S P)
      → IsOutside before s
      → ((username password : Bytes) (w : Bool)
          → auth.verify_user_authorization username password ≢ Verified.authorized w)
      → IsOutside before (serve_all arrivals s)
  unfolding serve_all
  serve_all-no_login [] before s i none' = i
  serve_all-no_login (a ∷ arrivals) before s i none' =
      serve_all-no_login arrivals before _
        (no_login before a s i none'
          (handle-Gate export auth fingerprint fits a.moment a.version a.request s i.out))
        none'

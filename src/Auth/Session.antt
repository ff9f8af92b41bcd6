-- ===== src/Auth/Session.antt =====
-- internal/auth/session.go and refreshtoken.go, and handleAuthLogout of
-- internal/server/routes_auth.go. SHA-256 and the signing of access tokens are parameters.
pub mod Rotation
pub mod Refresh
pub mod Logout
pub mod Route
use foreignreader_be.Base.{
  ℕ, ◌+◌, String, str_eq, Bool, true, false, ◌&&◌, not, List, ◌∷◌, Option, none, some, ltb, ◌==◌,
  if◌then◌else◌, any, find?, update, select, trim_space, is_empty,
}
use foreignreader_be.Schema.{rotated, logout, Session, Tables}
use foreignreader_be.Db.{
  Error, not_configured, violation, refresh_invalid, refresh_expired, refresh_revoked,
  refresh_reuse, jwt, Result, ok, err, Db, Stmt, fail, pure, guard, get_now, query, tx_query,
  transaction, draw_random, ◌>>=◌, ◌>>◌,
}
use foreignreader_be.Http.{Response, success, api_error, Handler, reject, reject_if}

abbrev pub new_session : ℕ → ℕ → String → String → ℕ → ℕ → Session
new_session id user provider hash expires now = record {
  id = id;
  user_id = user;
  provider = provider;
  refresh_token_hash = hash;
  expires_at = expires;
  revoked_at = none;
  revoke_reason = none;
  replaced_by_session_id = none;
  last_used_at = now;
  created_at = now;
  updated_at = now;
}

-- `INSERT INTO auth_sessions … RETURNING id`, under the UNIQUE constraint on the hash.
unfoldable pub insert_session : ℕ → String → String → ℕ → ℕ → Stmt ℕ
insert_session user provider hash expires now env t =
    let id = env.uuid t.drawn in
    if any (λ s. str_eq s.refresh_token_hash hash) t.sessions
    then err violation
    else ok (
      id,
      record t {
        sessions = new_session id user provider hash expires now ∷ t.sessions;
        drawn = t.drawn + 1;
      },
    )

-- InsertAuthSession.
unfoldable pub insert_auth_session : ℕ → String → String → ℕ → ℕ → Db ℕ
unfolding insert_session
insert_auth_session user provider hash expires now =
    query (insert_session user provider hash expires now)

-- DeleteAuthSession.
unfoldable pub delete_auth_session : ℕ → Db (Unit {0})
delete_auth_session id =
    query λ env t. ok (tt, record t { sessions = select (λ s. not (s.id == id)) t.sessions })

-- `SELECT … WHERE refresh_token_hash = $1 FOR UPDATE`.
abbrev pub session_by_hash : String → Stmt (Option Session)
session_by_hash hash env t = ok (find? (λ s. str_eq s.refresh_token_hash hash) t.sessions, t)

abbrev pub rotated_row : ℕ → ℕ → Session → Session
rotated_row now new_id s = record s {
  revoked_at = some now;
  revoke_reason = some rotated;
  replaced_by_session_id = some new_id;
  last_used_at = now;
  updated_at = now;
}

-- `UPDATE auth_sessions SET revoked_at = $2, … WHERE id = $1`.
unfoldable pub mark_rotated : ℕ → ℕ → ℕ → Stmt (Unit {0})
mark_rotated id now new_id env t =
    ok (tt, record t { sessions = update (λ s. s.id == id) (rotated_row now new_id) t.sessions })

pub record RefreshRotationResult : Type 0 where
  pub access_token : String
  pub access_token_expires_at : ℕ
  pub refresh_token : String

module _ (hash_refresh_token : String → String) (issue : ℕ → String → ℕ → Option (String × ℕ)) where
  -- GenerateRefreshToken; the random bytes come encoded.
  unfoldable pub generate_refresh_token : Db (String × String)
  generate_refresh_token = do raw ← draw_random; pure (raw, hash_refresh_token raw)

  -- IssueAccessToken returns an error as none.
  abbrev issue_access_token : ℕ → String → ℕ → Db (String × ℕ)
  issue_access_token user provider sid = elim (issue user provider sid) [
    | none ↦ fail jwt
    | some token ↦ pure token
  ]

  abbrev refuse_revoked : Option ℕ → Option ℕ → Db (Unit {0})
  refuse_revoked none replaced = pure tt
  refuse_revoked (some at) (some new) = fail refresh_reuse
  refuse_revoked (some at) none = fail refresh_revoked

  -- RotateRefreshToken from the new token on.
  unfoldable pub exchange : ℕ → ℕ → Session → Db RefreshRotationResult
  exchange ttl now s = do
    fresh ← generate_refresh_token
    new_id ← tx_query (insert_session s.user_id s.provider fresh.1 (now + ttl) now)
    tx_query (mark_rotated s.id now new_id)
    access ← issue_access_token s.user_id s.provider new_id
    pure (record {
      access_token = access.0;
      access_token_expires_at = access.1;
      refresh_token = fresh.0;
    })

  abbrev rotate_row : ℕ → Option Session → Db RefreshRotationResult
  rotate_row ttl none = fail refresh_invalid
  rotate_row ttl (some s) = do
    now ← get_now
    refuse_revoked s.revoked_at s.replaced_by_session_id
    guard (ltb now s.expires_at) refresh_expired
    exchange ttl now s

  abbrev rotate_body : String → ℕ → Db RefreshRotationResult
  rotate_body incoming ttl = do
    row ← tx_query (session_by_hash (hash_refresh_token incoming))
    rotate_row ttl row

  -- RotateRefreshToken.
  unfoldable pub rotate_refresh_token : Bool → String → ℕ → Db RefreshRotationResult
  unfolding exchange
  rotate_refresh_token configured incoming ttl =
      if not configured
      then fail not_configured
      else if is_empty incoming
      then fail refresh_invalid
      else transaction (rotate_body incoming ttl)

-- RefreshErrorHTTP.
unfoldable pub refresh_error_http : Error → ℕ × String
refresh_error_http Error.refresh_invalid = (401, "invalid_refresh_token")
refresh_error_http Error.refresh_expired = (401, "refresh_session_expired")
refresh_error_http Error.refresh_revoked = (401, "refresh_session_revoked")
refresh_error_http Error.refresh_reuse = (401, "refresh_token_reused")
refresh_error_http _ = (500, "internal_error")

-- `WHERE id = $1 AND user_id = $2 AND revoked_at IS NULL`.
abbrev pub is_live : Option ℕ → Bool
is_live none = true
is_live (some at) = false

abbrev pub is_live_session : ℕ → ℕ → Session → Bool
is_live_session user id s = s.id == id && (s.user_id == user && is_live s.revoked_at)

abbrev pub logged_out : ℕ → Session → Session
logged_out now s = record s { revoked_at = some now; revoke_reason = some logout; updated_at = now }

-- RevokeSessionLogout.
unfoldable pub revoke_session_logout : Bool → ℕ → ℕ → ℕ → Db (Unit {0})
revoke_session_logout configured user id now =
    if not configured
    then fail not_configured
    else query λ env t.
      ok (tt, record t { sessions = update (is_live_session user id) (logged_out now) t.sessions })

-- handleAuthLogout behind bearerAuthHandler; `session` is SessionIDFromContext.
unfoldable pub handle_auth_logout : Bool → ℕ → Option ℕ → Handler (Unit {0})
unfolding revoke_session_logout
handle_auth_logout configured user none w = (success tt, w)
handle_auth_logout configured user (some sid) w =
    elim (revoke_session_logout configured user sid w.env.now w).0 [
      | ok _ ↦ (success tt, (revoke_session_logout configured user sid w.env.now w).1)
      | err e ↦ (
        api_error 500 "internal_error",
        (revoke_session_logout configured user sid w.env.now w).1,
      )
    ]

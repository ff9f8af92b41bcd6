-- ===== src/Auth/Login.antt =====
-- Logging in: completeAuthLogin of internal/server/routes_auth.go, which answers with an access token
-- and, to the app, with a session.
pub mod Web
pub mod App
pub mod Live
pub mod Callback
pub mod Routes
use foreignreader_be.Base.{
  ℕ, ◌+◌, ◌/◌, String, str_eq, Bool, true, false, ◌&&◌, not, Option, none, some, if◌then◌else◌,
  trim_space, is_empty, lower_eq, split, List, [], ◌∷◌, ℤ,
}
use foreignreader_be.Schema.{User}
use foreignreader_be.Db.{
  Error, no_rows, Result, ok, err, World, Db, pure, fail, guard, attempt, get_now, ◌>>=◌, ◌>>◌,
}
use foreignreader_be.Http.{Response, success, api_error, Handler, reject, reject_if}
use foreignreader_be.Entitlement.{is_owner}
use foreignreader_be.Auth.User.{
  MockClaimsInput, has_identity, login_or_register_mock, login_existing_by_identity,
}
use foreignreader_be.Auth.Token.{
  TokenLibrary, TokenIssuer, issue_access_token, issue_web_access_token, token_type_app,
  token_type_web,
}
use foreignreader_be.Auth.Provider.{
  Payload, Verified, verified, not_initialised, refused, verify_google,
}
use foreignreader_be.Auth.Provider.Apple.{AppleLibrary, verify_apple}
use foreignreader_be.Auth.Session.{generate_refresh_token, insert_auth_session, delete_auth_session}

-- authLoginResponse, with the user's row in place of its public fields.
pub record AuthLoginResponse : Type 0 where
  pub access_token : String
  pub access_token_expires_at : ℕ
  pub refresh_token : String
  pub user : User
  pub token_type : String
  pub expires_in : ℕ
  pub is_owner : Bool

-- authRequestSource.
pub data AuthRequestSource : Type 0 where
  app web : AuthRequestSource

-- What the login routes take from the configuration and the stores.
pub record LoginConfig : Type 0 where
  pub app_env : String
  pub auth_dev_mode : Bool
  pub access_token_ttl : ℕ
  pub refresh_session_ttl : ℕ
  pub free_context_translations_per_month : ℕ
  pub apple_audience : String
  pub apple_jwks_cache_ttl : ℤ

-- MockAuthAllowed. Lowering and trimming commute.
unfoldable pub mock_auth_allowed : LoginConfig → Bool
mock_auth_allowed cfg = cfg.auth_dev_mode && not (lower_eq (trim_space cfg.app_env) "production")

abbrev pub second : ℕ
second = 1_000_000_000

module _ (lib : TokenLibrary) (issuer : TokenIssuer) (hash : String → String) where
  -- `isOwner, err := entStore.IsOwner(…)`; an error is no owner.
  abbrev pub owner_or_false : Result Bool → Bool
  owner_or_false (ok b) = b
  owner_or_false (err e) = false

  abbrev pub web_token : LoginConfig → User → Option (String × ℕ) → Handler AuthLoginResponse
  web_token cfg u none = reject 500 "auth_failed"
  web_token cfg u (some (token, expires)) = λ w. (
    success (record {
      access_token = token;
      access_token_expires_at = expires;
      refresh_token = "";
      user = u;
      token_type = token_type_web;
      expires_in = cfg.access_token_ttl / second;
      is_owner = owner_or_false (is_owner u.id w).0;
    }),
    (is_owner u.id w).1,
  )

  abbrev pub web_user :
      LoginConfig → String → Result User × World → Response AuthLoginResponse × World
  web_user cfg provider (err Error.no_rows, w) = (api_error 404 "web_account_required", w)
  web_user cfg provider (err e, w) = (api_error 500 "internal_error", w)
  web_user cfg provider (ok u, w) =
      web_token cfg u (issue_web_access_token lib issuer w.env.now u.id provider) w

  -- completeAuthLogin, `case authRequestSourceWeb`.
  unfoldable pub web_login : LoginConfig → String → MockClaimsInput → Handler AuthLoginResponse
  unfolding login_existing_by_identity issue_web_access_token is_owner
  web_login cfg provider c w = web_user cfg provider (login_existing_by_identity true provider c w)

  abbrev pub app_token :
      LoginConfig → User → String → ℕ → Option (String × ℕ) → Handler AuthLoginResponse
  app_token cfg u raw session none =
      λ w. (api_error 500 "auth_failed", (delete_auth_session session w).1)
  app_token cfg u raw session (some (token, expires)) = λ w. (
    success (record {
      access_token = token;
      access_token_expires_at = expires;
      refresh_token = raw;
      user = u;
      token_type = token_type_app;
      expires_in = cfg.access_token_ttl / second;
      is_owner = false;
    }),
    w,
  )

  abbrev pub app_session :
      LoginConfig → String → User → String → Result ℕ × World → Response AuthLoginResponse × World
  app_session cfg provider u raw (err e, w) = (api_error 500 "auth_failed", w)
  app_session cfg provider u raw (ok session, w) =
      app_token cfg u raw session (issue_access_token lib issuer w.env.now u.id provider session) w

  abbrev pub app_refresh :
      LoginConfig
      → String
      → User
      → Result (String × String) × World
      → Response AuthLoginResponse × World
  app_refresh cfg provider u (err e, w) = (api_error 500 "auth_failed", w)
  app_refresh cfg provider u (ok (raw, hashed), w) =
      app_session cfg provider u raw
        (insert_auth_session u.id provider hashed (w.env.now + cfg.refresh_session_ttl) w.env.now w)

  abbrev pub app_user :
      LoginConfig → String → Result User × World → Response AuthLoginResponse × World
  app_user cfg provider (err e, w) = (api_error 500 "auth_failed", w)
  app_user cfg provider (ok u, w) =
      app_refresh cfg provider u (generate_refresh_token hash (λ _ _ _. none) w)

  abbrev pub app_known :
      LoginConfig
      → String
      → MockClaimsInput
      → Result Bool × World
      → Response AuthLoginResponse × World
  app_known cfg provider c (err e, w) = (api_error 500 "internal_error", w)
  app_known cfg provider c (ok reused, w) =
      app_user cfg provider
        (login_or_register_mock true cfg.free_context_translations_per_month provider c w)

  -- completeAuthLogin, `case authRequestSourceApp`.
  unfoldable pub app_login : LoginConfig → String → MockClaimsInput → Handler AuthLoginResponse
  unfolding has_identity login_or_register_mock generate_refresh_token insert_auth_session
      issue_access_token delete_auth_session
  app_login cfg provider c w = app_known cfg provider c (has_identity provider (trim_space c.sub) w)

  -- completeAuthLogin.
  unfoldable pub complete_auth_login :
      LoginConfig → String → MockClaimsInput → AuthRequestSource → Handler AuthLoginResponse
  unfolding web_login app_login
  complete_auth_login cfg provider c AuthRequestSource.web = web_login cfg provider c
  complete_auth_login cfg provider c AuthRequestSource.app = app_login cfg provider c

-- ===== src/Auth/Login/Callback/Known.antt =====
-- What a callback of Sign in with Apple can do.
use foreignreader_be.Base.{
  ℕ, ◌≡◌, refl, String, Bool, true, false, not, Option, none, some, trim_space, is_empty,
}
use foreignreader_be.Schema.{Tables}
use foreignreader_be.Db.{World}
use foreignreader_be.Http.{Response, success, api_error, Handler, reject_if}
use foreignreader_be.Auth.User.Merge.{directory, IsSound}
use foreignreader_be.Auth.User.Frame.{accounts}
use foreignreader_be.Auth.Token.{TokenLibrary, TokenIssuer}
use foreignreader_be.Auth.Provider.{Verified, verified, not_initialised, refused}
use foreignreader_be.Auth.Provider.Apple.{AppleLibrary, verify_apple}
use foreignreader_be.Auth.Login.{AuthLoginResponse, LoginConfig}
use foreignreader_be.Auth.Login.Web.{web_login-known}
use foreignreader_be.Auth.Login.Callback.{
  WebLibrary, WebConfig, CallbackValues, with_first, apple_web_sign_in_configured,
  generate_apple_web_client_secret, exchange_apple_authorization_code, parse_apple_web_user_query,
  callback_claims, callback_token, callback_secret, callback_code, callback_unless_denied,
  callback_values, apple_web_callback,
}

-- The answer was given with the same users, identities and sessions, and a success is for a user whom
-- the directory had for a subject at Apple.
abbrev pub MakesNothing : Response AuthLoginResponse → Tables → Tables → Type 0
MakesNothing answer t t' =
    (accounts t' ≡ accounts t)
    × (t'.sessions ≡ t.sessions)
    × ((a : AuthLoginResponse)
        → answer ≡ success a
        → (sub : String) × (directory t "apple" sub ≡ some a.user.id))

rejected : (status : ℕ) (code : String) (t : Tables) → MakesNothing (api_error status code) t t
rejected status code t = (refl, refl, λ a h. cc)

reject_if-MakesNothing :
    (b : Bool) (status : ℕ) (code : String) (next : Handler AuthLoginResponse) (w : World)
    → MakesNothing (next w).0 w.tables (next w).1.tables
    → let end = reject_if b status code next w in MakesNothing end.0 w.tables end.1.tables
reject_if-MakesNothing true status code next w h = rejected status code w.tables
reject_if-MakesNothing false status code next w h = h

module _ (web : WebLibrary) (uuid_string time_text : ℕ → String) (cfg : WebConfig)
    (lib : TokenLibrary) (issuer : TokenIssuer) (hash : String → String) (login : LoginConfig)
    (apple : AppleLibrary) where
  claims-MakesNothing :
      (v : CallbackValues) (c : Verified) (w : World)
      → IsSound w.tables
      → let end = callback_claims web uuid_string time_text cfg lib issuer hash login apple v c w in
        MakesNothing end.0 w.tables end.1.tables
  claims-MakesNothing v not_initialised w sound = rejected 500 "internal_error" w.tables
  claims-MakesNothing v refused w sound = rejected 401 "invalid_apple_token" w.tables
  claims-MakesNothing v (verified c) w sound =
      let c' = with_first (parse_apple_web_user_query web v.user) c in
      let (accounts, sessions, known) = web_login-known lib issuer hash login "apple" c' w sound in
      (accounts, sessions, λ a h. (trim_space c'.sub, known a h))

  token-MakesNothing :
      (v : CallbackValues) (t : Option String) (w : World)
      → IsSound w.tables
      → let end = callback_token web uuid_string time_text cfg lib issuer hash login apple v t w in
        MakesNothing end.0 w.tables end.1.tables
  token-MakesNothing v none w sound = rejected 401 "apple_token_exchange_failed" w.tables
  token-MakesNothing v (some t) w sound =
      claims-MakesNothing v
        (verify_apple apple cfg.apple_web_client_id login.apple_jwks_cache_ttl w.env.now t none) w
        sound

  secret-MakesNothing :
      (v : CallbackValues) (s : Option String) (w : World)
      → IsSound w.tables
      → let end = callback_secret web uuid_string time_text cfg lib issuer hash login apple v s w in
        MakesNothing end.0 w.tables end.1.tables
  secret-MakesNothing v none w sound = rejected 500 "internal_error" w.tables
  secret-MakesNothing v (some s) w sound =
      token-MakesNothing v
        (exchange_apple_authorization_code web cfg.apple_web_client_id s cfg.apple_web_redirect_url
          (trim_space v.code))
        w sound

  values-MakesNothing :
      (v : Option CallbackValues) (w : World)
      → IsSound w.tables
      → let end = callback_values web uuid_string time_text cfg lib issuer hash login apple v w in
        MakesNothing end.0 w.tables end.1.tables
  values-MakesNothing none w sound = rejected 400 "malformed_callback" w.tables
  values-MakesNothing (some v) w sound =
      reject_if-MakesNothing (not (is_empty (trim_space v.error))) 400 "oauth_denied"
        (callback_unless_denied web uuid_string time_text cfg lib issuer hash login apple v) w
        (reject_if-MakesNothing (is_empty (trim_space v.code)) 400 "missing_code"
          (callback_code web uuid_string time_text cfg lib issuer hash login apple v) w
          (secret-MakesNothing v
            (generate_apple_web_client_secret web cfg.apple_team_id cfg.apple_web_client_id
              cfg.apple_web_sign_in_key_id cfg.apple_web_private_key w.env.now)
            w sound))

  -- If the identities have users and are distinct: however a callback of Sign in with Apple ends,
  -- there are the same users, identities and sessions as before, and a success is for a user whom
  -- the directory had for a subject at Apple.
  pub apple_web_callback-MakesNothing :
      (values : Option CallbackValues) (w : World)
      → IsSound w.tables
      → let end =
          apple_web_callback web uuid_string time_text cfg lib issuer hash login apple values w in
        MakesNothing end.0 w.tables end.1.tables
  unfolding apple_web_callback
  apple_web_callback-MakesNothing values w sound =
      reject_if-MakesNothing (not (apple_web_sign_in_configured cfg)) 503 "service_unavailable"
        (callback_values web uuid_string time_text cfg lib issuer hash login apple values) w
        (values-MakesNothing values w sound)

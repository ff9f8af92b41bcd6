-- ===== src/Auth/Login/Routes.antt =====
-- The login routes: handleAuthApple and handleAuthGoogle of internal/server/routes_auth.go, which
-- check an identity token, or in development take mock claims, and then log in.
pub mod Guard
pub mod Apple
pub mod Google
use foreignreader_be.Base.{
  ℕ, ◌+◌, ◌/◌, String, str_eq, Bool, true, false, ◌&&◌, not, Option, none, some, if◌then◌else◌,
  trim_space, is_empty, lower_eq, split, List, [], ◌∷◌, ℤ,
}
use foreignreader_be.Schema.{User}
use foreignreader_be.Db.{
  Error, no_rows, Result, ok, err, World, Db, pure, fail, guard, attempt, get_now, ◌>>=◌, ◌>>◌,
}
use foreignreader_be.Http.{Response, success, api_error, Handler, reject, reject_if}
use foreignreader_be.Entitlement.{is_owner}
use foreignreader_be.Auth.User.{
  MockClaimsInput, has_identity, login_or_register_mock, login_existing_by_identity,
}
use foreignreader_be.Auth.Token.{
  TokenLibrary, TokenIssuer, issue_access_token, issue_web_access_token, token_type_app,
  token_type_web,
}
use foreignreader_be.Auth.Provider.{
  Payload, Verified, verified, not_initialised, refused, verify_google,
}
use foreignreader_be.Auth.Provider.Apple.{AppleLibrary, verify_apple}
use foreignreader_be.Auth.Session.{generate_refresh_token, insert_auth_session, delete_auth_session}
use foreignreader_be.Auth.Login.{
  AuthLoginResponse, AuthRequestSource, LoginConfig, mock_auth_allowed, complete_auth_login,
  web_login, app_login,
}

-- parseAuthRequestSourceField: none is a source that is missing, or else invalid. Lowering and
-- trimming commute.
pub data ParsedSource : Type 0 where
  parsed : AuthRequestSource → ParsedSource
  missing invalid : ParsedSource

unfoldable pub parse_auth_request_source_field : String → ParsedSource
parse_auth_request_source_field s =
    let t = trim_space s in
    if lower_eq t "app"
    then parsed AuthRequestSource.app
    else if lower_eq t "web"
    then parsed AuthRequestSource.web
    else if is_empty t
    then missing
    else invalid

-- appleAuthRequest and googleAuthRequest; Google's has no nonce and no profile.
pub record AuthRequest : Type 0 where
  pub source : String
  pub token : String
  pub nonce : Option String
  pub email : Option String
  pub full_name : Option String
  pub mock_claims : Option MockClaimsInput

-- A text field of the body that is not blank replaces the verified one.
abbrev pub hint : Option String → Option String → Option String
hint none old = old
hint (some s) old = if is_empty (trim_space s) then old else some (trim_space s)

-- handleAppleOIDC between the verification and the login.
unfoldable pub with_hints : Option String → Option String → MockClaimsInput → MockClaimsInput
with_hints email full_name c = record c {
  email = hint email c.email;
  display_name = hint full_name c.display_name;
}

-- The verified claims take the hints of the body.
abbrev pub hinted : AuthRequest → Verified → Verified
hinted r not_initialised = not_initialised
hinted r refused = refused
hinted r (verified c) = verified (with_hints r.email r.full_name c)

module _ (lib : TokenLibrary) (issuer : TokenIssuer) (hash : String → String) where
  abbrev pub mock_login :
      LoginConfig → String → AuthRequestSource → MockClaimsInput → Handler AuthLoginResponse
  mock_login cfg provider source m = reject_if (is_empty (trim_space m.sub)) 400 "invalid_request" (
      complete_auth_login lib issuer hash cfg provider (record m { sub = trim_space m.sub }) source)

  abbrev pub oidc_login :
      LoginConfig → String → String → AuthRequestSource → Verified → Handler AuthLoginResponse
  oidc_login cfg provider refusal source not_initialised = reject 500 "internal_error"
  oidc_login cfg provider refusal source refused = reject 401 refusal
  oidc_login cfg provider refusal source (verified c) =
      complete_auth_login lib issuer hash cfg provider c source

  abbrev pub mock_or_oidc :
      LoginConfig
      → String
      → String
      → AuthRequestSource
      → Verified
      → Option MockClaimsInput
      → Handler AuthLoginResponse
  mock_or_oidc cfg provider refusal source v none = oidc_login cfg provider refusal source v
  mock_or_oidc cfg provider refusal source v (some m) =
      reject_if (not (mock_auth_allowed cfg)) 403 "mock_auth_disabled"
        (mock_login cfg provider source m)

  abbrev pub sourced :
      LoginConfig
      → String
      → String
      → String
      → AuthRequest
      → Verified
      → ParsedSource
      → Handler AuthLoginResponse
  sourced cfg provider missing_token refusal r v missing = reject 400 "missing_source"
  sourced cfg provider missing_token refusal r v invalid = reject 400 "invalid_source"
  sourced cfg provider missing_token refusal r v (parsed source) =
      reject_if (is_empty (trim_space r.token)) 400 missing_token
        (mock_or_oidc cfg provider refusal source v r.mock_claims)

  abbrev pub apple_decoded :
      (ℕ → String → Option String → Verified)
      → LoginConfig
      → Option AuthRequest
      → Handler AuthLoginResponse
  apple_decoded verify cfg none = reject 400 "invalid_request"
  apple_decoded verify cfg (some r) = λ w.
      sourced cfg "apple" "missing_identity_token" "invalid_apple_token" r
        (hinted r (verify w.env.now (trim_space r.token) r.nonce))
        (parse_auth_request_source_field r.source) w

  -- handleAuthApple with handleAppleOIDC; the body is none if reading or decoding it failed.
  unfoldable pub handle_auth_apple :
      AppleLibrary → LoginConfig → Bool → Option AuthRequest → Handler AuthLoginResponse
  unfolding complete_auth_login parse_auth_request_source_field mock_auth_allowed with_hints
      verify_apple
  handle_auth_apple apple cfg is_json body =
      reject_if (not is_json) 415 "invalid_request"
        (apple_decoded (verify_apple apple cfg.apple_audience cfg.apple_jwks_cache_ttl) cfg body)

  abbrev pub google_decoded :
      (String → Verified) → LoginConfig → Option AuthRequest → Handler AuthLoginResponse
  google_decoded verify cfg none = reject 400 "invalid_request"
  google_decoded verify cfg (some r) =
      sourced cfg "google" "missing_id_token" "invalid_google_token" r (verify (trim_space r.token))
        (parse_auth_request_source_field r.source)

  -- handleAuthGoogle with handleGoogleOIDC; `validate` is `idtoken.Validate` for the configured client.
  unfoldable pub handle_auth_google :
      (String → Option Payload)
      → LoginConfig
      → Bool
      → Option AuthRequest
      → Handler AuthLoginResponse
  unfolding complete_auth_login parse_auth_request_source_field mock_auth_allowed verify_google
  handle_auth_google validate cfg is_json body =
      reject_if (not is_json) 415 "invalid_request"
        (google_decoded (verify_google validate) cfg body)

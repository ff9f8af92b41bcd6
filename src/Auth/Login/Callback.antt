-- ===== src/Auth/Login/Callback.antt =====
-- internal/server/routes_auth_apple_web.go and internal/auth/apple_web.go: Sign in with Apple on the
-- web. The key's parsing and signing, the calls to Apple, and net/url are parameters.
pub mod Known
use foreignreader_be.Base.{
  ◌-◌, leb, negsuc, pos, ℕ, ◌+◌, ◌/◌, String, str_eq, Bool, true, false, ◌&&◌, ◌||◌, not, List, [],
  ◌∷◌, Option, none, some, ℤ, ◌==◌, if◌then◌else◌, append, trim_space, is_empty,
}
use Prim.Native.Char.{Char, code}
use foreignreader_be.Schema.{User}
use foreignreader_be.Db.{Error, no_rows, Result, ok, err, World}
use foreignreader_be.Http.{Response, success, api_error, Handler, reject, reject_if}
use foreignreader_be.Auth.User.{MockClaimsInput, login_existing_by_identity}
use foreignreader_be.Auth.Token.{TokenLibrary, TokenIssuer}
use foreignreader_be.Auth.Provider.{Verified, verified, not_initialised, refused}
use foreignreader_be.Auth.Provider.Apple.{AppleLibrary, verify_apple}
use foreignreader_be.Auth.Login.{AuthLoginResponse, LoginConfig, web_user, web_login}

-- The claims of the client secret; instants are in seconds since 1970.
pub record SecretClaims : Type 0 where
  pub iss : String
  pub iat : ℤ
  pub exp : ℤ
  pub aud : String
  pub sub : String

-- AppleWebUserParam; a missing name is none.
pub record AppleWebUserParam : Type 0 where
  pub name : Option (String × String)
  pub email : String

-- The calls of the libraries: signing with the key of a PEM text (none if it is not an EC key) and a
-- key id; Apple's token endpoint, none or the id_token of its answer; the decoded `user` parameter;
-- and a URL with query parameters set, none unless the base has a scheme and a host.
pub record WebLibrary : Type 0 where
  pub sign_es256 : String → String → SecretClaims → Option String
  pub exchange : String → String → String → String → Option String
  pub decode_user : String → Option AppleWebUserParam
  pub with_query : String → List (String × String) → Option String

-- The settings of Sign in with Apple on the web.
pub record WebConfig : Type 0 where
  pub apple_team_id : String
  pub apple_web_client_id : String
  pub apple_web_sign_in_key_id : String
  pub apple_web_private_key : String
  pub apple_web_redirect_url : String
  pub apple_web_success_redirect_url : String
  pub apple_web_account_required_redirect_url : String

-- AppleWebSignInConfigured of internal/config.
unfoldable pub apple_web_sign_in_configured : WebConfig → Bool
apple_web_sign_in_configured c =
    not (is_empty (trim_space c.apple_web_client_id))
    && (not (is_empty (trim_space c.apple_web_redirect_url))
        && (not (is_empty (trim_space c.apple_team_id))
            && (not (is_empty (trim_space c.apple_web_sign_in_key_id))
                && not (is_empty (trim_space c.apple_web_private_key)))))

-- The parameters of the callback.
pub record CallbackValues : Type 0 where
  pub error : String
  pub code : String
  pub user : String

-- What is answered: a redirect, or JSON.
pub data Answer : Type 0 where
  redirect : String → Answer
  json : Response AuthLoginResponse → Answer

-- `t.Unix()`: 62135596800 seconds pass from Go's zero time to 1970.
abbrev pub unix_seconds : ℕ → ℤ
unix_seconds t =
    let s = t / 1_000_000_000 in
    if leb 62_135_596_800 s then pos (s - 62_135_596_800) else negsuc (62_135_596_799 - s)

abbrev pub secret_claims : String → String → ℕ → SecretClaims
secret_claims team services now = record {
  iss = team;
  iat = unix_seconds now;
  exp = unix_seconds (now + 300_000_000_000);
  aud = "https://appleid.apple.com";
  sub = services;
}

-- What Apple tells of the user at the first login.
abbrev pub full_name : Option (String × String) → Option String → Option String
full_name none old = old
full_name (some (first, last)) old =
    let name = trim_space (append first (append " " last)) in
    if is_empty name then old else some name

abbrev pub with_email : String → MockClaimsInput → MockClaimsInput
with_email email c =
    if is_empty (trim_space email)
    then c
    else record c { email = some (trim_space email); email_verified = some true }

abbrev pub with_first : Option AppleWebUserParam → MockClaimsInput → MockClaimsInput
with_first none c = c
with_first (some u) c =
    let c' = with_email u.email c in record c' { display_name = full_name u.name c'.display_name }

abbrev unescaped : Char → String → String
unescaped c String.[] = String.◌∷◌ c String.[]
unescaped c (String.◌∷◌ d s) =
    if code c == 92 && code d == b'n' then append "\n" s else String.◌∷◌ c (String.◌∷◌ d s)

-- `strings.ReplaceAll(s, `\n`, "\n")`: a backslash and an n become a line feed.
unfoldable pub unescape_newlines : String → String
unescape_newlines String.[] = String.[]
unescape_newlines (String.◌∷◌ c s) = unescaped c (unescape_newlines s)

module _ (web : WebLibrary) where
  -- GenerateAppleWebClientSecret; an empty key is not an EC key.
  unfoldable pub generate_apple_web_client_secret :
      String → String → String → String → ℕ → Option String
  unfolding unescape_newlines
  generate_apple_web_client_secret team services key_id pem now =
      if is_empty (trim_space team)
        || is_empty (trim_space services)
        || is_empty (trim_space key_id)
      then none
      else if is_empty (trim_space pem)
      then none
      else web.sign_es256 (unescape_newlines (trim_space pem)) (trim_space key_id)
          (secret_claims (trim_space team) (trim_space services) now)

  abbrev with_id_token : Option String → Option String
  with_id_token none = none
  with_id_token (some t) = if is_empty (trim_space t) then none else some t

  -- ExchangeAppleAuthorizationCode, as far as its id_token.
  unfoldable pub exchange_apple_authorization_code :
      String → String → String → String → Option String
  exchange_apple_authorization_code client secret redirect_uri code = with_id_token (
      web.exchange (trim_space client) (trim_space secret) (trim_space redirect_uri)
        (trim_space code))

  -- ParseAppleWebUserQuery, whose errors the handler ignores.
  unfoldable pub parse_apple_web_user_query : String → Option AppleWebUserParam
  parse_apple_web_user_query s =
      if is_empty (trim_space s) then none else web.decode_user (trim_space s)

  module _ (uuid_string : ℕ → String) (time_text : ℕ → String) (cfg : WebConfig) where
    abbrev bool_text : Bool → String
    bool_text true = "true"
    bool_text false = "false"

    abbrev expiry_parameter : ℕ → List (String × String)
    expiry_parameter at = if at == 0 then [] else ("accessTokenExpiresAt", time_text at) ∷ []

    abbrev or_json : Response AuthLoginResponse → Option String → Answer
    or_json r none = json r
    or_json r (some url) = redirect url

    abbrev redirected : String → List (String × String) → Option String
    redirected dest parameters =
        if is_empty (trim_space dest) then none else web.with_query (trim_space dest) parameters

    -- respondAppleWebCallback.
    unfoldable pub respond_apple_web_callback : Response AuthLoginResponse → Answer
    respond_apple_web_callback (success a) = or_json (success a) (
        redirected cfg.apple_web_success_redirect_url (
          ("accessToken", a.access_token)
          ∷ ("tokenType", a.token_type)
          ∷ ("userId", uuid_string a.user.id)
          ∷ ("isOwner", bool_text a.is_owner)
          ∷ expiry_parameter a.access_token_expires_at))
    respond_apple_web_callback (api_error status code) =
        if str_eq code "web_account_required"
        then or_json (api_error status code) (
            redirected cfg.apple_web_account_required_redirect_url (
              ("error_code", code)
              ∷ (
                "error_message",
                "No account exists for this sign-in. Install the mobile app and create an account first; web sign-in cannot register new users.",
              )
              ∷ []))
        else json (api_error status code)

    module _ (lib : TokenLibrary) (issuer : TokenIssuer) (hash : String → String)
        (login : LoginConfig) (apple : AppleLibrary) where
      abbrev pub callback_claims : CallbackValues → Verified → Handler AuthLoginResponse
      callback_claims v not_initialised = reject 500 "internal_error"
      callback_claims v refused = reject 401 "invalid_apple_token"
      callback_claims v (verified c) =
          web_login lib issuer hash login "apple" (with_first (parse_apple_web_user_query v.user) c)

      abbrev pub callback_token : CallbackValues → Option String → Handler AuthLoginResponse
      callback_token v none = reject 401 "apple_token_exchange_failed"
      callback_token v (some id_token) = λ w.
          callback_claims v
            (verify_apple apple cfg.apple_web_client_id login.apple_jwks_cache_ttl w.env.now
              id_token none)
            w

      abbrev pub callback_secret : CallbackValues → Option String → Handler AuthLoginResponse
      callback_secret v none = reject 500 "internal_error"
      callback_secret v (some secret) = callback_token v (
          exchange_apple_authorization_code cfg.apple_web_client_id secret
            cfg.apple_web_redirect_url (trim_space v.code))

      abbrev pub callback_code : CallbackValues → Handler AuthLoginResponse
      callback_code v w =
          callback_secret v
            (generate_apple_web_client_secret cfg.apple_team_id cfg.apple_web_client_id
              cfg.apple_web_sign_in_key_id cfg.apple_web_private_key w.env.now)
            w

      abbrev pub callback_unless_denied : CallbackValues → Handler AuthLoginResponse
      callback_unless_denied v =
          reject_if (is_empty (trim_space v.code)) 400 "missing_code" (callback_code v)

      abbrev pub callback_values : Option CallbackValues → Handler AuthLoginResponse
      callback_values none = reject 400 "malformed_callback"
      callback_values (some v) =
          reject_if (not (is_empty (trim_space v.error))) 400 "oauth_denied"
            (callback_unless_denied v)

      -- handleAppleWebCallback up to its answer; the values are none if the form is malformed.
      unfoldable pub apple_web_callback : Option CallbackValues → Handler AuthLoginResponse
      unfolding web_login verify_apple generate_apple_web_client_secret
          exchange_apple_authorization_code parse_apple_web_user_query apple_web_sign_in_configured
      apple_web_callback values =
          reject_if (not (apple_web_sign_in_configured cfg)) 503 "service_unavailable"
            (callback_values values)

      -- handleAppleWebCallback.
      unfoldable pub handle_apple_web_callback : Option CallbackValues → World → Answer × World
      unfolding apple_web_callback respond_apple_web_callback
      handle_apple_web_callback values w = (
        respond_apple_web_callback (apple_web_callback values w).0,
        (apple_web_callback values w).1,
      )

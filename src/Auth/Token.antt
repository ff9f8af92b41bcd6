-- ===== src/Auth/Token.antt =====
-- internal/auth/jwt.go: access tokens, and internal/server/auth_middleware.go, which lets a request
-- in by its token. github.com/golang-jwt/jwt and github.com/google/uuid are parameters.
pub mod RoundTrip
pub mod Bearer
use foreignreader_be.Base.{
  ℕ, ◌+◌, ◌<◌, ◌≡◌, ◌≢◌, String, str_eq, Bool, true, false, ◌||◌, not, List, [], ◌∷◌, Option, none,
  some, ℤ, is_positive, to_ℕ, ◌==◌, if◌then◌else◌, trim_space, is_empty, codes, lower_code,
}
use Prim.Native.Char.{code}
use foreignreader_be.Schema.{User, Tables}
use foreignreader_be.Db.{no_rows, Error, Result, ok, err, World}
use foreignreader_be.Http.{Response, success, api_error, Handler, reject}
use foreignreader_be.Auth.User.{user_by_id}

-- AccessClaims. An empty text is a claim that `omitempty` leaves out.
pub record AccessClaims : Type 0 where
  pub provider : String
  pub token_type : String
  pub channel : String
  pub sid : String
  pub subject : String
  pub issued_at : ℕ
  pub expires_at : ℕ

-- `token.Method`, as far as the code looks at it.
pub data Method : Type 0 where
  hs256 other_method : Method

-- The calls of the two libraries: `SignedString`, `ParseWithClaims` at an instant, with the function
-- that gives the key for a method, `NewNumericDate`, `UUID.String` and `uuid.Parse`.
pub record TokenLibrary : Type 0 where
  pub signed_string : Method → String → AccessClaims → Option String
  pub parse_with_claims : ℕ → (Method → Option String) → String → Option AccessClaims
  pub new_numeric_date : ℕ → ℕ
  pub uuid_string : ℕ → String
  pub uuid_parse : String → Option ℕ

-- What they document: a signed token is one word, and is parsed with the key that signed it until it
-- expires, if its dates are such as NewNumericDate makes, which cuts off parts of a second; a uuid is printed as one word, which is parsed back.
pub record IsTokenLibrary (lib : TokenLibrary) : Type 0 where
  pub parses :
      (method : Method) (key : String) (c : AccessClaims) (token : String) (now : ℕ)
      (key_of : Method → Option String) (issued expires : ℕ)
      → c.issued_at ≡ lib.new_numeric_date issued
      → c.expires_at ≡ lib.new_numeric_date expires
      → lib.signed_string method key c ≡ some token
      → key_of method ≡ some key
      → now < c.expires_at
      → lib.parse_with_claims now key_of token ≡ some c
  pub token_is_word :
      (method : Method) (key : String) (c : AccessClaims) (token : String)
      → lib.signed_string method key c ≡ some token
      → (trim_space token ≡ token) × (is_empty token ≡ false)
  pub uuid_is_word :
      (u : ℕ)
      → (trim_space (lib.uuid_string u) ≡ lib.uuid_string u)
        × (is_empty (lib.uuid_string u) ≡ false)
  pub uuid_parses : (u : ℕ) → lib.uuid_parse (lib.uuid_string u) ≡ some u

-- TokenIssuer.
pub record TokenIssuer : Type 0 where
  pub secret : String
  pub access_token_ttl : ℕ

-- NewTokenIssuer.
unfoldable pub new_token_issuer : String → ℤ → Option TokenIssuer
new_token_issuer secret ttl =
    if is_empty (trim_space secret)
    then none
    else if is_positive ttl
    then some (record { secret = trim_space secret; access_token_ttl = to_ℕ ttl })
    else none

abbrev pub token_type_app : String
token_type_app = "app"

abbrev pub token_type_web : String
token_type_web = "web"

-- The `switch` on the token's type.
abbrev pub is_accepted_type : String → String → Bool
is_accepted_type token_type channel =
    if str_eq token_type "" || str_eq token_type token_type_app
    then true
    else if str_eq token_type token_type_web
    then str_eq channel token_type_web
    else false

module _ (lib : TokenLibrary) where
  abbrev pub app_claims : ℕ → ℕ → ℕ → String → ℕ → AccessClaims
  app_claims now expires user provider sid = record {
    provider = provider;
    token_type = "";
    channel = "";
    sid = if sid == 0 then "" else lib.uuid_string sid;
    subject = lib.uuid_string user;
    issued_at = lib.new_numeric_date now;
    expires_at = lib.new_numeric_date expires;
  }

  abbrev pub with_expiry : Option String → ℕ → Option (String × ℕ)
  with_expiry none expires = none
  with_expiry (some token) expires = some (token, expires)

  -- IssueAccessToken.
  unfoldable pub issue_access_token : TokenIssuer → ℕ → ℕ → String → ℕ → Option (String × ℕ)
  issue_access_token t now user provider sid =
      let expires = now + t.access_token_ttl in
      with_expiry (lib.signed_string hs256 t.secret (app_claims now expires user provider sid))
        expires

  abbrev pub web_claims : ℕ → ℕ → ℕ → String → AccessClaims
  web_claims now expires user provider = record {
    provider = provider;
    token_type = token_type_web;
    channel = token_type_web;
    sid = "";
    subject = lib.uuid_string user;
    issued_at = lib.new_numeric_date now;
    expires_at = lib.new_numeric_date expires;
  }

  -- IssueWebAccessToken.
  unfoldable pub issue_web_access_token : TokenIssuer → ℕ → ℕ → String → Option (String × ℕ)
  issue_web_access_token t now user provider =
      let expires = now + t.access_token_ttl in
      with_expiry (lib.signed_string hs256 t.secret (web_claims now expires user provider)) expires

  -- The function that ParseAccessToken gives to `ParseWithClaims`.
  abbrev pub secret_for : TokenIssuer → Method → Option String
  secret_for t hs256 = some t.secret
  secret_for t other_method = none

  abbrev pub session_of : String → Option ℕ
  session_of s = if is_empty s then some 0 else lib.uuid_parse s

  abbrev pub identified : Option ℕ → String → Option ℕ → Option (ℕ × String × ℕ)
  identified none provider sid = none
  identified (some user) provider none = none
  identified (some user) provider (some sid) = some (user, provider, sid)

  abbrev pub accept : Option AccessClaims → Option (ℕ × String × ℕ)
  accept none = none
  accept (some c) =
      if is_empty (trim_space c.subject) || is_empty (trim_space c.provider)
      then none
      else if not (is_accepted_type (trim_space c.token_type) (trim_space c.channel))
      then none
      else identified (lib.uuid_parse (trim_space c.subject)) (trim_space c.provider)
          (session_of (trim_space c.sid))

  -- ParseAccessToken: the user, the provider and the session, which is 0 (`uuid.Nil`) if the token
  -- names none.
  unfoldable pub parse_access_token : TokenIssuer → ℕ → String → Option (ℕ × String × ℕ)
  parse_access_token t now token = accept (lib.parse_with_claims now (secret_for t) token)

-- What follows a prefix that is spelt in lower case, compared without regard to case.
abbrev pub after_prefix : List ℕ → String → Option String
after_prefix [] s = some s
after_prefix (d ∷ ds) String.[] = none
after_prefix (d ∷ ds) (String.◌∷◌ c s) =
    let rest = after_prefix ds s in if lower_code (code c) == d then rest else none

abbrev pub bearer_token : Option String → Option String
bearer_token none = none
bearer_token (some s) = if is_empty (trim_space s) then none else some (trim_space s)

-- parseBearer.
unfoldable pub parse_bearer : String → Option String
unfolding lower_code
parse_bearer header = bearer_token (after_prefix (codes "bearer ") (trim_space header))

-- SessionIDFromContext, of the session id that the token carried.
abbrev pub session_from_context : ℕ → Option ℕ
session_from_context sid = if sid == 0 then none else some sid

module _ {ℓ} {A : Type ℓ} (lib : TokenLibrary) (issuer : TokenIssuer) where
  abbrev let_in :
      Option ℕ → Result User × World → (User → Option ℕ → Handler A) → Response A × World
  let_in sid (ok u, w) next = next u sid w
  let_in sid (err Error.no_rows, w) next = (api_error 401 "user_not_found", w)
  let_in sid (err e, w) next = (api_error 500 "internal_error", w)

  abbrev with_claims : Option (ℕ × String × ℕ) → (User → Option ℕ → Handler A) → Handler A
  with_claims none next = reject 401 "unauthorized"
  with_claims (some (user, provider, sid)) next =
      λ w. let_in (session_from_context sid) (user_by_id user w) next

  abbrev with_token : Option String → (User → Option ℕ → Handler A) → Handler A
  with_token none next = reject 401 "unauthorized"
  with_token (some raw) next = λ w. with_claims (parse_access_token lib issuer w.env.now raw) next w

  -- bearerAuthHandler; `next` gets UserFromContext and SessionIDFromContext.
  unfoldable pub bearer_auth_handler : String → (User → Option ℕ → Handler A) → Handler A
  unfolding parse_access_token user_by_id parse_bearer
  bearer_auth_handler header next = with_token (parse_bearer header) next

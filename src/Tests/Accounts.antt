-- ===== src/Tests/Accounts.antt =====
-- Logins in a concrete world.
use foreignreader_be.Base.{
  ℕ, ◌+◌, ◌<◌, ◌≤◌, ◌≡◌, ◌⊎◌, refl, String, Bool, true, false, Option, some, none, List, [], ◌∷◌,
  arith, trim_space, pos, ℤ,
}
use foreignreader_be.Schema.{User}
use foreignreader_be.Db.{Error, World, Env, ok, err}
use foreignreader_be.Db.Quiet.{IsQuiet}
use foreignreader_be.Http.{success}
use foreignreader_be.Auth.User.{
  MockClaimsInput, new_user, new_identity, login_or_register_mock, user_by_id,
}
use foreignreader_be.Auth.User.Merge.{directory, IsSound}
use foreignreader_be.Auth.User.Enrol.{LoggedIn}
use foreignreader_be.Auth.User.Frame.{accounts}
use foreignreader_be.Auth.User.Login.{SignsIn, login_or_register_mock-LoggedIn}
use foreignreader_be.Auth.User.Again.{Request, sign_in, run, run-Preserves, sign_in_again}
use foreignreader_be.Auth.Token.{
  TokenLibrary, issue_access_token, parse_access_token, bearer_auth_handler,
}
use foreignreader_be.Auth.Token.RoundTrip.{parse-issue_access_token}
use foreignreader_be.Auth.Token.Bearer.{
  IsTurnedAway, IsLetIn, bearer_auth_handler-cases, bearer_auth_handler-issued,
}
use foreignreader_be.Auth.Login.{AuthLoginResponse, LoginConfig, app_login, web_login}
use foreignreader_be.Auth.Login.App.{HasSession, app_login-SignedIn}
use foreignreader_be.Auth.Login.Live.{app_login-Succeeds}
use foreignreader_be.Auth.Login.Web.{web_login-known}
use foreignreader_be.Auth.Login.Callback.{WebLibrary, WebConfig, CallbackValues, apple_web_callback}
use foreignreader_be.Auth.Login.Callback.Known.{MakesNothing, apple_web_callback-MakesNothing}
use foreignreader_be.Auth.Provider.{bool}
use foreignreader_be.Auth.Provider.Apple.{
  AppleLibrary, AppleIdTokenClaims, AppleJwk, AppleVerifier, new_apple_verifier,
  verify_identity_token,
}
use foreignreader_be.Auth.Provider.Checked.{IsChecked, verify_identity_token-IsChecked}
use foreignreader_be.Tests.{start, no_rows_yet, calm}
use foreignreader_be.Tests.Library.{library, library-IsTokenLibrary, issuer, digits}

abbrev pub ada : MockClaimsInput
ada = record {
  sub = " ada ";
  email = some "ada@example.org";
  email_verified = some true;
  display_name = none;
  avatar_url = none;
}

abbrev moved : MockClaimsInput
moved = record {
  sub = "ada";
  email = some " ada@example.com";
  email_verified = none;
  display_name = none;
  avatar_url = none;
}

pub start-IsSound : IsSound no_rows_yet
start-IsSound = record { users_exist = refl; distinct = refl }

login_or_register_mock-LoggedIn_example :
    let (answer, w') = login_or_register_mock true 5 "apple" ada start in
    ((u : User) → answer ≡ ok u → SignsIn "apple" ada no_rows_yet u.id w'.tables)
    × ((e : Error)
        → answer ≡ err e
        → (w'.tables ≡ no_rows_yet) ⊎ ((id : ℕ) × SignsIn "apple" ada no_rows_yet id w'.tables))
login_or_register_mock-LoggedIn_example =
    login_or_register_mock-LoggedIn true 5 "apple" ada start start-IsSound

abbrev from_app : Request
from_app = record { env = calm; from_app = true; provider = "apple"; claims = ada }

abbrev from_web : Request
from_web = record { env = calm; from_app = false; provider = "apple"; claims = moved }

-- A registration whose calls all fail.
abbrev failing : Request
failing = record {
  env = record calm { fault = λ n. true };
  from_app = true;
  provider = "google";
  claims = ada;
}

run-Preserves_example :
    IsSound (run 5 (from_app ∷ failing ∷ []) start).tables
    × ((p s : String) (id : ℕ)
        → directory no_rows_yet p s ≡ some id
        → directory (run 5 (from_app ∷ failing ∷ []) start).tables p s ≡ some id)
run-Preserves_example = run-Preserves 5 (from_app ∷ failing ∷ []) start start-IsSound

abbrev ada_row : User
ada_row = new_user 1000 100 ada

abbrev ada_moved : User
ada_moved = record ada_row { email = some "ada@example.com" }

sign_in_again_example : ada_moved.id ≡ ada_row.id
unfolding trim_space sign_in login_or_register_mock foreignreader_be.Db.transaction
    foreignreader_be.Db.tx_query foreignreader_be.Auth.User.insert_user
    foreignreader_be.Auth.User.insert_identity foreignreader_be.Auth.User.insert_first_quota
    foreignreader_be.Db.query foreignreader_be.Auth.User.login_existing_by_identity run
    foreignreader_be.Auth.User.merge_user foreignreader_be.Auth.User.given
    foreignreader_be.Auth.User.update_user foreignreader_be.Auth.User.merge_identity_email
    foreignreader_be.Auth.User.update_identity_email
sign_in_again_example =
    sign_in_again 5 from_app from_web (failing ∷ []) start {u = ada_row} {u' = ada_moved}
      start-IsSound refl refl refl refl

-- The library signs whatever it is given.
abbrev pub signing : TokenLibrary
signing = record library { signed_string = λ method key c. some "access" }

abbrev pub hash : String → String
hash s = s

abbrev pub config : LoginConfig
config = record {
  app_env = "production";
  auth_dev_mode = true;
  access_token_ttl = 10;
  refresh_session_ttl = 50;
  free_context_translations_per_month = 5;
  apple_audience = "app";
  apple_jwks_cache_ttl = pos 60;
}

abbrev pub answered : AuthLoginResponse
answered = record {
  access_token = "access";
  access_token_expires_at = 110;
  refresh_token = "fresh";
  user = ada_row;
  token_type = "app";
  expires_in = 0;
  is_owner = false;
}

app_login-SignedIn_example :
    let w' = (app_login signing issuer hash config "apple" ada start).1 in
    LoggedIn "apple" "ada" 1000 no_rows_yet w'.tables
    × HasSession signing issuer hash config "apple" 100 answered w'.tables
unfolding app_login foreignreader_be.Db.query trim_space foreignreader_be.Db.transaction
    foreignreader_be.Db.tx_query foreignreader_be.Auth.User.insert_user
    foreignreader_be.Auth.User.insert_identity foreignreader_be.Auth.User.insert_first_quota
    foreignreader_be.Db.draw_random
app_login-SignedIn_example =
    app_login-SignedIn signing issuer hash config "apple" ada start {a = answered} start-IsSound
      refl

start-IsQuiet : IsQuiet start
start-IsQuiet = record { no_fault = λ n. refl; unpoisoned = refl }

app_login-Succeeds_example :
    (a : AuthLoginResponse) × ((app_login signing issuer hash config "apple" ada start).0
      ≡ success a)
unfolding trim_space issue_access_token
app_login-Succeeds_example =
    app_login-Succeeds signing issuer hash config "apple" ada start start-IsQuiet start-IsSound refl
      refl refl (λ absent. (refl, refl)) (λ user sid. (("access", 110), refl))
      (λ n. ("fresh", refl, refl))

web_login-known_example :
    let (answer, w') = web_login signing issuer hash config "apple" ada start in
    (accounts w'.tables ≡ accounts no_rows_yet)
    × (w'.tables.sessions ≡ no_rows_yet.sessions)
    × ((a : AuthLoginResponse)
        → answer ≡ success a
        → directory no_rows_yet "apple" (trim_space ada.sub) ≡ some a.user.id)
web_login-known_example = web_login-known signing issuer hash config "apple" ada start start-IsSound

abbrev web : WebLibrary
web = record {
  sign_es256 = λ pem key_id c. some "client secret";
  exchange = λ client secret uri code. some "id token";
  decode_user = λ s. none;
  with_query = λ base parameters. none;
}

abbrev web_config : WebConfig
web_config = record {
  apple_team_id = "team";
  apple_web_client_id = "web";
  apple_web_sign_in_key_id = "key";
  apple_web_private_key = "pem";
  apple_web_redirect_url = "https://back";
  apple_web_success_redirect_url = "";
  apple_web_account_required_redirect_url = "";
}

abbrev apple_claims : AppleIdTokenClaims
apple_claims = record {
  audience = "app" ∷ [];
  subject = "ada";
  email = "ada@example.org";
  email_verified = bool true;
  nonce = "once";
}

abbrev jwk : AppleJwk
jwk = record { kty = "RSA"; kid = "k1"; n = "n"; e = "e" }

abbrev pub apple : AppleLibrary
apple = record {
  header = λ token. some (record { alg = "RS256"; kid = "k1" });
  verify = λ now key token. some apple_claims;
  decode_base64 = λ s. some (1 ∷ []);
  sha256_hex = λ s. s;
  sha256_base64 = λ s. s;
  fetch = λ n. some (jwk ∷ []);
}

abbrev called_back : Option CallbackValues
called_back = some (record { error = ""; code = "code"; user = "" })

apple_web_callback-MakesNothing_example :
    let end =
      apple_web_callback web digits digits web_config signing issuer hash config apple called_back
        start in
    MakesNothing end.0 no_rows_yet end.1.tables
apple_web_callback-MakesNothing_example =
    apple_web_callback-MakesNothing web digits digits web_config signing issuer hash config apple
      called_back start start-IsSound

abbrev verifier : AppleVerifier
verifier = record {
  audiences = "app" ∷ "web" ∷ [];
  jwks_cache = record { expires_at = 0; keys_by_kid = none; ttl = 60; fetches = 0 };
}

verify_identity_token-IsChecked_example :
    let (answer, c) = verify_identity_token apple 100 verifier "token" (some "once") in
    ((claims : MockClaimsInput)
      → answer ≡ some claims
      → IsChecked apple 100 ("app" ∷ "web" ∷ []) (trim_space "token") (some "once") claims)
    × (c.fetches ≤ 2)
unfolding new_apple_verifier foreignreader_be.Base.split trim_space
verify_identity_token-IsChecked_example =
    verify_identity_token-IsChecked apple 100 "app, web" (pos 60) verifier "token" (some "once")
      refl

parse-issue_access_token_example :
    parse_access_token library issuer 105 "access" ≡ some (7, "apple", 2)
unfolding trim_space issue_access_token
parse-issue_access_token_example =
    parse-issue_access_token library library-IsTokenLibrary issuer 100 105 7 "apple" 2
      {token = "access"} {expires = 110} refl refl (omega arith)

-- The user 7 is there.
abbrev with_user : World
with_user = record start { tables = record no_rows_yet { users = new_user 7 50 ada ∷ [] } }

bearer_auth_handler-cases_example :
    IsTurnedAway library issuer "Bearer access" (λ u sid w. (success u, w)) with_user
    ⊎ IsLetIn library issuer "Bearer access" (λ u sid w. (success u, w)) with_user
bearer_auth_handler-cases_example =
    bearer_auth_handler-cases library issuer "Bearer access" (λ u sid w. (success u, w)) with_user

bearer_auth_handler-issued_example :
    bearer_auth_handler library issuer "Bearer access" (λ u sid w. (success u, w)) with_user
    ≡ (success (new_user 7 50 ada), (user_by_id 7 with_user).1)
unfolding trim_space issue_access_token user_by_id foreignreader_be.Db.query
bearer_auth_handler-issued_example =
    bearer_auth_handler-issued library issuer library-IsTokenLibrary 100 7 "apple" 2
      (λ u sid w. (success u, w)) with_user {token = "access"} {expires = 110}
      {u = new_user 7 50 ada} refl refl (omega arith) refl

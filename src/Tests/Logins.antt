-- ===== src/Tests/Logins.antt =====
-- Logins at the two routes in a concrete world, in production.
use foreignreader_be.Base.{
  ℕ, ◌≡◌, refl, String, Option, false, is_empty, true, none, some, pos, trim_space,
}
use foreignreader_be.Db.{World}
use foreignreader_be.Auth.User.{MockClaimsInput, new_user}
use foreignreader_be.Auth.User.Merge.{directory}
use foreignreader_be.Auth.Provider.Apple.{AppleVerifier, new_apple_verifier}
use foreignreader_be.Auth.Provider.Checked.{IsChecked}
use foreignreader_be.Auth.Login.Routes.{AuthRequest, handle_auth_apple, handle_auth_google}
use foreignreader_be.Auth.Login.Routes.Apple.{handle_auth_apple-verified}
use foreignreader_be.Auth.Login.Routes.Google.{handle_auth_google-verified}
use foreignreader_be.Auth.Provider.{Payload, only_sub}
use foreignreader_be.Tests.{start}
use foreignreader_be.Tests.Accounts.{signing, hash, config, answered, apple, start-IsSound}
use foreignreader_be.Tests.Library.{issuer}

abbrev asked : AuthRequest
asked = record {
  source = "App";
  token = " token";
  nonce = some "once";
  email = none;
  full_name = some " ";
  mock_claims = none;
}

handle_auth_apple-verified_example :
    let t = (handle_auth_apple signing issuer hash apple config true (some asked) start).1.tables in
    (v : AppleVerifier) × (claims : MockClaimsInput) × (new_apple_verifier "app" (pos 60) ≡ some v)
    × IsChecked apple 100 v.audiences (trim_space (trim_space " token")) (some "once") claims
    × (directory t "apple" (trim_space claims.sub) ≡ some 1000)
unfolding handle_auth_apple foreignreader_be.Base.lower_eq trim_space foreignreader_be.Db.query
    foreignreader_be.Db.transaction foreignreader_be.Db.tx_query
    foreignreader_be.Auth.User.insert_user foreignreader_be.Auth.User.insert_identity
    foreignreader_be.Auth.User.insert_first_quota foreignreader_be.Db.draw_random
    foreignreader_be.Base.split
handle_auth_apple-verified_example =
    handle_auth_apple-verified signing issuer hash config apple true asked start {a = answered} refl
      start-IsSound refl

abbrev payload : Payload
payload = record { subject = "ada "; claims = none }

handle_auth_google-verified_example :
    let validate : String → Option Payload = λ token. some payload in
    let t =
      (handle_auth_google signing issuer hash validate config true (some asked) start).1.tables in
    (p : Payload) × (some payload ≡ some p)
    × (is_empty (trim_space p.subject) ≡ false)
    × (directory t "google" (trim_space (trim_space p.subject)) ≡ some 1000)
unfolding handle_auth_google foreignreader_be.Base.lower_eq trim_space foreignreader_be.Db.query
    foreignreader_be.Db.transaction foreignreader_be.Db.tx_query
    foreignreader_be.Auth.User.insert_user foreignreader_be.Auth.User.insert_identity
    foreignreader_be.Auth.User.insert_first_quota foreignreader_be.Db.draw_random
    foreignreader_be.Base.split
handle_auth_google-verified_example =
    handle_auth_google-verified signing issuer hash config (λ token. some payload) true asked start
      {a = record answered { user = new_user 1000 100 (only_sub "ada") }} refl start-IsSound refl

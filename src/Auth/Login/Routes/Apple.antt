-- ===== src/Auth/Login/Routes/Apple.antt =====
-- Whom handleAuthApple of internal/server/routes_auth.go lets in.
use foreignreader_be.Base.{
  ℕ, ◌≡◌, refl, sym, ap, ◌∙◌, String, Bool, true, not, Option, none, some, arith, trim_space,
  lower_eq, ℤ,
}
use foreignreader_be.Db.{World}
use foreignreader_be.Http.{Response, success}
use foreignreader_be.Auth.User.{MockClaimsInput}
use foreignreader_be.Auth.User.Merge.{directory, IsSound}
use foreignreader_be.Auth.Token.{TokenLibrary, TokenIssuer}
use foreignreader_be.Auth.Provider.{Verified, verified, not_initialised, refused}
use foreignreader_be.Auth.Provider.Apple.{
  AppleLibrary, AppleVerifier, new_apple_verifier, verify_apple_with, verify_apple,
}
use foreignreader_be.Auth.Provider.Checked.{IsChecked, verify_identity_token-IsChecked}
use foreignreader_be.Auth.Login.{AuthLoginResponse, LoginConfig}
use foreignreader_be.Auth.Login.Routes.{
  AuthRequest, parse_auth_request_source_field, with_hints, hinted, apple_decoded,
  handle_auth_apple,
}
use foreignreader_be.Auth.Login.Routes.Guard.{
  reject_if-success, complete_auth_login-directory, sourced-RunsFor, in_production,
}

-- The claims that the library gave are the claims of the login but for the hints.
hinted-verified :
    (r : AuthRequest) (v : Verified) {c : MockClaimsInput}
    → hinted r v ≡ verified c
    → (claims : MockClaimsInput) × (v ≡ verified claims) × (c.sub ≡ claims.sub)
unfolding with_hints
hinted-verified r not_initialised h = cc
hinted-verified r refused h = cc
hinted-verified r (verified claims) h = (claims, refl, ground arith)

verify_apple-IsChecked :
    (apple : AppleLibrary) (audience : String) (ttl : ℤ) (now : ℕ) (token : String)
    (wanted : Option String) (o : Option AppleVerifier) {claims : MockClaimsInput}
    → new_apple_verifier audience ttl ≡ o
    → verify_apple_with apple now o token wanted ≡ verified claims
    → (v : AppleVerifier) × (o ≡ some v)
      × IsChecked apple now v.audiences (trim_space token) wanted claims
verify_apple-IsChecked apple audience ttl now token wanted none e h = cc
verify_apple-IsChecked apple audience ttl now token wanted (some v) {claims} e h = (
  v,
  refl,
  (verify_identity_token-IsChecked apple now audience ttl v token wanted e).0 claims (ground arith),
)

module _ (lib : TokenLibrary) (issuer : TokenIssuer) (hash : String → String)
    (cfg : LoginConfig) where
  -- In production, if the identities have users and are distinct: a login at Apple's route that is
  -- answered with success, from the app or the web, is for claims of an identity token that were
  -- checked against the keys, the audience and the nonce, never for mock claims; and afterwards the
  -- directory has the user of the answer for the subject of these claims.
  pub handle_auth_apple-verified :
      (apple : AppleLibrary) (is_json : Bool) (r : AuthRequest) (w : World) {a : AuthLoginResponse}
      → lower_eq (trim_space cfg.app_env) "production" ≡ true
      → IsSound w.tables
      → (handle_auth_apple lib issuer hash apple cfg is_json (some r) w).0 ≡ success a
      → let t = (handle_auth_apple lib issuer hash apple cfg is_json (some r) w).1.tables in
        (v : AppleVerifier) × (claims : MockClaimsInput) × (new_apple_verifier cfg.apple_audience
            cfg.apple_jwks_cache_ttl
          ≡ some v)
        × IsChecked apple w.env.now v.audiences (trim_space (trim_space r.token)) r.nonce claims
        × (directory t "apple" (trim_space claims.sub) ≡ some a.user.id)
  unfolding handle_auth_apple verify_apple
  handle_auth_apple-verified apple is_json r w {a} production sound h =
      let verify = verify_apple apple cfg.apple_audience cfg.apple_jwks_cache_ttl in
      let answer = verify w.env.now (trim_space r.token) r.nonce in
      let (json, passed) =
        reject_if-success (not is_json) 415 "invalid_request"
          (apple_decoded lib issuer hash verify cfg (some r)) w h in
      let (c, source, e, same) =
        sourced-RunsFor lib issuer hash cfg "apple" "missing_identity_token" "invalid_apple_token" r
          (hinted r answer) (parse_auth_request_source_field r.source) w
          (in_production cfg production)
          (ap (λ (p : Response AuthLoginResponse × World). p.0) (sym passed) ∙ h) in
      let (claims, e', sub) = hinted-verified r answer e in
      let (v, made, checked) =
        verify_apple-IsChecked apple cfg.apple_audience cfg.apple_jwks_cache_ttl w.env.now
          (trim_space r.token) r.nonce
          (new_apple_verifier cfg.apple_audience cfg.apple_jwks_cache_ttl) refl e' in
      let run = passed ∙ same in
      (
        v,
        claims,
        made,
        checked,
        rw (run, ← sub)
            (complete_auth_login-directory lib issuer hash cfg "apple" c source w sound
              (ap (λ (p : Response AuthLoginResponse × World). p.0) (sym run) ∙ h)),
      )

-- ===== src/Auth/Login/Routes/Google.antt =====
-- Whom handleAuthGoogle of internal/server/routes_auth.go lets in.
use foreignreader_be.Base.{
  ◌≡◌, refl, Bool-cases, inl, inr, List, sym, ap, ◌∙◌, is_empty, String, Bool, true, false, not,
  Option, none, some, arith, trim_space, lower_eq,
}
use foreignreader_be.Db.{World}
use foreignreader_be.Http.{Response, success}
use foreignreader_be.Auth.User.{MockClaimsInput}
use foreignreader_be.Auth.User.Merge.{directory, IsSound}
use foreignreader_be.Auth.Token.{TokenLibrary, TokenIssuer}
use foreignreader_be.Auth.Provider.{
  Payload, ClaimValue, google_claims, google_id_token_claims, verified_or_refused, verify_google,
  verified,
}
use foreignreader_be.Auth.Login.{AuthLoginResponse, LoginConfig}
use foreignreader_be.Auth.Login.Routes.{
  AuthRequest, parse_auth_request_source_field, google_decoded, handle_auth_google,
}
use foreignreader_be.Auth.Login.Routes.Guard.{
  reject_if-success, complete_auth_login-directory, sourced-RunsFor, in_production,
}

google_claims-sub :
    (sub : String) (m : Option (List (String × ClaimValue))) {c : MockClaimsInput}
    → verified (google_claims sub m) ≡ verified c
    → c.sub ≡ sub
google_claims-sub sub none h = ground arith
google_claims-sub sub (some m) h = ground arith

google-payload :
    (o : Option Payload) {c : MockClaimsInput}
    → verified_or_refused (google_id_token_claims o) ≡ verified c
    → (p : Payload) × (o ≡ some p)
      × (is_empty (trim_space p.subject) ≡ false)
      × (c.sub ≡ trim_space p.subject)
unfolding google_id_token_claims
google-payload none h = cc
google-payload (some p) {c} h = elim (Bool-cases (is_empty (trim_space p.subject))) [
  | inl blank ↦ cc (rw blank at h)
  | inr full ↦ (p, refl, full, google_claims-sub (trim_space p.subject) p.claims (rw full at h))
]

module _ (lib : TokenLibrary) (issuer : TokenIssuer) (hash : String → String)
    (cfg : LoginConfig) where
  -- In production, if the identities have users and are distinct: a login at Google's route that is
  -- answered with success, from the app or the web, is for the payload of an ID token that Google's
  -- library validated, whose subject is not blank, never for mock claims; and afterwards the
  -- directory has the user of the answer for this subject.
  pub handle_auth_google-verified :
      (validate : String → Option Payload) (is_json : Bool) (r : AuthRequest) (w : World)
      {a : AuthLoginResponse}
      → lower_eq (trim_space cfg.app_env) "production" ≡ true
      → IsSound w.tables
      → (handle_auth_google lib issuer hash validate cfg is_json (some r) w).0 ≡ success a
      → let t = (handle_auth_google lib issuer hash validate cfg is_json (some r) w).1.tables in
        (p : Payload) × (validate (trim_space r.token) ≡ some p)
        × (is_empty (trim_space p.subject) ≡ false)
        × (directory t "google" (trim_space (trim_space p.subject)) ≡ some a.user.id)
  unfolding handle_auth_google verify_google
  handle_auth_google-verified validate is_json r w {a} production sound h =
      let answer = verify_google validate (trim_space r.token) in
      let (json, passed) =
        reject_if-success (not is_json) 415 "invalid_request"
          (google_decoded lib issuer hash (verify_google validate) cfg (some r)) w h in
      let (c, source, e, same) =
        sourced-RunsFor lib issuer hash cfg "google" "missing_id_token" "invalid_google_token" r
          answer (parse_auth_request_source_field r.source) w (in_production cfg production)
          (ap (λ (p : Response AuthLoginResponse × World). p.0) (sym passed) ∙ h) in
      let (p, found, full, sub) = google-payload (validate (trim_space r.token)) e in
      let run = passed ∙ same in
      (
        p,
        found,
        full,
        rw (run, ← sub)
            (complete_auth_login-directory lib issuer hash cfg "google" c source w sound
              (ap (λ (p : Response AuthLoginResponse × World). p.0) (sym run) ∙ h)),
      )

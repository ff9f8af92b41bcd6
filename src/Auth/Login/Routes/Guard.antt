-- ===== src/Auth/Login/Routes/Guard.antt =====
-- What both login routes of internal/server/routes_auth.go check before they log in.
use foreignreader_be.Base.{
  ℕ, ◌≡◌, refl, sym, ap, ◌∙◌, is_empty, String, Bool, true, false, Option, none, some, arith,
  trim_space, lower_eq,
}
use foreignreader_be.Db.{World}
use foreignreader_be.Http.{Response, success, Handler, reject_if}
use foreignreader_be.Auth.User.{MockClaimsInput}
use foreignreader_be.Auth.User.Merge.{directory, IsSound}
use foreignreader_be.Auth.User.Enrol.{LoggedIn-directory}
use foreignreader_be.Auth.Token.{TokenLibrary, TokenIssuer}
use foreignreader_be.Auth.Provider.{Verified, verified, not_initialised, refused}
use foreignreader_be.Auth.Login.{
  AuthLoginResponse, AuthRequestSource, LoginConfig, mock_auth_allowed, complete_auth_login,
}
use foreignreader_be.Auth.Login.App.{app_login-SignedIn}
use foreignreader_be.Auth.Login.Web.{web_login-LoggedIn}
use foreignreader_be.Auth.Login.Routes.{
  AuthRequest, ParsedSource, parsed, missing, invalid, oidc_login, mock_or_oidc, sourced,
}

pub reject_if-success {ℓ} :
    {A : Type ℓ} (b : Bool) (status : ℕ) (code : String) (next : Handler A) (w : World) {a : A}
    → (reject_if b status code next w).0 ≡ success a
    → (b ≡ false) × (reject_if b status code next w ≡ next w)
reject_if-success true status code next w h = cc
reject_if-success false status code next w h = (refl, refl)

pub in_production :
    (cfg : LoginConfig)
    → lower_eq (trim_space cfg.app_env) "production" ≡ true
    → mock_auth_allowed cfg ≡ false
unfolding mock_auth_allowed
in_production cfg h = ground arith

module _ (lib : TokenLibrary) (issuer : TokenIssuer) (hash : String → String)
    (cfg : LoginConfig) where
  pub complete_auth_login-directory :
      (provider : String) (c : MockClaimsInput) (source : AuthRequestSource) (w : World)
      {a : AuthLoginResponse}
      → IsSound w.tables
      → (complete_auth_login lib issuer hash cfg provider c source w).0 ≡ success a
      → directory
          (complete_auth_login lib issuer hash cfg provider c source w).1.tables
          provider
          (trim_space c.sub)
        ≡ some a.user.id
  unfolding complete_auth_login
  complete_auth_login-directory provider c AuthRequestSource.app w {a} sound h =
      LoggedIn-directory provider (trim_space c.sub) a.user.id w.tables
        (complete_auth_login lib issuer hash cfg provider c AuthRequestSource.app w).1.tables
        (app_login-SignedIn lib issuer hash cfg provider c w sound h).0
  complete_auth_login-directory provider c AuthRequestSource.web w {a} sound h =
      LoggedIn-directory provider (trim_space c.sub) a.user.id w.tables
        (complete_auth_login lib issuer hash cfg provider c AuthRequestSource.web w).1.tables
        (web_login-LoggedIn lib issuer hash cfg provider c w sound h)

  -- The login runs for claims that were verified.
  abbrev pub RunsFor : String → Verified → Handler AuthLoginResponse → World → Type 0
  RunsFor provider v route w =
      (c : MockClaimsInput) × (source : AuthRequestSource) × (v ≡ verified c)
      × (route w ≡ complete_auth_login lib issuer hash cfg provider c source w)

  oidc_login-RunsFor :
      (provider refusal : String) (source : AuthRequestSource) (v : Verified) (w : World)
      {a : AuthLoginResponse}
      → (oidc_login lib issuer hash cfg provider refusal source v w).0 ≡ success a
      → RunsFor provider v (oidc_login lib issuer hash cfg provider refusal source v) w
  oidc_login-RunsFor provider refusal source not_initialised w h = cc
  oidc_login-RunsFor provider refusal source refused w h = cc
  oidc_login-RunsFor provider refusal source (verified c) w h = (c, source, refl, refl)

  mock_or_oidc-RunsFor :
      (provider refusal : String) (source : AuthRequestSource) (v : Verified)
      (m : Option MockClaimsInput) (w : World) {a : AuthLoginResponse}
      → mock_auth_allowed cfg ≡ false
      → (mock_or_oidc lib issuer hash cfg provider refusal source v m w).0 ≡ success a
      → RunsFor provider v (mock_or_oidc lib issuer hash cfg provider refusal source v m) w
  mock_or_oidc-RunsFor provider refusal source v none w closed h =
      oidc_login-RunsFor provider refusal source v w h
  mock_or_oidc-RunsFor provider refusal source v (some m) w closed h = cc (rw closed at h)

  pub sourced-RunsFor :
      (provider missing_token refusal : String) (r : AuthRequest) (v : Verified) (p : ParsedSource)
      (w : World) {a : AuthLoginResponse}
      → mock_auth_allowed cfg ≡ false
      → (sourced lib issuer hash cfg provider missing_token refusal r v p w).0 ≡ success a
      → RunsFor provider v (sourced lib issuer hash cfg provider missing_token refusal r v p) w
  sourced-RunsFor provider missing_token refusal r v missing w closed h = cc
  sourced-RunsFor provider missing_token refusal r v invalid w closed h = cc
  sourced-RunsFor provider missing_token refusal r v (parsed source) w closed h =
      let (nonblank, passed) =
        reject_if-success (is_empty (trim_space r.token)) 400 missing_token
          (mock_or_oidc lib issuer hash cfg provider refusal source v r.mock_claims) w h in
      let (c, s, e, same) =
        mock_or_oidc-RunsFor provider refusal source v r.mock_claims w closed
          (ap (λ (p : Response AuthLoginResponse × World). p.0) (sym passed) ∙ h) in
      (c, s, e, passed ∙ same)

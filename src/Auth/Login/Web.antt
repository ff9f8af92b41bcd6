-- ===== src/Auth/Login/Web.antt =====
-- What a login of the web can do: it never makes an account or a session.
use foreignreader_be.Base.{
  ℕ, ◌≡◌, refl, sym, ap, ◌∙◌, String, true, Option, none, some, arith, trim_space,
}
use foreignreader_be.Schema.{User}
use foreignreader_be.Db.{Result, ok, err, World, query}
use foreignreader_be.Http.{success}
use foreignreader_be.Entitlement.{is_owner}
use foreignreader_be.Auth.User.{MockClaimsInput, login_existing_by_identity}
use foreignreader_be.Auth.User.Merge.{directory, IsSound}
use foreignreader_be.Auth.User.Enrol.{LoggedIn}
use foreignreader_be.Auth.User.Login.{login_existing_by_identity-known}
use foreignreader_be.Auth.User.Frame.{accounts, Keeps-login_existing_by_identity}
use foreignreader_be.Auth.User.Sessions.{sessions, Keeps-existing}
use foreignreader_be.Auth.Token.{TokenLibrary, TokenIssuer}
use foreignreader_be.Auth.Login.{AuthLoginResponse, LoginConfig, web_token, web_user, web_login}

is_owner-keeps : (user : ℕ) (w : World) → (is_owner user w).1.tables ≡ w.tables
unfolding is_owner query
is_owner-keeps user w = ground arith

module _ (lib : TokenLibrary) (issuer : TokenIssuer) (hash : String → String)
    (cfg : LoginConfig) where
  web_token-keeps :
      (u : User) (o : Option (String × ℕ)) (w : World)
      → ((web_token lib issuer hash cfg u o w).1.tables ≡ w.tables)
        × ((a : AuthLoginResponse)
            → (web_token lib issuer hash cfg u o w).0 ≡ success a
            → a.user ≡ u)
  web_token-keeps u none w = (refl, λ a h. cc)
  web_token-keeps u (some (token, expires)) w = (is_owner-keeps u.id w, λ a h. ground arith)

  web_user-keeps :
      (provider : String) (r : Result User) (w : World)
      → ((web_user lib issuer hash cfg provider (r, w)).1.tables ≡ w.tables)
        × ((a : AuthLoginResponse)
            → (web_user lib issuer hash cfg provider (r, w)).0 ≡ success a
            → r ≡ ok a.user)
  web_user-keeps provider (err e) w = (ground arith, λ a h. ground arith)
  web_user-keeps provider (ok u) w =
      let issued =
        foreignreader_be.Auth.Token.issue_web_access_token lib issuer w.env.now u.id provider in
      let (tables, same) = web_token-keeps u issued w in
      (tables, λ a h. ap (λ (x : User). ok x) (sym (same a h)))

  -- However a login from the web ends, there are the same users, identities and sessions as before.
  pub web_login-keeps :
      (provider : String) (c : MockClaimsInput) (w : World)
      → let w' = (web_login lib issuer hash cfg provider c w).1 in
        (accounts w'.tables ≡ accounts w.tables) × (w'.tables.sessions ≡ w.tables.sessions)
  unfolding web_login
  web_login-keeps provider c w =
      let login = login_existing_by_identity true provider c in
      let (tables, _) = web_user-keeps provider (login w).0 (login w).1 in
      (
        ap accounts tables ∙ (Keeps-login_existing_by_identity true provider c).at w,
        ap sessions tables ∙ (Keeps-existing provider c).at w,
      )

  -- If the identities have users and are distinct: however a login from the web ends, there are the
  -- same users, identities and sessions as before, and one that is answered with success has signed
  -- in the user whom the directory had for the identity.
  pub web_login-known :
      (provider : String) (c : MockClaimsInput) (w : World)
      → IsSound w.tables
      → let (answer, w') = web_login lib issuer hash cfg provider c w in
        (accounts w'.tables ≡ accounts w.tables)
        × (w'.tables.sessions ≡ w.tables.sessions)
        × ((a : AuthLoginResponse)
            → answer ≡ success a
            → directory w.tables provider (trim_space c.sub) ≡ some a.user.id)
  unfolding web_login
  web_login-known provider c w sound =
      let login = login_existing_by_identity true provider c in
      let (tables, same) = web_user-keeps provider (login w).0 (login w).1 in
      let (same_accounts, same_sessions) = web_login-keeps provider c w in
      (
        same_accounts,
        same_sessions,
        λ a h. ((login_existing_by_identity-known true provider c w sound).0 a.user (same a h)).1,
      )

  -- A login from the web that is answered with success signs the identity in.
  pub web_login-LoggedIn :
      (provider : String) (c : MockClaimsInput) (w : World) {a : AuthLoginResponse}
      → IsSound w.tables
      → (web_login lib issuer hash cfg provider c w).0 ≡ success a
      → LoggedIn provider
          (trim_space c.sub)
          a.user.id
          w.tables
          (web_login lib issuer hash cfg provider c w).1.tables
  unfolding web_login
  web_login-LoggedIn provider c w {a} sound h =
      let login = login_existing_by_identity true provider c in
      let (tables, same) = web_user-keeps provider (login w).0 (login w).1 in
      rw tables ((login_existing_by_identity-known true provider c w sound).0 a.user (same a h)).0

-- ===== src/Auth/Login/App.antt =====
-- What a login of the app leaves: the identity, the session and the tokens.
use foreignreader_be.Base.{
  ℕ, ◌+◌, ◌≡◌, refl, sym, ap, ◌∙◌, String, eq_iff, Bool, true, none, some, arith, trim_space,
}
use mathlib.Core.Path.{subst}
use foreignreader_be.Schema.{User, Tables}
use foreignreader_be.Db.{Error, Result, ok, err, World, query}
use foreignreader_be.Http.{success}
use foreignreader_be.Auth.User.{MockClaimsInput, has_identity, login_or_register_mock}
use foreignreader_be.Auth.User.Merge.{IsSound}
use foreignreader_be.Auth.User.Enrol.{LoggedIn}
use foreignreader_be.Auth.User.Login.{login_or_register_mock-LoggedIn}
use foreignreader_be.Auth.User.Frame.{KeepsEnv-login_or_register_mock}
use foreignreader_be.Auth.Token.{TokenLibrary, TokenIssuer, issue_access_token}
use foreignreader_be.Auth.Session.{
  new_session, insert_session, insert_auth_session, generate_refresh_token,
}
use foreignreader_be.Auth.Session.Rotation.{by_hash, generate_refresh_token-ok}
use foreignreader_be.Auth.Login.{
  AuthLoginResponse, LoginConfig, app_session, app_refresh, app_user, app_known, app_login,
}

-- Only the users and the identities count.
LoggedIn-tables :
    (p s : String) (id : ℕ) (t t' t'' : Tables)
    → t''.users ≡ t'.users
    → t''.identities ≡ t'.identities
    → LoggedIn p s id t t'
    → LoggedIn p s id t t''
LoggedIn-tables p s id t t' t'' users identities l = record {
  sound = record {
    users_exist = rw (users, identities) l.sound.users_exist;
    distinct = rw identities l.sound.distinct;
  };
  enrols = rw identities l.enrols;
  known = l.known;
  fresh = l.fresh;
  there = rw users l.there;
}

insert_auth_session-ok :
    (user : ℕ) (provider hashed : String) (expires now : ℕ) (w : World) {sid : ℕ}
    → (insert_auth_session user provider hashed expires now w).0 ≡ ok sid
    → let t = (insert_auth_session user provider hashed expires now w).1.tables in
      (t.users ≡ w.tables.users)
      × (t.identities ≡ w.tables.identities)
      × (by_hash hashed t ≡ some (new_session sid user provider hashed expires now))
      × ((insert_auth_session user provider hashed expires now w).1.env ≡ w.env)
unfolding insert_auth_session insert_session query
insert_auth_session-ok user provider hashed expires now w h =
    (ground arith, ground arith, ground (arith, (eq_iff hashed hashed).1 refl), ground arith)

has_identity-keeps :
    (p s : String) (w : World)
    → ((has_identity p s w).1.tables ≡ w.tables) × ((has_identity p s w).1.env ≡ w.env)
unfolding has_identity query
has_identity-keeps p s w = (ground arith, ground arith)

generate-keeps :
    (hash : String → String) (w : World)
    → ((generate_refresh_token hash (λ _ _ _. none) w).1.tables ≡ w.tables)
      × ((generate_refresh_token hash (λ _ _ _. none) w).1.env ≡ w.env)
unfolding generate_refresh_token foreignreader_be.Db.draw_random
generate-keeps hash w = (ground arith, ground arith)

module _ (lib : TokenLibrary) (issuer : TokenIssuer) (hash : String → String)
    (cfg : LoginConfig) where
  -- The tokens of `a` stand for a new session of its user, which lives for the configured time.
  abbrev pub HasSession : String → ℕ → AuthLoginResponse → Tables → Type 0
  HasSession provider now a t =
      (sid : ℕ) × (issue_access_token lib issuer now a.user.id provider sid
        ≡ some (a.access_token, a.access_token_expires_at))
      × (by_hash (hash a.refresh_token) t
          ≡ some (
              new_session sid a.user.id provider (hash a.refresh_token)
                (now + cfg.refresh_session_ttl) now))

  app_session-success :
      (provider : String) (u : User) (raw : String) (r : Result ℕ) (w : World)
      {a : AuthLoginResponse}
      → (app_session lib issuer hash cfg provider u raw (r, w)).0 ≡ success a
      → (sid : ℕ) × (r ≡ ok sid)
        × (issue_access_token lib issuer w.env.now u.id provider sid
            ≡ some (a.access_token, a.access_token_expires_at))
        × (a.user ≡ u)
        × (a.refresh_token ≡ raw)
        × ((app_session lib issuer hash cfg provider u raw (r, w)).1 ≡ w)
  unfolding issue_access_token
  app_session-success provider u raw (err e) w h = cc
  app_session-success provider u raw (ok sid) w h =
      (sid, refl, ground arith, ground arith, ground arith, ground arith)

  app_refresh-success :
      (provider : String) (u : User) (r : Result (String × String)) (w : World)
      {a : AuthLoginResponse}
      → ((raw hashed : String) → r ≡ ok (raw, hashed) → hashed ≡ hash raw)
      → (app_refresh lib issuer hash cfg provider u (r, w)).0 ≡ success a
      → let w' = (app_refresh lib issuer hash cfg provider u (r, w)).1 in
        (a.user ≡ u)
        × (w'.tables.users ≡ w.tables.users)
        × (w'.tables.identities ≡ w.tables.identities)
        × HasSession provider w.env.now a w'.tables
  app_refresh-success provider u (err e) w hashes h = cc
  app_refresh-success provider u (ok (raw, hashed)) w {a} hashes h =
      let insert =
        insert_auth_session u.id provider hashed (w.env.now + cfg.refresh_session_ttl) w.env.now in
      let (sid, e, issued, user, token, same) =
        app_session-success provider u raw (insert w).0 (insert w).1 h in
      let (users, identities, row, env) =
        insert_auth_session-ok u.id provider hashed (w.env.now + cfg.refresh_session_ttl) w.env.now
          w e in
      rw same (
        user,
        users,
        identities,
        (sid, rw user (rw env at issued), rw (user, token, ← hashes raw hashed refl) row),
      )

  app_user-success :
      (provider : String) (r : Result User) (w : World) {a : AuthLoginResponse}
      → (app_user lib issuer hash cfg provider (r, w)).0 ≡ success a
      → let w' = (app_user lib issuer hash cfg provider (r, w)).1 in
        (r ≡ ok a.user)
        × (w'.tables.users ≡ w.tables.users)
        × (w'.tables.identities ≡ w.tables.identities)
        × HasSession provider w.env.now a w'.tables
  app_user-success provider (err e) w h = cc
  app_user-success provider (ok u) w {a} h =
      let generate = generate_refresh_token hash (λ _ _ _. none) in
      let (user, users, identities, session) =
        app_refresh-success provider u (generate w).0 (generate w).1 hashed h in
      let (tables, env) = generate-keeps hash w in
      (
        ap (λ (x : User). ok x) (sym user),
        users ∙ ap (λ (t : Tables). t.users) tables,
        identities ∙ ap (λ (t : Tables). t.identities) tables,
        rw env at session,
      )
    where
      hashed :
          (raw hashed : String)
          → (generate_refresh_token hash (λ _ _ _. none) w).0 ≡ ok (raw, hashed)
          → hashed ≡ hash raw
      hashed raw h e = (generate_refresh_token-ok hash (λ _ _ _. none) w e).2

  app_known-success :
      (provider : String) (c : MockClaimsInput) (r : Result Bool) (w : World)
      {a : AuthLoginResponse}
      → IsSound w.tables
      → (app_known lib issuer hash cfg provider c (r, w)).0 ≡ success a
      → let w' = (app_known lib issuer hash cfg provider c (r, w)).1 in
        LoggedIn provider (trim_space c.sub) a.user.id w.tables w'.tables
        × HasSession provider w.env.now a w'.tables
  app_known-success provider c (err e) w sound h = cc
  app_known-success provider c (ok reused) w {a} sound h =
      let limit = cfg.free_context_translations_per_month in
      let login = login_or_register_mock true limit provider c in
      let (found, users, identities, session) =
        app_user-success provider (login w).0 (login w).1 h in
      let w' = (app_known lib issuer hash cfg provider c (ok reused, w)).1 in
      let env = (KeepsEnv-login_or_register_mock true limit provider c).env_at w in
      (
        LoggedIn-tables provider (trim_space c.sub) a.user.id w.tables (login w).1.tables w'.tables
            users identities
            ((login_or_register_mock-LoggedIn true limit provider c w sound).0 a.user found),
        rw env at session,
      )

  -- If the identities have users and are distinct: a login from the app that is answered with success
  -- has signed the identity in as the user of the answer, a new one only if the identity was
  -- unknown. The refresh token is that of a new session of this user and provider, which lives for
  -- the configured time, and the access token is issued for this session.
  pub app_login-SignedIn :
      (provider : String) (c : MockClaimsInput) (w : World) {a : AuthLoginResponse}
      → IsSound w.tables
      → (app_login lib issuer hash cfg provider c w).0 ≡ success a
      → let w' = (app_login lib issuer hash cfg provider c w).1 in
        LoggedIn provider (trim_space c.sub) a.user.id w.tables w'.tables
        × HasSession provider w.env.now a w'.tables
  unfolding app_login
  app_login-SignedIn provider c w {a} sound h =
      let known = has_identity provider (trim_space c.sub) in
      let (tables, env) = has_identity-keeps provider (trim_space c.sub) w in
      let w' = (app_login lib issuer hash cfg provider c w).1 in
      let (signed, session) =
        app_known-success provider c (known w).0 (known w).1 (rw tables sound) h in
      (
        subst (λ t. LoggedIn provider (trim_space c.sub) a.user.id t w'.tables) tables signed,
        rw env at session,
      )

-- ===== src/Auth/Login/Live.antt =====
-- A login of the app when no call of the database fails.
use foreignreader_be.Base.{
  ℕ, ◌+◌, ◌≡◌, refl, String, str_eq, true, false, Bool, none, some, arith, any, trim_space,
  is_empty, ◌∷◌,
}
use foreignreader_be.Schema.{User, Session, Tables}
use foreignreader_be.Db.{ok, World, draw_random}
use foreignreader_be.Db.Quiet.{IsQuiet, Runs, Runs-query}
use foreignreader_be.Http.{Response, success}
use foreignreader_be.Quota.{fits_integer}
use foreignreader_be.Auth.User.{
  MockClaimsInput, is_provider, is_identity, has_identity, login_or_register_mock,
}
use foreignreader_be.Auth.User.Merge.{directory, IsSound}
use foreignreader_be.Auth.User.Live.{IsFreshId, login_or_register_mock-Runs}
use foreignreader_be.Auth.User.Sessions.{Keeps-login_or_register_mock}
use foreignreader_be.Auth.Token.{TokenLibrary, TokenIssuer, issue_access_token}
use foreignreader_be.Auth.Session.{
  new_session, insert_session, insert_auth_session, generate_refresh_token,
}
use foreignreader_be.Auth.Login.{
  AuthLoginResponse, LoginConfig, app_session, app_refresh, app_user, app_known, app_login,
}

has_identity-Runs :
    (p s : String) (w : World)
    → IsQuiet w
    → Runs (has_identity p s) w (any (is_identity p s) w.tables.identities) w.tables
unfolding has_identity
has_identity-Runs p s w q = Runs-query _ w q refl

module _ (lib : TokenLibrary) (issuer : TokenIssuer) (hash : String → String)
    (cfg : LoginConfig) where
  -- The random bytes can be read, and no session has the hash of the token that they make.
  abbrev pub DrawsNewToken : World → Type 0
  DrawsNewToken w =
      (n : ℕ)
      → (raw : String) × (w.env.random n ≡ some raw)
        × (any (λ (s : Session). str_eq s.refresh_token_hash (hash raw)) w.tables.sessions ≡ false)

  -- Tokens can be signed.
  abbrev pub Signs : String → World → Type 0
  Signs provider w =
      (user sid : ℕ)
      → (p : String × ℕ) × (issue_access_token lib issuer w.env.now user provider sid ≡ some p)

  abbrev pub Succeeds : Response AuthLoginResponse → Type 0
  Succeeds r = (a : AuthLoginResponse) × (r ≡ success a)

  insert_auth_session-Runs :
      (user : ℕ) (provider hashed : String) (expires now : ℕ) (w : World)
      → IsQuiet w
      → any (λ (s : Session). str_eq s.refresh_token_hash hashed) w.tables.sessions ≡ false
      → (t : Tables) × Runs
          (insert_auth_session user provider hashed expires now)
          w
          (w.env.uuid w.tables.drawn)
          t
  unfolding insert_auth_session insert_session
  insert_auth_session-Runs user provider hashed expires now w q new =
      let after : Tables = record w.tables {
        sessions =
            new_session (w.env.uuid w.tables.drawn) user provider hashed expires now
            ∷ w.tables.sessions;
        drawn = w.tables.drawn + 1;
      } in
      (after, Runs-query (insert_session user provider hashed expires now) w q (rw new refl))

  app_session-Succeeds :
      (provider : String) (u : User) (raw : String) (sid : ℕ) (w : World)
      → Signs provider w
      → Succeeds (app_session lib issuer hash cfg provider u raw (ok sid, w)).0
  app_session-Succeeds provider u raw sid w signs = let (p, e) = signs u.id sid in rw e (_, refl)

  app_refresh-Succeeds :
      (provider : String) (u : User) (raw : String) (w : World)
      → IsQuiet w
      → Signs provider w
      → any (λ (s : Session). str_eq s.refresh_token_hash (hash raw)) w.tables.sessions ≡ false
      → Succeeds (app_refresh lib issuer hash cfg provider u (ok (raw, hash raw), w)).0
  app_refresh-Succeeds provider u raw w q signs new =
      let expires = w.env.now + cfg.refresh_session_ttl in
      let insert = insert_auth_session u.id provider (hash raw) expires w.env.now in
      let (t, r) = insert_auth_session-Runs u.id provider (hash raw) expires w.env.now w q new in
      rw r.answer (
        app_session-Succeeds provider u raw (w.env.uuid w.tables.drawn) (insert w).1
          (rw r.env signs))

  generate_refresh_token-some :
      (w : World) (raw : String)
      → w.env.random w.randoms ≡ some raw
      → generate_refresh_token hash (λ _ _ _. none) w
        ≡ (ok (raw, hash raw), record w { randoms = w.randoms + 1 })
  unfolding generate_refresh_token draw_random
  generate_refresh_token-some w raw h = ground arith

  app_user-Succeeds :
      (provider : String) (u : User) (w : World)
      → IsQuiet w
      → Signs provider w
      → DrawsNewToken w
      → Succeeds (app_user lib issuer hash cfg provider (ok u, w)).0
  app_user-Succeeds provider u w q signs draws =
      let (raw, drawn, new) = draws w.randoms in
      let w' : World = record w { randoms = w.randoms + 1 } in
      rw (generate_refresh_token-some w raw drawn) (
        app_refresh-Succeeds provider u raw w'
          (record { no_fault = q.no_fault; unpoisoned = q.unpoisoned }) signs new)

  app_known-Succeeds :
      (provider : String) (c : MockClaimsInput) (b : Bool) (w : World)
      → IsQuiet w
      → IsSound w.tables
      → is_provider provider ≡ true
      → is_empty (trim_space c.sub) ≡ false
      → fits_integer cfg.free_context_translations_per_month ≡ true
      → (directory w.tables provider (trim_space c.sub) ≡ none → IsFreshId w.env w.tables)
      → Signs provider w
      → DrawsNewToken w
      → Succeeds (app_known lib issuer hash cfg provider c (ok b, w)).0
  app_known-Succeeds provider c b w q sound known full fits fresh signs draws =
      let limit = cfg.free_context_translations_per_month in
      let login = login_or_register_mock true limit provider c in
      let (u, t, r) =
        login_or_register_mock-Runs limit provider c w q sound known full fits fresh in
      let same = (Keeps-login_or_register_mock limit provider c).at w in
      rw r.answer
        (app_user-Succeeds provider u (login w).1 r.quiet (rw r.env signs) (rw (r.env, same) draws))

  -- If no call of the database fails, the identities have users and are distinct, the provider is one
  -- of the two, the subject is not blank, the free quota fits its column, the id drawn for a new
  -- user and the hash of the new refresh token are not in use and the access token can be signed:
  -- a login from the app is answered with success.
  pub app_login-Succeeds :
      (provider : String) (c : MockClaimsInput) (w : World)
      → IsQuiet w
      → IsSound w.tables
      → is_provider provider ≡ true
      → is_empty (trim_space c.sub) ≡ false
      → fits_integer cfg.free_context_translations_per_month ≡ true
      → (directory w.tables provider (trim_space c.sub) ≡ none → IsFreshId w.env w.tables)
      → Signs provider w
      → DrawsNewToken w
      → (a : AuthLoginResponse) × ((app_login lib issuer hash cfg provider c w).0 ≡ success a)
  unfolding app_login
  app_login-Succeeds provider c w q sound known full fits fresh signs draws =
      let r = has_identity-Runs provider (trim_space c.sub) w q in
      let w' = (has_identity provider (trim_space c.sub) w).1 in
      rw r.answer (
        app_known-Succeeds provider c
          (any (is_identity provider (trim_space c.sub)) w.tables.identities) w' r.quiet
          (rw r.tables sound) known full fits (rw (r.tables, r.env) fresh) (rw r.env signs)
          (rw (r.tables, r.env) draws))

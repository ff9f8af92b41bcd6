-- ===== src/Onboarding/Routes/Admitted.antt =====
-- Which onboarding requests are served.
use foreignreader_be.Base.{
  ℕ, ◌≡◌, ◌<◌, ◌⊎◌, inl, inr, refl, String, true, false, Option, none, some, ℤ, is_positive, arith,
  append, trim_space, is_empty, eq_iff,
}
use foreignreader_be.Schema.{Status, OnboardingToken}
use foreignreader_be.Db.{Error, Result, Result-cases, ok, err, failed, World}
use foreignreader_be.Http.{success, api_error}
use foreignreader_be.RateLimit.{Window, allow}
use foreignreader_be.Onboarding.{scope_onboarding_translate, issue, validate_and_touch}
use foreignreader_be.Onboarding.Life.{by_hash, validate_and_touch-ok, validate_and_touch-issue}
use foreignreader_be.Onboarding.Routes.{
  Stateful, unrated, Request, minute, client_ip, with_rate, token_error, SessionRequest,
  SessionResponse, OnboardingConfig, admit, with_bearer, onboarding_opaque_bearer_middleware,
  handle_onboarding_session, handle_onboarding_translate_context, token_limited,
  onboarding_translate_route,
}
use foreignreader_be.Translate.{
  TranslateRequest, TranslateResponse, Translated, serve_translate_context,
}
use foreignreader_be.Auth.Token.{parse_bearer}
use foreignreader_be.Auth.Token.Bearer.{parse_bearer-word}

-- The window lets the call through, or does not limit.
abbrev pub IsAllowed : String → ℤ → ℕ → Window → Type 0
IsAllowed key limit now m = is_positive limit ≡ true → (allow key limit minute now m).0 ≡ true

with_rate-success {ℓ} :
    {S : Type 0} {A : Type ℓ} (key : String) (limit : ℤ) (next : Stateful S A) (m : Window) (s : S)
    (w : World) {a : A}
    → (with_rate key limit next (m, s) w).0 ≡ success a
    → IsAllowed key limit w.env.now m
      × ((next s w).0 ≡ success a)
      × ((with_rate key limit next (m, s) w).2 ≡ (next s w).2)
unfolding with_rate
with_rate-success key limit next m s w h = ((λ p. ground arith), ground arith, ground arith)

token_error-success {ℓ} : {A : Type ℓ} {a : A} (e : Error) → token_error e ≡ success a → ⊥
unfolding token_error
token_error-success e h = ground arith

validate_and_touch-env :
    (hash : String → String) (raw ip : String) (w : World)
    → (validate_and_touch hash raw ip w).1.env ≡ w.env
unfolding validate_and_touch foreignreader_be.Db.query foreignreader_be.Onboarding.touch
validate_and_touch-env hash raw ip w = ground arith

module _ (hash : String → String) (host_of : String → Option String) (cfg : OnboardingConfig) where
  -- The request carries the token of a row that is neither revoked nor expired, and has the scope.
  abbrev pub Carries : Request → ℕ → World → Type 0
  Carries r id w =
      (raw : String) × (row : OnboardingToken) × (parse_bearer r.authorization ≡ some raw)
      × (by_hash (hash (trim_space raw)) w.tables ≡ some row)
      × (row.id ≡ id)
      × (row.status ≡ Status.active)
      × (w.env.now < row.expires_at)
      × (row.scope ≡ scope_onboarding_translate)

  with_bearer-success {ℓ} :
      {S : Type 0} {A : Type ℓ} (r : Request) (o : Option String) (next : ℕ → Stateful S A) (s : S)
      (w : World) {a : A}
      → parse_bearer r.authorization ≡ o
      → (with_bearer hash host_of cfg r o next s w).0 ≡ success a
      → (id : ℕ) × Carries r id w
        × ((w' : World) × (w'.env ≡ w.env) × ((next id s w').0 ≡ success a))
  with_bearer-success r none next s w e h = cc
  with_bearer-success r (some raw) next s w e h =
      elim (Result-cases (validate_and_touch hash raw (client_ip host_of r) w).0) [
        | inr (bad, e') ↦ absurd (token_error-success bad (rw e' at h))
        | inl (id, good) ↦
            let (row, found, same, active, early, scope) =
              validate_and_touch-ok hash raw (client_ip host_of r) w good in
            (
              id,
              (raw, row, e, found, same, active, early, scope),
              (
                (validate_and_touch hash raw (client_ip host_of r) w).1,
                validate_and_touch-env hash raw (client_ip host_of r) w,
                rw good at h,
              ),
            )
      ]

  module _ (client : String → String → String → String → Translated)
      (uuid_string : ℕ → String) where
    context-success :
        (r : Request) (body : Option TranslateRequest) (w : World) {out : TranslateResponse}
        → (handle_onboarding_translate_context hash host_of cfg client uuid_string r body w).0
          ≡ success out
        → (req : TranslateRequest) × (body ≡ some req)
          × (serve_translate_context client 0 req ≡ success out)
    unfolding handle_onboarding_translate_context
    context-success r none w h = absurd (ground arith)
    context-success r (some req) w h = (req, refl, ground arith)

    -- A translation that the onboarding route answers with was let through by the window of the
    -- client's address; the request carries the token of a row that is neither revoked nor expired
    -- and has the scope; the window of this token let it through; and the answer is what the
    -- translation of the decoded body gave.
    pub onboarding_translate_route-admitted :
        (r : Request) (body : Option TranslateRequest) (m_ip m_token : Window) (w : World)
        {out : TranslateResponse}
        → (onboarding_translate_route hash host_of cfg client uuid_string r body
            (m_ip, (m_token, tt))
            w).0
          ≡ success out
        → (id : ℕ) × (req : TranslateRequest) × IsAllowed
            (append "onboarding_translate_ip:" (client_ip host_of r))
            cfg.onboarding_translate_rate_limit_per_ip
            w.env.now
            m_ip
          × Carries r id w
          × IsAllowed
              (append "onboarding_translate_tok:" (uuid_string id))
              cfg.onboarding_translate_rate_limit_per_token
              w.env.now
              m_token
          × (body ≡ some req)
          × (serve_translate_context client 0 req ≡ success out)
    unfolding onboarding_translate_route onboarding_opaque_bearer_middleware
    onboarding_translate_route-admitted r body m_ip m_token w h =
        let (by_ip, h1, _) =
          with_rate-success (append "onboarding_translate_ip:" (client_ip host_of r))
            cfg.onboarding_translate_rate_limit_per_ip
            (onboarding_opaque_bearer_middleware hash host_of cfg r
              (token_limited hash host_of cfg client uuid_string r body))
            m_ip (m_token, tt) w h in
        let (id, carries, (w', env, h2)) =
          with_bearer-success r (parse_bearer r.authorization)
            (token_limited hash host_of cfg client uuid_string r body) (m_token, tt) w refl h1 in
        let (by_token, h3, _) =
          with_rate-success (append "onboarding_translate_tok:" (uuid_string id))
            cfg.onboarding_translate_rate_limit_per_token
            (unrated
              (handle_onboarding_translate_context hash host_of cfg client uuid_string r body))
            m_token tt w' h2 in
        let (req, decoded, served) = context-success r body w' h3 in
        (id, req, by_ip, carries, rw env at by_token, decoded, served)

  admitted {ℓ} :
      {S : Type 0} {A : Type ℓ} (p : Result ℕ × World) (s : S) (next : ℕ → Stateful S A)
      → ((id : ℕ) → p.0 ≡ ok id → admit hash host_of cfg p s next ≡ next id s p.1)
        × (p.0 ≡ err failed → (admit hash host_of cfg p s next).0 ≡ api_error 500 "internal_error")
  unfolding token_error
  admitted (ok i, w) s next = ((λ id h. ground arith), (λ h. cc))
  admitted (err e, w) s next = ((λ id h. cc), (λ h. ground arith))

  session-success :
      (r : Request) (s : SessionRequest) (w : World) {a : SessionResponse}
      → (handle_onboarding_session hash host_of cfg r (some s) w).0 ≡ success a
      → ((issue hash s.app_version s.device_id s.platform
            (client_ip host_of r)
            cfg.onboarding_session_token_ttl
            w).0
          ≡ ok (a.access_token, a.expires_at))
        × ((issue hash s.app_version s.device_id s.platform
              (client_ip host_of r)
              cfg.onboarding_session_token_ttl
              w).1.tables
            ≡ (handle_onboarding_session hash host_of cfg r (some s) w).1.tables)
        × (trim_space s.app_token ≡ cfg.onboarding_context_translate_token)
  unfolding handle_onboarding_session
  session-success r s w h = (
    ground arith,
    ground arith,
    (eq_iff (trim_space s.app_token) cfg.onboarding_context_translate_token).0 (ground arith),
  )

  -- Provided that the token has no blanks around it and is not empty: a session that is answered with
  -- success was asked for with the configured app token. As long as its token has not expired, in every
  -- world with the tables that it left, a request that carries the token reaches `next` with
  -- the token's id, or the database fails.
  pub handle_onboarding_session-admitted {ℓ} :
      {S : Type 0} {A : Type ℓ} (r r' : Request) (body : SessionRequest) (next : ℕ → Stateful S A)
      (s : S) (w w' : World) {a : SessionResponse}
      → (handle_onboarding_session hash host_of cfg r (some body) w).0 ≡ success a
      → trim_space a.access_token ≡ a.access_token
      → is_empty a.access_token ≡ false
      → r'.authorization ≡ append "Bearer " a.access_token
      → w'.tables ≡ (handle_onboarding_session hash host_of cfg r (some body) w).1.tables
      → w'.env.now < a.expires_at
      → let answer = onboarding_opaque_bearer_middleware hash host_of cfg r' next s w' in
        (trim_space body.app_token ≡ cfg.onboarding_context_translate_token)
        × (((w'' : World) × (answer ≡ next (w.env.uuid w.tables.drawn) s w''))
            ⊎ (answer.0 ≡ api_error 500 "internal_error"))
  unfolding onboarding_opaque_bearer_middleware token_error
  handle_onboarding_session-admitted r r' body next s w w' {a} h word full carried same early =
      let (issued, tables, app) = session-success r body w h in
      let found : parse_bearer r'.authorization ≡ some a.access_token =
        rw carried (parse_bearer-word a.access_token word full) in
      let ip = client_ip host_of r in
      (
        app,
        elim (validate_and_touch-issue hash body.app_version body.device_id body.platform ip
            (client_ip host_of r') a.access_token cfg.onboarding_session_token_ttl a.expires_at w w'
            issued word full (rw tables same) early) [
              | inl good ↦ inl (
                (validate_and_touch hash a.access_token (client_ip host_of r') w').1,
                rw found (
                    (admitted (validate_and_touch hash a.access_token (client_ip host_of r') w') s
                        next).0
                      (w.env.uuid w.tables.drawn) good),
              )
              | inr bad ↦ inr (
                  rw found (
                    (admitted (validate_and_touch hash a.access_token (client_ip host_of r') w') s
                        next).1
                      bad))
            ],
      )

-- ===== src/Onboarding/Routes.antt =====
-- internal/server/onboarding_access.go and its registration in routes_api_v1.go: what a client
-- without an account can ask for. The counters of the rate limits are explicit state.
pub mod Admitted
use foreignreader_be.Base.{
  ℕ, String, str_eq, Bool, true, false, ◌&&◌, not, List, [], ◌∷◌, Option, none, some, ℤ,
  is_positive, if◌then◌else◌, append, split, trim_space, is_empty,
}
use foreignreader_be.Db.{
  Error, token_invalid, token_expired, token_revoked, insufficient_scope, Result, ok, err, World,
}
use foreignreader_be.Http.{Response, success, api_error, Handler, reject, reject_if}
use foreignreader_be.RateLimit.{Window, allow}
use foreignreader_be.Onboarding.{issue, validate_and_touch}
use foreignreader_be.Translate.{
  TranslateRequest, TranslateResponse, Translated, serve_translate_context,
}
use foreignreader_be.Auth.Token.{parse_bearer}

-- A handler that keeps a state between requests.
abbrev pub Stateful {ℓ} : Type 0 → Type ℓ → Type ℓ
Stateful S A = S → World → Response A × S × World

-- A handler that keeps none.
abbrev pub unrated {ℓ} : {A : Type ℓ} → Handler A → Stateful (Unit {0}) A
unrated h s w = ((h w).0, s, (h w).1)

-- The headers and the address of a request; a missing header is empty.
pub record Request : Type 0 where
  pub x_forwarded_for : String
  pub remote_addr : String
  pub authorization : String
  pub is_json : Bool

abbrev first_part : List String → String
first_part [] = ""
first_part (p ∷ ps) = trim_space p

abbrev host_or : String → Option String → String
host_or addr none = addr
host_or addr (some host) = host

-- clientIP; `host_of` is the host of net.SplitHostPort, or none.
unfoldable pub client_ip : (String → Option String) → Request → String
client_ip host_of r =
    if not (is_empty r.x_forwarded_for)
      && not (is_empty (first_part (split b',' r.x_forwarded_for)))
    then first_part (split b',' r.x_forwarded_for)
    else host_or r.remote_addr (host_of r.remote_addr)

-- secureAppTokenEqual; texts of other lengths differ.
abbrev pub secure_app_token_equal : String → String → Bool
secure_app_token_equal client server = str_eq client server

abbrev pub minute : ℕ
minute = 60_000_000_000

abbrev count_in {ℓ} :
    {S : Type 0} {A : Type ℓ}
    → String
    → ℤ
    → Stateful S A
    → Window
    → S
    → World
    → Response A × (Window × S) × World
count_in key limit next m s w =
    let (allowed, m') = allow key limit minute w.env.now m in
    let (answer, s', w') = next s w in
    if allowed then (answer, (m', s'), w') else (api_error 429 "rate_limited", (m', s), w)

-- `if limit > 0 && !wl.Allow(key, limit, time.Minute) { …; return }; next(w, r)`.
unfoldable pub with_rate {ℓ} :
    {S : Type 0} {A : Type ℓ} → String → ℤ → Stateful S A → Stateful (Window × S) A
unfolding allow
with_rate key limit next (m, s) w =
    let (answer, s', w') = next s w in
    if is_positive limit then count_in key limit next m s w else (answer, (m, s'), w')

-- withOnboardingSessionIPRate and withOnboardingTranslateIPRate.
abbrev pub with_onboarding_session_ip_rate {ℓ} :
    {S : Type 0} {A : Type ℓ} → String → ℤ → Stateful S A → Stateful (Window × S) A
with_onboarding_session_ip_rate ip limit next =
    with_rate (append "onboarding_session_ip:" ip) limit next

abbrev pub with_onboarding_translate_ip_rate {ℓ} :
    {S : Type 0} {A : Type ℓ} → String → ℤ → Stateful S A → Stateful (Window × S) A
with_onboarding_translate_ip_rate ip limit next =
    with_rate (append "onboarding_translate_ip:" ip) limit next

-- withOnboardingTranslateTokenRate behind onboardingOpaqueBearerMiddleware, which gives it the
-- token's id, here as a text.
abbrev pub with_onboarding_translate_token_rate {ℓ} :
    {S : Type 0} {A : Type ℓ} → String → ℤ → Stateful S A → Stateful (Window × S) A
with_onboarding_translate_token_rate id limit next =
    with_rate (append "onboarding_translate_tok:" id) limit next

-- The errors of onboardingOpaqueBearerMiddleware.
unfoldable pub token_error {ℓ} : {A : Type ℓ} → Error → Response A
token_error Error.token_invalid = api_error 401 "invalid_token"
token_error Error.token_expired = api_error 401 "token_expired"
token_error Error.token_revoked = api_error 401 "token_revoked"
token_error Error.insufficient_scope = api_error 403 "insufficient_scope"
token_error _ = api_error 500 "internal_error"

-- onboardingSessionRequest and the answer.
pub record SessionRequest : Type 0 where
  pub app_token : String
  pub app_version : String
  pub device_id : String
  pub platform : String

pub record SessionResponse : Type 0 where
  pub access_token : String
  pub expires_at : ℕ

-- What the routes take from the configuration.
pub record OnboardingConfig : Type 0 where
  pub onboarding_context_translate_token : String
  pub onboarding_session_token_ttl : ℤ
  pub onboarding_session_rate_limit_per_ip : ℤ
  pub onboarding_translate_rate_limit_per_ip : ℤ
  pub onboarding_translate_rate_limit_per_token : ℤ

module _ (hash : String → String) (host_of : String → Option String) (cfg : OnboardingConfig) where
  abbrev admit {ℓ} :
      {S : Type 0} {A : Type ℓ} → Result ℕ × World → S → (ℕ → Stateful S A) → Response A × S × World
  admit (err e, w) s next = (token_error e, s, w)
  admit (ok id, w) s next = next id s w

  abbrev with_bearer {ℓ} :
      {S : Type 0} {A : Type ℓ} → Request → Option String → (ℕ → Stateful S A) → Stateful S A
  with_bearer r none next = λ s w. (api_error 401 "unauthorized", s, w)
  with_bearer r (some raw) next =
      λ s w. admit (validate_and_touch hash raw (client_ip host_of r) w) s next

  -- onboardingOpaqueBearerMiddleware; `next` gets the token's id.
  unfoldable pub onboarding_opaque_bearer_middleware {ℓ} :
      {S : Type 0} {A : Type ℓ} → Request → (ℕ → Stateful S A) → Stateful S A
  unfolding validate_and_touch parse_bearer client_ip token_error
  onboarding_opaque_bearer_middleware r next = with_bearer r (parse_bearer r.authorization) next

  abbrev issued : Result (String × ℕ) × World → Response SessionResponse × World
  issued (err e, w) = (api_error 500 "internal_error", w)
  issued (ok (raw, expires), w) = (success (record { access_token = raw; expires_at = expires }), w)

  abbrev session_decoded : Request → Option SessionRequest → Handler SessionResponse
  session_decoded r none = reject 400 "invalid_request"
  session_decoded r (some s) = reject_if (is_empty (trim_space s.app_token)) 401 "unauthorized" (
      reject_if
        (not
          (secure_app_token_equal (trim_space s.app_token) cfg.onboarding_context_translate_token))
        403 "forbidden"
        (reject_if (is_empty (trim_space s.app_version)) 400 "invalid_request" (λ w. issued (
          issue hash s.app_version s.device_id s.platform (client_ip host_of r)
            cfg.onboarding_session_token_ttl w))))

  -- handleOnboardingSession; the body is none if decoding it failed.
  unfoldable pub handle_onboarding_session :
      Request → Option SessionRequest → Handler SessionResponse
  unfolding issue client_ip
  handle_onboarding_session r body =
      reject_if (is_empty cfg.onboarding_context_translate_token) 503 "not_configured"
        (reject_if (not r.is_json) 415 "invalid_request" (session_decoded r body))

  -- `POST /api/v1/onboarding/session`.
  unfoldable pub onboarding_session_route :
      Request → Option SessionRequest → Stateful (Window × Unit {0}) SessionResponse
  unfolding handle_onboarding_session with_rate client_ip
  onboarding_session_route r body =
      with_onboarding_session_ip_rate (client_ip host_of r) cfg.onboarding_session_rate_limit_per_ip
        (unrated (handle_onboarding_session r body))

  module _ (client : String → String → String → String → Translated)
      (uuid_string : ℕ → String) where
    abbrev translate_decoded : Option TranslateRequest → Handler TranslateResponse
    translate_decoded none = reject 400 "invalid_request"
    translate_decoded (some req) = λ w. (serve_translate_context client 0 req, w)

    -- handleOnboardingTranslateContext.
    unfoldable pub handle_onboarding_translate_context :
        Request → Option TranslateRequest → Handler TranslateResponse
    unfolding serve_translate_context
    handle_onboarding_translate_context r body =
        reject_if (not r.is_json) 415 "invalid_request" (translate_decoded body)

    abbrev pub token_limited :
        Request → Option TranslateRequest → ℕ → Stateful (Window × Unit {0}) TranslateResponse
    token_limited r body id =
        with_onboarding_translate_token_rate (uuid_string id)
          cfg.onboarding_translate_rate_limit_per_token
          (unrated (handle_onboarding_translate_context r body))

    -- `POST /api/v1/onboarding/translate/context`, with the windows of the addresses and the tokens.
    unfoldable pub onboarding_translate_route :
        Request
        → Option TranslateRequest
        → Stateful (Window × (Window × Unit {0})) TranslateResponse
    unfolding handle_onboarding_translate_context onboarding_opaque_bearer_middleware with_rate
        client_ip
    onboarding_translate_route r body =
        with_onboarding_translate_ip_rate (client_ip host_of r)
          cfg.onboarding_translate_rate_limit_per_ip
          (onboarding_opaque_bearer_middleware r (token_limited r body))

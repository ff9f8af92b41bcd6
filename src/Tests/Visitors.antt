-- ===== src/Tests/Visitors.antt =====
-- What users and visitors ask for, in a concrete world.
use foreignreader_be.Base.{
  ◌==◌, if◌then◌else◌, length, ℕ, suc, ◌<◌, ◌≤◌, ◌≡◌, ◌≢◌, ◌⊎◌, refl, String, Bool, true, false,
  ◌||◌, Option, some, none, List, [], ◌∷◌, arith, trim_space, is_empty, pos, all, append,
}
use Prim.Native.Char.{Char}
use foreignreader_be.Schema.{User, OnboardingToken, SubStatus, apple_iap}
use foreignreader_be.Db.{Error, World, Env, Result, ok, err, failed}
use foreignreader_be.Http.{success, api_error, Handler}
use foreignreader_be.Entitlement.{holds_pro, unexpired, has_active_pro}
use foreignreader_be.Entitlement.Grants.{holds_beside}
use foreignreader_be.Entitlement.Routes.{
  EntitlementsList, handle_me_entitlements, require_pro_middleware, free_access,
}
use foreignreader_be.Entitlement.Routes.Told.{handle_me_entitlements-told}
use foreignreader_be.AppleIap.Validate.{Service, ValidateResult}
use foreignreader_be.AppleIap.{TransactionPayload}
use foreignreader_be.AppleIap.Validate.Purchase.{IsPurchase, end_of}
use foreignreader_be.AppleIap.Validate.Route.{
  ValidateRequest, handle_apple_iap_validate, handle_apple_iap_validate-outcome,
}
use foreignreader_be.Auth.User.{new_user}
use foreignreader_be.Profile.{
  RateState, StorefrontResponse, prompt_of, get_rate_state, handle_rate_us_attempt, byte_len,
  map_chars, user_of_id, handle_put_user_storefront,
}
use foreignreader_be.Profile.Attempt.{
  handle_rate_us_attempt-stored, handle_put_user_storefront-stored,
}
use foreignreader_be.RateLimit.{new_window}
use foreignreader_be.Onboarding.{scope_onboarding_translate, new_token}
use foreignreader_be.Onboarding.Routes.{
  Stateful, Request, SessionRequest, OnboardingConfig, handle_onboarding_session,
  onboarding_opaque_bearer_middleware, onboarding_translate_route, client_ip,
}
use foreignreader_be.Onboarding.Routes.Admitted.{
  IsAllowed, Carries, onboarding_translate_route-admitted, handle_onboarding_session-admitted,
}
use foreignreader_be.Translate.{
  TranslateRequest, TranslateResponse, TranslationOutput, serve_translate_context,
}
use foreignreader_be.Billing.Customer.{Shared, run}
use foreignreader_be.Billing.Customer.Balance.{copies, named}
use foreignreader_be.Billing.Customer.Race.{nobody, requests, returns_row, run-one_customer}
use foreignreader_be.Billing.Customer.Finish.{turns}
use foreignreader_be.Billing.Customer.Succeed.{has_returned, run-succeeds}
use foreignreader_be.Quota.{fresh_quota}
use foreignreader_be.Tests.{start, no_rows_yet}
use foreignreader_be.Tests.Accounts.{ada}
use foreignreader_be.Tests.Apple.{purchase, service_of}
use foreignreader_be.Tests.Client.{client, word, output}
use foreignreader_be.Tests.Library.{digits}

abbrev user : User
user = new_user 7 50 ada

abbrev signed_up : World
signed_up = record start { tables = record no_rows_yet { users = user ∷ [] } }

handle_rate_us_attempt-stored_example :
    let s : RateState = record { last_attempt_at = 100; last_attempt_app_version = "1.2" } in
    let w' = (handle_rate_us_attempt (some user) true (some " 1.2") signed_up).1 in
    (s.last_attempt_at ≡ 100)
    × (((get_rate_state 7 w').0 ≡ ok (some s)) ⊎ ((get_rate_state 7 w').0 ≡ err failed))
    × ((other : ℕ) → other ≢ 7 → prompt_of other w'.tables ≡ prompt_of other signed_up.tables)
unfolding handle_rate_us_attempt trim_space foreignreader_be.Db.query
handle_rate_us_attempt-stored_example =
    handle_rate_us_attempt-stored user true " 1.2" signed_up
      (handle_rate_us_attempt (some user) true (some " 1.2") signed_up).1
      {s = record { last_attempt_at = 100; last_attempt_app_version = "1.2" }} refl refl

-- Every character is taken to be in upper case.
abbrev same : Char → Char
same c = c

abbrev put : StorefrontResponse
put = record { app_storefront = "DEU"; updated_at = 100 }

handle_put_user_storefront-stored_example :
    let t = (handle_put_user_storefront same (some user) true (some " DEU ") signed_up).1.tables in
    (is_empty (trim_space " DEU ") ≡ false)
    × ("DEU" ≡ map_chars same (trim_space " DEU "))
    × (byte_len "DEU" ≤ 16)
    × (put.updated_at ≡ signed_up.env.now)
    × ((old : User)
        → user_of_id 7 signed_up.tables ≡ some old
        → user_of_id 7 t
          ≡ some (record old { app_storefront = some "DEU"; app_storefront_updated_at = some 100 }))
    × ((other : ℕ) → other ≢ 7 → user_of_id other t ≡ user_of_id other signed_up.tables)
unfolding handle_put_user_storefront trim_space foreignreader_be.Db.query
handle_put_user_storefront-stored_example =
    handle_put_user_storefront-stored same user true " DEU " signed_up {r = put} refl

abbrev serve : Handler String
serve w = (success "served", w)

abbrev told : EntitlementsList
told = record { entitlements = []; effective_access = free_access (fresh_quota 7 3 5) }

handle_me_entitlements-told_example :
    let answer = require_pro_middleware (some 7) serve start in
    let w'' = (has_active_pro 7 start).1 in
    (false ≡ holds_pro 100 7 no_rows_yet)
    × ((answer.0 ≡ api_error 500 "internal_error")
        ⊎ ((false ≡ true → answer ≡ (success "served", w''))
            × (false ≡ false → answer ≡ (api_error 403 "forbidden", w''))))
unfolding handle_me_entitlements foreignreader_be.Db.query foreignreader_be.Quota.ensure_row
handle_me_entitlements-told_example =
    handle_me_entitlements-told 5 7 serve start start {a = told} refl refl refl

abbrev purchased : ValidateRequest
purchased = record { source = "app"; transaction_id = " t1 " }

handle_apple_iap_validate-outcome_example :
    let (answer, w') =
      handle_apple_iap_validate true
        (some (service_of purchase))
        (some 7)
        true
        (some purchased)
        start in
    ((status : ℕ) (code : String) → answer ≡ api_error status code → w'.tables ≡ no_rows_yet)
    × ((r : ValidateResult)
        → answer ≡ success r
        → (s : Service) × (p : TransactionPayload) × (some (service_of purchase) ≡ some s)
          × IsPurchase s (trim_space " t1 ") p
          × (r.expires ≡ end_of p)
          × (r.status ≡ SubStatus.active)
          × (unexpired 100 r.expires ≡ true)
          × (holds_pro 200 7 w'.tables
              ≡ (unexpired 200 r.expires || holds_beside apple_iap 200 7 no_rows_yet)))
handle_apple_iap_validate-outcome_example =
    handle_apple_iap_validate-outcome true (some (service_of purchase)) 7 true purchased 200 start

-- The hash is the token itself, and an address has no port.
abbrev hash : String → String
hash s = s

abbrev host_of : String → Option String
host_of s = none

abbrev config : OnboardingConfig
config = record {
  onboarding_context_translate_token = "app";
  onboarding_session_token_ttl = pos 900;
  onboarding_session_rate_limit_per_ip = pos 2;
  onboarding_translate_rate_limit_per_ip = pos 2;
  onboarding_translate_rate_limit_per_token = pos 2;
}

abbrev request : Request
request = record {
  x_forwarded_for = "10.0.0.1, 10.0.0.2";
  remote_addr = "10.0.0.3";
  authorization = "Bearer fresh";
  is_json = true;
}

abbrev token : OnboardingToken
token = new_token 1 "fresh" "1.0" "" "ios" "" 100 1000

abbrev issued : World
issued = record start { tables = record no_rows_yet { onboarding_tokens = token ∷ [] } }

onboarding_translate_route-admitted_example :
    (id : ℕ) × (req : TranslateRequest) × IsAllowed
      (append "onboarding_translate_ip:" (client_ip host_of request))
      (pos 2)
      100
      new_window
    × Carries hash host_of config request id issued
    × IsAllowed (append "onboarding_translate_tok:" (digits id)) (pos 2) 100 new_window
    × (some word ≡ some req)
    × (serve_translate_context client 0 req
        ≡ success (record { output = output; context_quota = none }))
unfolding onboarding_translate_route trim_space foreignreader_be.Db.query
    foreignreader_be.Onboarding.touch foreignreader_be.Translate.translate_context_run
onboarding_translate_route-admitted_example =
    onboarding_translate_route-admitted hash host_of config client digits request (some word)
      new_window new_window issued {out = record { output = output; context_quota = none }} refl

abbrev next_id : ℕ → Stateful ℕ ℕ
next_id id s w = (success id, s, w)

abbrev asked : SessionRequest
asked = record { app_token = "app "; app_version = "1.0"; device_id = ""; platform = "ios" }

handle_onboarding_session-admitted_example :
    let w' = (handle_onboarding_session hash host_of config request (some asked) start).1 in
    let answer = onboarding_opaque_bearer_middleware hash host_of config request next_id 3 w' in
    (trim_space "app " ≡ "app")
    × (((w'' : World) × (answer ≡ (success 1000, 3, w'')))
        ⊎ (answer.0 ≡ api_error 500 "internal_error"))
unfolding handle_onboarding_session trim_space foreignreader_be.Db.draw_random
    foreignreader_be.Db.query foreignreader_be.Onboarding.insert_token
handle_onboarding_session-admitted_example =
    handle_onboarding_session-admitted hash host_of config request request asked next_id 3 start
      (handle_onboarding_session hash host_of config request (some asked) start).1
      {a = record { access_token = "fresh"; expires_at = 1000 }} refl refl refl refl refl
      (omega arith)

-- Two requests; the second makes a customer too, loses the race, and deletes it.
abbrev race : List (ℕ × Bool)
race =
    (0, true)
    ∷ (1, true)
    ∷ (0, true)
    ∷ (1, true)
    ∷ (0, true)
    ∷ (1, true)
    ∷ (1, true)
    ∷ (1, true)
    ∷ (0, true)
    ∷ (0, true)
    ∷ []

run-one_customer_example :
    let (ps, s) = run race (requests 2) nobody in
    ((n : ℕ) → copies n s ≡ named n s.row) × (all (returns_row s.row) ps ≡ true)
unfolding foreignreader_be.Billing.Customer.step_at run
run-one_customer_example = run-one_customer 2 race refl refl

enough_turns : (i : ℕ) → i < 2 → 5 ≤ turns i race
enough_turns ℕ.zero h = omega arith
enough_turns (suc ℕ.zero) h = omega arith
enough_turns (suc (suc i)) h = absurd (omega arith)

run-succeeds_example :
    let (ps, s) = run race (requests 2) nobody in
    (c : ℕ) × (s.row ≡ some c)
    × ((n : ℕ) → copies n s ≡ (if c == n then 1 else 0))
    × (length ps ≡ 2)
    × (all (has_returned c) ps ≡ true)
unfolding foreignreader_be.Billing.Customer.step_at run
run-succeeds_example = run-succeeds 1 race refl enough_turns

-- ===== src/AppleIap/Validate/Route.antt =====
-- internal/server/routes_iap_apple.go: the route by which the app hands in a purchase.
use foreignreader_be.Base.{
  ℕ, ◌≡◌, ◌≢◌, refl, ◌⊎◌, inl, inr, String, Bool, true, false, not, ◌||◌, Option, none, some, arith,
  Bool-cases, trim_space, is_empty, ap, ◌∙◌,
}
use foreignreader_be.Schema.{SubStatus, apple_iap}
use foreignreader_be.Db.{Error, Result, ok, err, World}
use foreignreader_be.Http.{Response, success, api_error, Handler, reject, reject_if}
use foreignreader_be.Entitlement.{holds_pro, unexpired}
use foreignreader_be.Entitlement.Grants.{holds_beside}
use foreignreader_be.AppleIap.Validate.{Service, ValidateResult, validate_transaction}
use foreignreader_be.AppleIap.Validate.Outcome.{
  validate_transaction-err, validate_transaction-holds_pro,
}
use foreignreader_be.AppleIap.{TransactionPayload}
use foreignreader_be.AppleIap.Validate.Purchase.{
  IsPurchase, end_of, validate_transaction-IsPurchase,
}
use foreignreader_be.Auth.Login.{AuthRequestSource}
use foreignreader_be.Auth.Login.Routes.{ParsedSource, parsed, parse_auth_request_source_field}

-- appleIAPValidateRequest.
pub record ValidateRequest : Type 0 where
  pub source : String
  pub transaction_id : String

-- The errors of ValidateTransaction.
unfoldable pub validate_error : Error → Response ValidateResult
validate_error Error.unknown_product = api_error 400 "unknown_product"
validate_error Error.not_entitled = api_error 403 "subscription_inactive"
validate_error _ = api_error 502 "iap_validation_failed"

abbrev validated : Result ValidateResult × World → Response ValidateResult × World
validated (err e, w) = (validate_error e, w)
validated (ok r, w) = (success r, w)

abbrev with_service : ℕ → String → Option Service → Handler ValidateResult
with_service user id none = reject 500 "internal_error"
with_service user id (some svc) = λ w. validated (validate_transaction svc user (trim_space id) w)

abbrev is_app : ParsedSource → Bool
is_app (parsed AuthRequestSource.app) = true
is_app _ = false

abbrev validate_decoded : ℕ → Option Service → Option ValidateRequest → Handler ValidateResult
validate_decoded user svc none = reject 400 "invalid_request"
validate_decoded user svc (some r) =
    reject_if (not (is_app (parse_auth_request_source_field r.source))) 400 "invalid_source" (
      reject_if (is_empty (trim_space r.transaction_id)) 400 "missing_transaction_id"
        (with_service user r.transaction_id svc))

-- handleAppleIAPValidate. `user` is UserFromContext, `configured` AppleIAPConfigured; the service is
-- none if its client cannot be made; the body is none if decoding it failed. The answer is what
-- ValidateTransaction returned, to which the code adds constants.
unfoldable pub handle_apple_iap_validate :
    Bool → Option Service → Option ℕ → Bool → Option ValidateRequest → Handler ValidateResult
unfolding validate_transaction validate_error parse_auth_request_source_field
handle_apple_iap_validate configured svc none is_json body = reject 401 "unauthorized"
handle_apple_iap_validate configured svc (some user) is_json body =
    reject_if (not is_json) 415 "invalid_request"
      (reject_if (not configured) 503 "iap_unavailable" (validate_decoded user svc body))

validated-cases :
    (p : Result ValidateResult × World)
    → ((validated p).1 ≡ p.1)
      × ((r : ValidateResult) → (validated p).0 ≡ success r → p.0 ≡ ok r)
      × ((status : ℕ) (code : String)
          → (validated p).0 ≡ api_error status code
          → (e : Error) × (p.0 ≡ err e))
unfolding validate_error
validated-cases (ok r, w) = (refl, (λ r' h. ground arith), λ status code h. cc)
validated-cases (err e, w) = (refl, (λ r' h. ground arith), λ status code h. (e, refl))

-- The requests that get as far as ValidateTransaction.
reached :
    (configured : Bool) (svc : Option Service) (user : ℕ) (is_json : Bool) (body : ValidateRequest)
    (w : World)
    → ((handle_apple_iap_validate configured svc (some user) is_json (some body) w).1 ≡ w)
        × ((r : ValidateResult)
            → (handle_apple_iap_validate configured svc (some user) is_json (some body) w).0
              ≢ success r)
      ⊎ ((s : Service) × (svc ≡ some s)
          × (handle_apple_iap_validate configured svc (some user) is_json (some body) w
              ≡ validated (validate_transaction s user (trim_space body.transaction_id) w)))
unfolding handle_apple_iap_validate
reached configured none user is_json body w = inl (ground arith, λ r. ground arith)
reached configured (some s) user is_json body w =
    elim (Bool-cases (
      not is_json
      || not configured
      || not (is_app (parse_auth_request_source_field body.source))
      || is_empty (trim_space body.transaction_id))) [
        | inl stopped ↦ inl (ground arith, λ r. ground arith)
        | inr through ↦ inr (s, refl, ground arith)
      ]

-- A purchase that is handed in and answered with any error leaves the tables as they were. One that
-- is answered with success is of a transaction that Apple told for the id, itself or as the newest
-- one of a renewal's line, which is of the configured product, has not been revoked and has not
-- expired; it is answered as active with the transaction's end, and leaves the user with Pro access
-- until then, or as long as another source grants it.
pub handle_apple_iap_validate-outcome :
    (configured : Bool) (svc : Option Service) (user : ℕ) (is_json : Bool) (body : ValidateRequest)
    (at : ℕ) (w : World)
    → let (answer, w') =
        handle_apple_iap_validate configured svc (some user) is_json (some body) w in
      ((status : ℕ) (code : String) → answer ≡ api_error status code → w'.tables ≡ w.tables)
      × ((r : ValidateResult)
          → answer ≡ success r
          → (s : Service) × (p : TransactionPayload) × (svc ≡ some s)
            × IsPurchase s (trim_space body.transaction_id) p
            × (r.expires ≡ end_of p)
            × (r.status ≡ SubStatus.active)
            × (unexpired w.env.now r.expires ≡ true)
            × (holds_pro at user w'.tables
                ≡ (unexpired at r.expires || holds_beside apple_iap at user w.tables)))
handle_apple_iap_validate-outcome configured svc user is_json body at w =
    elim (reached configured svc user is_json body w) [
      | inl (same, refused) ↦
          ((λ status code h. ap (λ (x : World). x.tables) same), (λ r h. absurd (refused r h)))
      | inr (s, made, same) ↦
          let id = trim_space body.transaction_id in
          let (world, good, bad) = validated-cases (validate_transaction s user id w) in
          rw same (
            (λ status code h.
                let (e, k) = bad status code h in
                ap (λ (x : World). x.tables) world ∙ validate_transaction-err s user id w k),
            (λ r h.
                let (active, early, holds) =
                  validate_transaction-holds_pro s user id at w (good r h) in
                let (p, purchase, end) = validate_transaction-IsPurchase s user id w (good r h) in
                (
                  s,
                  p,
                  made,
                  purchase,
                  end,
                  active,
                  early,
                  ap (λ (x : World). holds_pro at user x.tables) world ∙ holds,
                )),
          )
    ]

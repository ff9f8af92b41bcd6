-- ===== src/Entitlement/Routes.antt =====
-- internal/server/routes_entitlements.go: what a user is told of the own access, the switch for
-- development, and the middleware that asks for Pro. `user` is UserFromContext.
pub mod Told
use foreignreader_be.Base.{
  ℕ, ◌-◌, String, Bool, true, false, not, List, [], ◌∷◌, Option, none, some, if◌then◌else◌, map,
}
use foreignreader_be.Schema.{Status, Source, Entitlement, Quota}
use foreignreader_be.Db.{Error, Result, ok, err, World}
use foreignreader_be.Http.{Response, success, api_error, Handler, reject, reject_if}
use foreignreader_be.Entitlement.{has_active_pro, active_pro_access, list_by_user, set_dev_pro}
use foreignreader_be.Quota.{ensure_current_month_row}
use foreignreader_be.Translate.{QuotaPublic, public}

-- entitlementPublic.
pub record EntitlementPublic : Type 0 where
  pub product_code : String
  pub status : Status
  pub source : Source
  pub expires_at : Option ℕ

-- entitlementPublicFrom.
abbrev pub entitlement_public_from : Entitlement → EntitlementPublic
entitlement_public_from e = record {
  product_code = e.product_code;
  status = e.status;
  source = e.source;
  expires_at = e.expires_at;
}

-- effectiveAccessPublic; the plan is "pro" or "free" as `is_pro` says, an absent source is none.
pub record EffectiveAccess : Type 0 where
  pub is_pro : Bool
  pub plan : String
  pub source : Option Source
  pub expires_at : Option ℕ
  pub context_quota : Option QuotaPublic

pub record EntitlementsList : Type 0 where
  pub entitlements : List EntitlementPublic
  pub effective_access : EffectiveAccess

abbrev pub pro_access : Option (Source × Option ℕ) → EffectiveAccess
pro_access none = record {
  is_pro = true;
  plan = "pro";
  source = none;
  expires_at = none;
  context_quota = none;
}
pro_access (some (s, expires)) = record {
  is_pro = true;
  plan = "pro";
  source = some s;
  expires_at = expires;
  context_quota = none;
}

abbrev pub free_access : Quota → EffectiveAccess
free_access q = record {
  is_pro = false;
  plan = "free";
  source = none;
  expires_at = none;
  context_quota = some (public q);
}

abbrev listing : List Entitlement → EffectiveAccess → Response EntitlementsList
listing es a =
    success (record { entitlements = map entitlement_public_from es; effective_access = a })

abbrev with_access :
    List Entitlement
    → Result (Option (Source × Option ℕ)) × World
    → Response EntitlementsList × World
with_access es (err e, w) = (api_error 500 "internal_error", w)
with_access es (ok a, w) = (listing es (pro_access a), w)

abbrev with_row : List Entitlement → Result Quota × World → Response EntitlementsList × World
with_row es (err e, w) = (api_error 500 "internal_error", w)
with_row es (ok q, w) = (listing es (free_access q), w)

abbrev with_plan :
    ℕ → ℕ → List Entitlement → Result Bool × World → Response EntitlementsList × World
with_plan free user es (err e, w) = (api_error 500 "internal_error", w)
with_plan free user es (ok true, w) = with_access es (active_pro_access user w)
with_plan free user es (ok false, w) = with_row es (ensure_current_month_row user free w)

abbrev with_list : ℕ → ℕ → Result (List Entitlement) × World → Response EntitlementsList × World
with_list free user (err e, w) = (api_error 500 "internal_error", w)
with_list free user (ok es, w) = with_plan free user es (has_active_pro user w)

-- handleMeEntitlements; `free` is cfg.FreeContextTranslationsPerMonth.
unfoldable pub handle_me_entitlements : ℕ → Option ℕ → Handler EntitlementsList
unfolding list_by_user has_active_pro active_pro_access ensure_current_month_row
handle_me_entitlements free none = reject 401 "unauthorized"
handle_me_entitlements free (some user) = λ w. with_list free user (list_by_user user w)

abbrev dev_answer : Result Entitlement × World → Response EntitlementPublic × World
dev_answer (err e, w) = (api_error 500 "internal_error", w)
dev_answer (ok e, w) = (success (entitlement_public_from e), w)

abbrev dev_active : ℕ → Option Bool → Handler EntitlementPublic
dev_active user none = reject 400 "invalid_request"
dev_active user (some b) = λ w. dev_answer (set_dev_pro true user b w)

abbrev dev_decoded : ℕ → Option (Option Bool) → Handler EntitlementPublic
dev_decoded user none = reject 400 "invalid_request"
dev_decoded user (some b) = dev_active user b

-- handleDevProPOST; the body is its `active`, or none if reading or decoding it failed.
unfoldable pub handle_dev_pro_post :
    Option ℕ → Bool → Option (Option Bool) → Handler EntitlementPublic
unfolding set_dev_pro
handle_dev_pro_post none is_json body = reject 401 "unauthorized"
handle_dev_pro_post (some user) is_json body =
    reject_if (not is_json) 415 "invalid_request" (dev_decoded user body)

-- `POST /api/v1/dev/entitlements/pro`, which is hidden unless mock logins are allowed.
unfoldable pub dev_entitlements_route :
    Bool → Option ℕ → Bool → Option (Option Bool) → Handler EntitlementPublic
unfolding handle_dev_pro_post
dev_entitlements_route mock_allowed user is_json body =
    reject_if (not mock_allowed) 404 "not_found" (handle_dev_pro_post user is_json body)

abbrev if_pro {ℓ} : {A : Type ℓ} → Handler A → Result Bool × World → Response A × World
if_pro next (err e, w) = (api_error 500 "internal_error", w)
if_pro next (ok false, w) = (api_error 403 "forbidden", w)
if_pro next (ok true, w) = next w

-- requireProMiddleware.
unfoldable pub require_pro_middleware {ℓ} : {A : Type ℓ} → Option ℕ → Handler A → Handler A
unfolding has_active_pro
require_pro_middleware none next = reject 401 "unauthorized"
require_pro_middleware (some user) next = λ w. if_pro next (has_active_pro user w)

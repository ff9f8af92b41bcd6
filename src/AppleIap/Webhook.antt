-- ===== src/AppleIap/Webhook.antt =====
-- internal/server/routes_iap_apple_webhook.go, with VerifyAndDecodeNotification of
-- internal/appleiap/notifications.go.
pub mod State
pub mod Delivery
use foreignreader_be.Base.{
  ℕ, String, str_eq, Bool, true, false, ◌&&◌, ◌||◌, not, Option, none, some, if◌then◌else◌, ltb,
  pos, is_positive, trim_space, is_empty, upper_eq,
}
use foreignreader_be.Schema.{SubStatus, AppleSubscription}
use foreignreader_be.Db.{
  Error, Result, ok, err, Db, World, pure, fail, attempt, get_now, tx_query,
  transaction_or_rollback, ◌>>=◌, ◌>>◌,
}
use foreignreader_be.Http.{Response, success, api_error, Handler, reject, reject_if}
use foreignreader_be.Entitlement.{product_pro, upsert_apple_iap_pro, revoke_apple_iap_pro}
use foreignreader_be.AppleIap.{
  TransactionPayload, expires_at, insert_apple_event, mark_apple_event_processed,
  subscription_by_original, parse_environment, update_subscription_state,
}
use foreignreader_be.AppleIap.Validate.{Service, validate_transaction}

-- NotificationPayload with its data, as far as the code reads them.
pub record Notification : Type 0 where
  pub notification_uuid : String
  pub notification_type : String
  pub subtype : String
  pub environment : String
  pub bundle_id : String
  pub signed_transaction_info : String

-- What the handler calls and reads: decoding the envelope, VerifyJWS with decoding at the two
-- types, google/uuid, the configuration, and the service that self-healing builds (none if the
-- configuration does not allow it).
pub record WebhookConfig : Type 0 where
  pub decode_envelope : String → Option String
  pub verify_notification_jws : String → Option Notification
  pub verify_transaction_jws : String → Option TransactionPayload
  pub parse_uuid : String → Option ℕ
  pub bundle_id : String
  pub environment : String
  pub service : Option Service

-- VerifyAndDecodeNotification; none is any of its errors.
abbrev with_uuid : Option Notification → Option Notification
with_uuid none = none
with_uuid (some np) = if is_empty (trim_space np.notification_uuid) then none else some np

-- A transaction payload with every field at Go's zero value.
abbrev pub no_transaction : TransactionPayload
no_transaction = record {
  transaction_id = "";
  original_transaction_id = "";
  product_id = "";
  purchase_date = pos 0;
  expires_date = pos 0;
  environment = "";
  revocation_date = pos 0;
  app_account_token = "";
}

abbrev is_past : ℕ → Option ℕ → Bool
is_past now none = false
is_past now (some t) = not (ltb now t)

-- `strings.ToUpper(strings.TrimSpace(s)) == t`.
abbrev pub named : String → String → Bool
named s t = upper_eq (trim_space s) t

-- deriveAppleSubscriptionState: the status; the expiry beside it is always ExpiresAt.
unfoldable pub derive_state : ℕ → String → String → TransactionPayload → SubStatus
derive_state now type subtype txp =
    if is_positive txp.revocation_date || named type "REVOKE" || named type "REFUND"
    then SubStatus.revoked
    else if named type "EXPIRED"
    then SubStatus.expired
    else if is_past now (expires_at txp)
    then SubStatus.expired
    else if named type "DID_FAIL_TO_RENEW"
    then SubStatus.billing_retry
    else if named type "DID_ENTER_GRACE_PERIOD" || named subtype "GRACE_PERIOD"
    then SubStatus.grace_period
    else if named type "GRACE_PERIOD_EXPIRED"
    then SubStatus.expired
    else SubStatus.active

-- deriveAppleEnv; the result is lowered where it is read.
unfoldable pub derive_env : WebhookConfig → Notification → TransactionPayload → String
derive_env cfg np txp =
    if not (is_empty (trim_space txp.environment))
    then trim_space txp.environment
    else if not (is_empty (trim_space np.environment))
    then trim_space np.environment
    else trim_space cfg.environment

-- `grant`.
abbrev pub is_granted : SubStatus → Bool
is_granted SubStatus.active = true
is_granted SubStatus.grace_period = true
is_granted SubStatus.billing_retry = true
is_granted SubStatus.expired = false
is_granted SubStatus.revoked = false

abbrev pub apply_grant : Bool → ℕ → Option ℕ → Db (Unit {0})
apply_grant true user expires = upsert_apple_iap_pro user expires
apply_grant false user expires = revoke_apple_iap_pro user

-- The entitlement of a subscription to Pro follows the status.
abbrev pub apply_status : AppleSubscription → SubStatus → Option ℕ → Db (Unit {0})
apply_status sub status expires =
    if str_eq sub.product_code product_pro
    then apply_grant (is_granted status) sub.user_id expires
    else pure tt

-- `_ = store.MarkAppleEventProcessed(…)`.
abbrev mark_processed : String → Db (Result (Unit {0}))
mark_processed uuid = attempt (tx_query (mark_apple_event_processed uuid))

module _ (cfg : WebhookConfig) where
  -- The subscription is known. The answer says whether to self-heal after the commit.
  unfoldable pub update_known :
      Notification → TransactionPayload → AppleSubscription → Db (Option Bool)
  update_known np txp sub = do
    now ← get_now
    let status = derive_state now (trim_space np.notification_type) (trim_space np.subtype) txp
    tx_query (
        update_subscription_state (trim_space txp.original_transaction_id)
          (trim_space txp.transaction_id) status (parse_environment (derive_env cfg np txp))
          (expires_at txp))
    (if str_eq sub.product_code product_pro
        then apply_grant (is_granted status) sub.user_id (expires_at txp)
        else pure tt)
    mark_processed np.notification_uuid
    pure (some false)

  abbrev found : Notification → TransactionPayload → Option AppleSubscription → Db (Option Bool)
  found np txp none = do mark_processed np.notification_uuid; pure (some true)
  found np txp (some sub) = update_known np txp sub

  abbrev fresh : Notification → TransactionPayload → Bool → Db (Option Bool)
  fresh np txp false = pure none
  fresh np txp true =
      if is_empty (trim_space txp.original_transaction_id)
      then (do mark_processed np.notification_uuid; pure (some false))
      else (do
        row ← tx_query (subscription_by_original (trim_space txp.original_transaction_id))
        found np txp row)

  -- The transaction of the handler: none if the notification was seen before.
  unfoldable pub notification_transaction : Notification → TransactionPayload → Db (Option Bool)
  notification_transaction np txp = transaction_or_rollback (do
    inserted ← tx_query (insert_apple_event np.notification_uuid (trim_space np.notification_type))
    fresh np txp inserted)

  abbrev heal_user : String → Option ℕ → Option Service → World → World
  heal_user id none svc w = w
  heal_user id (some user) none w = w
  heal_user id (some user) (some svc) w = (validate_transaction svc user id w).1

  -- selfHealAppleTransactionByAccountToken.
  unfoldable pub self_heal : TransactionPayload → World → World
  self_heal txp w =
      if is_empty (trim_space txp.app_account_token) || is_empty (trim_space txp.transaction_id)
      then w
      else heal_user (trim_space txp.transaction_id)
          (cfg.parse_uuid (trim_space txp.app_account_token)) cfg.service w

  abbrev answer : TransactionPayload → Result (Option Bool) × World → Response (Unit {0}) × World
  answer txp (err e, w) = (api_error 500 "internal_error", w)
  answer txp (ok none, w) = (success tt, w)
  answer txp (ok (some false), w) = (success tt, w)
  answer txp (ok (some true), w) = (success tt, self_heal txp w)

  abbrev process : Notification → Option TransactionPayload → Handler (Unit {0})
  process np none = reject 400 "invalid_signature"
  process np (some txp) = λ w. answer txp (notification_transaction np txp w)

  -- The bundle of the notification is not the configured one.
  abbrev wrong_bundle : Notification → Bool
  wrong_bundle np =
      not (is_empty (trim_space np.bundle_id))
      && (not (is_empty (trim_space cfg.bundle_id))
          && not (str_eq (trim_space np.bundle_id) (trim_space cfg.bundle_id)))

  -- The transaction inside a notification, which may have none.
  abbrev transaction_of : Notification → Option TransactionPayload
  transaction_of np =
      if is_empty (trim_space np.signed_transaction_info)
      then some no_transaction
      else cfg.verify_transaction_jws np.signed_transaction_info

  abbrev verified : Option Notification → Handler (Unit {0})
  verified none = reject 400 "invalid_signature"
  verified (some np) =
      reject_if (wrong_bundle np) 400 "invalid_request" (process np (transaction_of np))

  abbrev enveloped : Option String → Handler (Unit {0})
  enveloped none = reject 400 "invalid_request"
  enveloped (some payload) =
      reject_if (is_empty (trim_space payload)) 400 "invalid_request"
        (verified (with_uuid (cfg.verify_notification_jws payload)))

  abbrev with_body : Option String → Handler (Unit {0})
  with_body none = reject 400 "invalid_request"
  with_body (some body) = enveloped (cfg.decode_envelope body)

  -- handleAppleIAPWebhook, behind rejectUnlessJSONContentType; `body` is none if reading failed.
  unfoldable pub handle_apple_iap_webhook : Bool → Option String → Handler (Unit {0})
  handle_apple_iap_webhook is_json body =
      reject_if (not is_json) 415 "invalid_request" (with_body body)

-- ===== src/Tests/Apple.antt =====
-- Purchases and notifications of the App Store on a concrete world.
use foreignreader_be.Base.{
  ℕ, ◌≡◌, ◌≢◌, refl, if◌then◌else◌, arith, String, Bool, true, false, ◌&&◌, ◌||◌, not, Option, none,
  some, [], ◌∷◌, pos, any, str_eq,
}
use foreignreader_be.Schema.{stripe, SubStatus, Environment, AppleSubscription}
use foreignreader_be.Db.{World, Env, ok, err, apple_api}
use foreignreader_be.Http.{success, api_error}
use foreignreader_be.Entitlement.{holds_pro, unexpired, upsert_apple_iap_pro}
use foreignreader_be.Entitlement.Unique.{
  AtMostOne, upsert_apple_iap, upsert_stripe, after_all, after_all-AtMostOne,
}
use foreignreader_be.AppleIap.{TransactionPayload, expires_at, best_pro_transaction_payload}
use foreignreader_be.AppleIap.Best.{IsBest, best_pro_transaction_payload-IsBest}
use foreignreader_be.AppleIap.Validate.{Service, ValidateResult, validate_transaction}
use foreignreader_be.AppleIap.Validate.Outcome.{validate_transaction-inactive}
use foreignreader_be.AppleIap.Webhook.{
  Notification, WebhookConfig, derive_state, is_granted, handle_apple_iap_webhook,
}
use foreignreader_be.AppleIap.Webhook.State.{
  Granted, says, seen, is_final, is_retried, is_granted-derive_state,
  handle_apple_iap_webhook-Granted,
}
use foreignreader_be.AppleIap.Webhook.Delivery.{handle_apple_iap_webhook-once}
use foreignreader_be.Tests.{start, no_rows_yet}

-- A first purchase, which expires in 1970, long after `start`.
abbrev pub purchase : TransactionPayload
purchase = record {
  transaction_id = "t1";
  original_transaction_id = "t1";
  product_id = "pro.monthly";
  purchase_date = pos 1;
  expires_date = pos 5000;
  environment = "Sandbox";
  revocation_date = pos 0;
  app_account_token = "";
}

abbrev refunded : TransactionPayload
refunded = record purchase { revocation_date = pos 9 }

abbrev pub service_of : TransactionPayload → Service
service_of p = record {
  transaction_info = λ id. if str_eq id "t1" then some "h.p.s" else none;
  subscription_statuses = λ original. none;
  decode = λ payload. some p;
  env = Environment.production;
  product = "pro.monthly";
}

abbrev validated_purchase : ValidateResult
validated_purchase = record {
  product_code = "pro";
  status = SubStatus.active;
  expires = expires_at purchase;
  environment = Environment.sandbox;
}

validate_transaction-inactive_example :
    let w' = (validate_transaction (service_of refunded) 7 "t1" start).1 in
    (w'.tables ≡ start.tables) × (holds_pro 200 7 w'.tables ≡ holds_pro 200 7 start.tables)
unfolding foreignreader_be.AppleIap.decode_jws_payload foreignreader_be.Base.split
    foreignreader_be.Base.trim_space foreignreader_be.AppleIap.Validate.payload_status
    foreignreader_be.AppleIap.Validate.choose_payload
validate_transaction-inactive_example =
    validate_transaction-inactive (service_of refunded) 7 "t1" "h.p.s" refunded 200 start refl refl
      (λ e. cc)

best_pro_transaction_payload-IsBest_example :
    IsBest
      (λ s. some purchase)
      "pro.monthly"
      ("h.p.s" ∷ [])
      (best_pro_transaction_payload (λ s. some purchase) (("h.p.s" ∷ []) ∷ []) "pro.monthly")
unfolding mathlib.Core.List.flatten foreignreader_be.Base.trim_space
best_pro_transaction_payload-IsBest_example =
    best_pro_transaction_payload-IsBest (λ s. some purchase) (("h.p.s" ∷ []) ∷ []) "pro.monthly"

after_all-AtMostOne_example :
    AtMostOne stripe 7
      (after_all
        (upsert_stripe 7 none ∷ upsert_apple_iap 7 (some 300) ∷ upsert_stripe 7 (some 400) ∷ [])
        start).tables
after_all-AtMostOne_example =
    after_all-AtMostOne
      (upsert_stripe 7 none ∷ upsert_apple_iap 7 (some 300) ∷ upsert_stripe 7 (some 400) ∷ [])
      stripe 7 start (ground arith)

is_granted-derive_state_example : is_granted (derive_state 100 "DID_FAIL_TO_RENEW" "" purchase) ≡ (
    not (is_final "DID_FAIL_TO_RENEW" purchase)
    && unexpired 100 (expires_at purchase)
    && (is_retried "DID_FAIL_TO_RENEW" "" || not false))
unfolding foreignreader_be.Base.upper_eq foreignreader_be.Base.trim_space
is_granted-derive_state_example = is_granted-derive_state 100 "DID_FAIL_TO_RENEW" "" purchase

-- A renewal of the purchase above, told to a database that knows the subscription.
abbrev renewal : Notification
renewal = record {
  notification_uuid = "n1";
  notification_type = "DID_RENEW";
  subtype = "";
  environment = "Sandbox";
  bundle_id = "";
  signed_transaction_info = "h.p.s";
}

abbrev config : WebhookConfig
config = record {
  decode_envelope = λ body. some "h.n.s";
  verify_notification_jws = λ payload. some renewal;
  verify_transaction_jws = λ info. some purchase;
  parse_uuid = λ s. none;
  bundle_id = "app";
  environment = "production";
  service = none;
}

abbrev subscription : AppleSubscription
subscription = record {
  user_id = 7;
  apple_product_id = "pro.monthly";
  product_code = "pro";
  original_transaction_id = "t1";
  latest_transaction_id = some "t1";
  status = SubStatus.expired;
  environment = Environment.sandbox;
  purchased_at = none;
  expires_at = none;
}

abbrev subscribed : World
subscribed = record start {
  tables = record no_rows_yet { apple_subscriptions = subscription ∷ [] };
}

handle_apple_iap_webhook-Granted_example :
    Granted
      (is_granted (says config renewal purchase 100))
      7
      (expires_at purchase)
      200
      8
      subscribed.tables
      (handle_apple_iap_webhook config true (some "{}") subscribed).1.tables
unfolding foreignreader_be.Base.trim_space handle_apple_iap_webhook
    foreignreader_be.AppleIap.Webhook.notification_transaction
    foreignreader_be.Db.transaction_or_rollback foreignreader_be.Db.tx_query
    foreignreader_be.AppleIap.insert_apple_event foreignreader_be.AppleIap.Webhook.update_known
    foreignreader_be.AppleIap.update_subscription_state foreignreader_be.AppleIap.parse_environment
    foreignreader_be.Base.lower_eq foreignreader_be.AppleIap.Webhook.derive_env derive_state
    foreignreader_be.Base.upper_eq expires_at foreignreader_be.AppleIap.unix_milli
    upsert_apple_iap_pro foreignreader_be.AppleIap.mark_apple_event_processed
handle_apple_iap_webhook-Granted_example =
    handle_apple_iap_webhook-Granted config renewal purchase "{}" "h.n.s" subscription 200 8
      subscribed refl refl refl refl refl refl refl refl

handle_apple_iap_webhook-once_example :
    let (answer, w') = handle_apple_iap_webhook config true (some "{}") subscribed in
    ((status : ℕ) (code : String) → answer ≡ api_error status code → w'.tables ≡ subscribed.tables)
    × (answer ≡ success tt → seen "n1" w'.tables ≡ true)
    × (seen "n1" subscribed.tables ≡ true → w'.tables ≡ subscribed.tables)
unfolding foreignreader_be.Base.trim_space
handle_apple_iap_webhook-once_example =
    handle_apple_iap_webhook-once config "{}" "h.n.s" renewal purchase subscribed refl refl refl

-- ===== src/AppleIap/Validate/Frame.antt =====
-- ValidateTransaction and the table apple_iap_events.
use foreignreader_be.Base.{ℕ, refl, String, List, Option, none, some, arith}
use foreignreader_be.Schema.{SubStatus, AppleSubscription, AppleEvent, Tables}
use foreignreader_be.Db.{apple_api, invalid_json}
use foreignreader_be.Db.Keeps.{Keeps, StmtKeeps, Keeps-fail, Keeps-get_now, keeps_rules}
use foreignreader_be.Entitlement.Frame.{
  IgnoresEntitlements, Keeps-upsert_apple_iap_pro, Keeps-revoke_apple_iap_pro,
}
use foreignreader_be.AppleIap.{
  TransactionPayload, decode_jws_payload, ensure_product_mapping, upsert_subscription,
}
use foreignreader_be.AppleIap.Validate.{
  Service, choose_payload, switch_status, record_payload, validate_payload, validate_direct,
  validate_info, validate_transaction,
}

abbrev pub notifications : Tables → List AppleEvent
notifications t = t.apple_events

pub ignores : IgnoresEntitlements notifications
ignores = record { entitlements_at = λ t es. refl; drawn_at = λ t n. refl }

Keeps-ensure_product_mapping :
    (product code : String) → StmtKeeps notifications (ensure_product_mapping product code)
unfolding ensure_product_mapping
Keeps-ensure_product_mapping product code = record { stmt_at = λ env t. ground arith }

Keeps-upsert_subscription :
    (row : AppleSubscription) → StmtKeeps notifications (upsert_subscription row)
unfolding upsert_subscription
Keeps-upsert_subscription row = record { stmt_at = λ env t. ground arith }

ruleset writes = (
  keeps_rules, Keeps-ensure_product_mapping, Keeps-upsert_subscription, Keeps-get_now, ignores,
  Keeps-upsert_apple_iap_pro, Keeps-revoke_apple_iap_pro,
)

Keeps-switch_status :
    (status : SubStatus) (user : ℕ) (expires : Option ℕ)
    → Keeps notifications (switch_status status user expires)
Keeps-switch_status SubStatus.active user expires = search writes
Keeps-switch_status SubStatus.expired user expires = search writes
Keeps-switch_status SubStatus.revoked user expires = search writes
Keeps-switch_status SubStatus.grace_period user expires = search writes
Keeps-switch_status SubStatus.billing_retry user expires = search writes

module _ (svc : Service) (user : ℕ) where
  Keeps-record_payload :
      (now : ℕ) (p : TransactionPayload) → Keeps notifications (record_payload svc user now p)
  unfolding record_payload
  Keeps-record_payload now p = search (writes, Keeps-switch_status) depth 12

  Keeps-validate_payload :
      (p : TransactionPayload) → Keeps notifications (validate_payload svc user p)
  unfolding validate_payload
  Keeps-validate_payload p = search (writes, Keeps-record_payload) depth 12

  Keeps-validate_direct :
      (o : Option TransactionPayload) → Keeps notifications (validate_direct svc user o)
  Keeps-validate_direct none = Keeps-fail invalid_json
  Keeps-validate_direct (some direct) = Keeps-validate_payload (choose_payload svc direct)

  Keeps-validate_info : (o : Option String) → Keeps notifications (validate_info svc user o)
  Keeps-validate_info none = Keeps-fail apple_api
  Keeps-validate_info (some info) = Keeps-validate_direct (decode_jws_payload svc.decode info)

  pub Keeps-validate_transaction :
      (id : String) → Keeps notifications (validate_transaction svc user id)
  unfolding validate_transaction
  Keeps-validate_transaction id = Keeps-validate_info (svc.transaction_info id)

-- ===== src/AppleIap/Validate.antt =====
-- internal/appleiap/service.go: ValidateTransaction.
pub mod Frame
pub mod Outcome
pub mod Purchase
pub mod Route
use foreignreader_be.Base.{
  ℕ, String, str_eq, Bool, true, false, ◌&&◌, not, Option, none, some, if◌then◌else◌, ltb,
  is_positive, trim_space, is_empty, lower_eq,
}
use foreignreader_be.Schema.{SubStatus, Environment, AppleSubscription}
use foreignreader_be.Db.{
  Error, apple_api, invalid_json, missing_product_id, missing_transaction_id, unknown_product,
  not_entitled, Db, fail, pure, get_now, tx_query, transaction, ◌>>=◌, ◌>>◌,
}
use foreignreader_be.Entitlement.{product_pro, upsert_apple_iap_pro, revoke_apple_iap_pro}
use foreignreader_be.AppleIap.{
  TransactionPayload, expires_at, purchased_at, decode_jws_payload, StatusResponse,
  best_pro_transaction_payload, null_if_empty, ensure_product_mapping, upsert_subscription,
}

-- The App Store Server API, which the Client calls, and the decoding of a JWS payload; none is an
-- error. `env` is the client's environment, `product` the configured product, trimmed.
pub record Service : Type 0 where
  pub transaction_info : String → Option String
  pub subscription_statuses : String → Option StatusResponse
  pub decode : String → Option TransactionPayload
  pub env : Environment
  pub product : String

pub record ValidateResult : Type 0 where
  pub product_code : String
  pub status : SubStatus
  pub expires : Option ℕ
  pub environment : Environment

-- The payload to go on with, when the status of the lineage is at hand.
abbrev pub or_direct : TransactionPayload → Option TransactionPayload → TransactionPayload
or_direct direct none = direct
or_direct direct (some best) = best

abbrev pub latest_payload :
    Service → TransactionPayload → Option StatusResponse → TransactionPayload
latest_payload svc direct none = direct
latest_payload svc direct (some response) =
    or_direct direct (best_pro_transaction_payload svc.decode response svc.product)

-- For a renewal, the newest transaction of the lineage, if Apple tells it.
unfoldable pub choose_payload : Service → TransactionPayload → TransactionPayload
choose_payload svc direct =
    if not (str_eq (trim_space direct.transaction_id) (trim_space direct.original_transaction_id))
      && not (is_empty (trim_space direct.original_transaction_id))
    then latest_payload svc direct (svc.subscription_statuses direct.original_transaction_id)
    else direct

-- `strings.ToLower(strings.TrimSpace(…))`, or the client's environment if that is neither.
unfoldable pub normalized_env : Environment → String → Environment
normalized_env client s =
    if lower_eq (trim_space s) "sandbox"
    then Environment.sandbox
    else if lower_eq (trim_space s) "production"
    then Environment.production
    else client

abbrev is_past : ℕ → Option ℕ → Bool
is_past now none = false
is_past now (some t) = not (ltb now t)

-- The variable `status`.
unfoldable pub payload_status : ℕ → TransactionPayload → SubStatus
payload_status now p =
    if is_positive p.revocation_date
    then SubStatus.revoked
    else if is_past now (expires_at p)
    then SubStatus.expired
    else SubStatus.active

abbrev pub subscription_row : Service → ℕ → ℕ → TransactionPayload → AppleSubscription
subscription_row svc user now p = record {
  user_id = user;
  apple_product_id = trim_space p.product_id;
  product_code = product_pro;
  original_transaction_id = trim_space p.original_transaction_id;
  latest_transaction_id = null_if_empty (trim_space p.transaction_id);
  status = payload_status now p;
  environment = normalized_env svc.env p.environment;
  purchased_at = purchased_at p;
  expires_at = expires_at p;
}

abbrev validated : Service → ℕ → TransactionPayload → ValidateResult
validated svc now p = record {
  product_code = product_pro;
  status = payload_status now p;
  expires = expires_at p;
  environment = normalized_env svc.env p.environment;
}

-- The `switch status` on the entitlement.
abbrev switch_status : SubStatus → ℕ → Option ℕ → Db (Unit {0})
switch_status SubStatus.active user expires = upsert_apple_iap_pro user expires
switch_status SubStatus.expired user expires = do revoke_apple_iap_pro user; fail not_entitled
switch_status SubStatus.revoked user expires = do revoke_apple_iap_pro user; fail not_entitled
switch_status SubStatus.grace_period user expires = do revoke_apple_iap_pro user; fail not_entitled
switch_status SubStatus.billing_retry user expires = do revoke_apple_iap_pro user; fail not_entitled

abbrev record_body : Service → ℕ → ℕ → TransactionPayload → Db ValidateResult
record_body svc user now p = do
  tx_query (ensure_product_mapping (trim_space p.product_id) product_pro)
  tx_query (upsert_subscription (subscription_row svc user now p))
  switch_status (payload_status now p) user (expires_at p)
  pure (validated svc now p)

-- The transaction of ValidateTransaction, for a payload and the `now` read before it.
unfoldable pub record_payload : Service → ℕ → ℕ → TransactionPayload → Db ValidateResult
record_payload svc user now p = transaction (record_body svc user now p)

unfoldable pub validate_payload : Service → ℕ → TransactionPayload → Db ValidateResult
validate_payload svc user p =
    if is_empty (trim_space p.product_id)
    then fail missing_product_id
    else if not (str_eq (trim_space p.product_id) svc.product)
    then fail unknown_product
    else if is_empty (trim_space p.original_transaction_id)
    then fail missing_transaction_id
    else (do now ← get_now; record_payload svc user now p)

abbrev validate_direct : Service → ℕ → Option TransactionPayload → Db ValidateResult
validate_direct svc user none = fail invalid_json
validate_direct svc user (some direct) = validate_payload svc user (choose_payload svc direct)

abbrev validate_info : Service → ℕ → Option String → Db ValidateResult
validate_info svc user none = fail apple_api
validate_info svc user (some info) = validate_direct svc user (decode_jws_payload svc.decode info)

-- ValidateTransaction.
unfoldable pub validate_transaction : Service → ℕ → String → Db ValidateResult
validate_transaction svc user id = validate_info svc user (svc.transaction_info id)

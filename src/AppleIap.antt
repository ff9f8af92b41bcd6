-- ===== src/AppleIap.antt =====
-- internal/appleiap: the payloads of jws.go, the choice among them of subscription_status.go, and
-- the tables of store.go.
pub mod Best
pub mod Validate
pub mod Webhook
use foreignreader_be.Base.{
  ℕ, ◌+◌, ◌*◌, String, str_eq, Bool, true, false, ◌&&◌, ◌||◌, not, List, [], ◌∷◌, Option, none,
  some, if◌then◌else◌, any, find?, update, ℤ, negsuc, is_positive, to_ℕ, ltb_ℤ, trim_space,
  is_empty, split, lower_eq,
}
use foreignreader_be.Schema.{
  SubStatus, Environment, AppleProduct, AppleSubscription, AppleEvent, Tables,
}
use foreignreader_be.Db.{violation, Result, ok, err, Db, Stmt, tx_query}

-- The fields of an Apple transaction that the code reads.
pub record TransactionPayload : Type 0 where
  pub transaction_id : String
  pub original_transaction_id : String
  pub product_id : String
  pub purchase_date : ℤ
  pub expires_date : ℤ
  pub environment : String
  pub revocation_date : ℤ
  pub app_account_token : String

-- `time.UnixMilli(ms)`, in nanoseconds since Go's zero time.
unfoldable pub unix_milli : ℕ → ℕ
unix_milli ms = (62135596800000 + ms) * 1000000

abbrev pub date_of : ℤ → Option ℕ
date_of ms = if is_positive ms then some (unix_milli (to_ℕ ms)) else none

-- ExpiresAt and PurchasedAt.
unfoldable pub expires_at : TransactionPayload → Option ℕ
expires_at p = date_of p.expires_date

unfoldable pub purchased_at : TransactionPayload → Option ℕ
purchased_at p = date_of p.purchase_date

-- DecodeJWSPayload; `decode` stands for base64 and encoding/json.
abbrev payload_part : (String → Option TransactionPayload) → List String → Option TransactionPayload
payload_part decode (header ∷ payload ∷ signature ∷ []) = decode payload
payload_part decode _ = none

unfoldable pub decode_jws_payload :
    (String → Option TransactionPayload) → String → Option TransactionPayload
decode_jws_payload decode jws = payload_part decode (split 46 (trim_space jws))

-- SubscriptionStatusResponse: the signed transactions of each subscription group.
abbrev pub StatusResponse : Type 0
StatusResponse = List (List String)

-- The variables `best` and `bestExpires`.
abbrev pub Best : Type 0
Best = Option TransactionPayload × ℤ

abbrev better : TransactionPayload → Best → Best
better p (best, best_expires) =
    if ltb_ℤ best_expires p.expires_date then (some p, p.expires_date) else (best, best_expires)

module _ (decode : String → Option TransactionPayload) (product : String) where
  abbrev consider : Option TransactionPayload → Best → Best
  consider none b = b
  consider (some p) b = if not (str_eq (trim_space p.product_id) product) then b else better p b

  -- The body of the inner loop.
  unfoldable pub visit : String → Best → Best
  visit info b =
      if is_empty (trim_space info) then b else consider (decode_jws_payload decode info) b

  unfoldable pub visit_group : List String → Best → Best
  visit_group [] b = b
  visit_group (info ∷ infos) b = visit_group infos (visit info b)

  unfoldable pub visit_groups : StatusResponse → Best → Best
  visit_groups [] b = b
  visit_groups (g ∷ gs) b = visit_groups gs (visit_group g b)

-- BestProTransactionPayload; none is its error.
unfoldable pub best_pro_transaction_payload :
    (String → Option TransactionPayload) → StatusResponse → String → Option TransactionPayload
best_pro_transaction_payload decode response product =
    (visit_groups decode (trim_space product) response (none, negsuc 0)).0

-- `NULLIF($1, '')`.
abbrev pub null_if_empty : String → Option String
null_if_empty s = if is_empty s then none else some s

-- EnsureProductMapping, under UNIQUE (product_code).
abbrev ensured : String → String → Tables → Tables
ensured product code t =
    if any (λ p. str_eq p.apple_product_id product) t.apple_products
    then record t {
      apple_products =
          update (λ p. str_eq p.apple_product_id product) (λ p. record p { product_code = code })
            t.apple_products;
    }
    else record t {
      apple_products =
          record { apple_product_id = product; product_code = code } ∷ t.apple_products;
    }

unfoldable pub ensure_product_mapping : String → String → Stmt (Unit {0})
ensure_product_mapping product code env t =
    if any (λ p. str_eq p.product_code code && not (str_eq p.apple_product_id product))
      t.apple_products
    then err violation
    else ok (tt, ensured product code t)

-- Another lineage holds the same latest transaction, which is UNIQUE.
abbrev same_latest : Option String → Option String → Bool
same_latest none other = false
same_latest (some a) none = false
same_latest (some a) (some b) = str_eq a b

abbrev pub latest_taken : String → Option String → List AppleSubscription → Bool
latest_taken original latest = any (λ s.
    not (str_eq s.original_transaction_id original) && same_latest latest s.latest_transaction_id)

abbrev pub of_original : String → AppleSubscription → Bool
of_original original s = str_eq s.original_transaction_id original

-- UpsertSubscription; the row is the SubscriptionUpsert with `NULLIF` applied.
unfoldable pub upsert_subscription : AppleSubscription → Stmt (Unit {0})
upsert_subscription row env t =
    if latest_taken row.original_transaction_id row.latest_transaction_id t.apple_subscriptions
    then err violation
    else ok (
      tt,
      record t {
        apple_subscriptions =
            if any (of_original row.original_transaction_id) t.apple_subscriptions
            then update (of_original row.original_transaction_id) (λ s. row) t.apple_subscriptions
            else row ∷ t.apple_subscriptions;
      },
    )

-- SubscriptionByOriginalTransactionID.
abbrev pub subscription_by_original : String → Stmt (Option AppleSubscription)
subscription_by_original original env t = ok (find? (of_original original) t.apple_subscriptions, t)

-- The CHECK on the environment: the text `lower(s)` is one of the two.
unfoldable pub parse_environment : String → Option Environment
parse_environment s =
    if lower_eq s "sandbox"
    then some Environment.sandbox
    else if lower_eq s "production"
    then some Environment.production
    else none

abbrev state_update :
    SubStatus → Environment → Option String → Option ℕ → AppleSubscription → AppleSubscription
state_update status env latest expires s = record s {
  latest_transaction_id = latest;
  status = status;
  environment = env;
  expires_at = expires;
}

abbrev update_checked :
    String
    → Option String
    → SubStatus
    → Option Environment
    → Option ℕ
    → Tables
    → Result (Unit {0} × Tables)
update_checked original latest status none expires t =
    if any (of_original original) t.apple_subscriptions then err violation else ok (tt, t)
update_checked original latest status (some e) expires t =
    if any (of_original original) t.apple_subscriptions
      && latest_taken original latest t.apple_subscriptions
    then err violation
    else ok (
      tt,
      record t {
        apple_subscriptions =
            update (of_original original) (state_update status e latest expires)
              t.apple_subscriptions;
      },
    )

-- UpdateSubscriptionStateByOriginalTransactionID; `environment` is lowered by the caller, and
-- refused by the CHECK if it is not one of the two.
unfoldable pub update_subscription_state :
    String → String → SubStatus → Option Environment → Option ℕ → Stmt (Unit {0})
update_subscription_state original latest status environment expires env t =
    update_checked original (null_if_empty latest) status environment expires t

-- InsertAppleEvent: whether the notification is new.
unfoldable pub insert_apple_event : String → String → Stmt Bool
insert_apple_event uuid type env t =
    if any (λ e. str_eq e.notification_uuid uuid) t.apple_events
    then ok (false, t)
    else ok (
      true,
      record t {
        apple_events =
            record { notification_uuid = uuid; notification_type = type; processed_at = none }
            ∷ t.apple_events;
      },
    )

abbrev unprocessed : String → AppleEvent → Bool
unprocessed uuid e =
    str_eq e.notification_uuid uuid && elim e.processed_at [ none ↦ true | some at ↦ false ]

-- MarkAppleEventProcessed.
unfoldable pub mark_apple_event_processed : String → Stmt (Unit {0})
mark_apple_event_processed uuid env t = ok (
  tt,
  record t {
    apple_events =
        update (unprocessed uuid) (λ e. record e { processed_at = some env.now }) t.apple_events;
  },
)

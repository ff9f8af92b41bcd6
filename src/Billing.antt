-- ===== src/Billing.antt =====
-- internal/billing: meta.go, webhook_resolve.go and webhook_process.go. The types of the Stripe
-- library are modelled as far as the code reads them; decoding JSON, parsing a uuid and checking a
-- signature are parameters.
pub mod Access
pub mod Frame
pub mod Webhook
pub mod Customer
use foreignreader_be.Base.{
  ℕ, ◌+◌, ◌*◌, String, str_eq, Bool, true, false, ◌&&◌, not, List, [], ◌∷◌, Option, none, some,
  if◌then◌else◌, find?, ◌==◌, ℤ, is_positive, to_ℕ, trim_space, is_empty,
}
use foreignreader_be.Schema.{StripeCustomer, Tables}
use foreignreader_be.Db.{
  no_rows, invalid_json, Result, ok, err, Db, Stmt, pure, fail, attempt, query, ◌>>=◌, ◌>>◌,
}
use foreignreader_be.Entitlement.{upsert_stripe_pro, revoke_stripe_pro}

pub data EventType : Type 0 where
  checkout_completed subscription_updated subscription_created : EventType
  subscription_deleted unsupported : EventType

-- stripe.SubscriptionStatus; `other` is any other text.
pub data SubscriptionStatus : Type 0 where
  active trialing past_due canceled unpaid : SubscriptionStatus
  incomplete_expired paused incomplete other : SubscriptionStatus

-- `map[string]string`, with nil apart.
abbrev pub Metadata : Type 0
Metadata = Option (List (String × String))

-- `meta[key]`, the empty text if there is no such key.
pub get_entry : String → List (String × String) → String
get_entry k [] = ""
get_entry k ((j, v) ∷ m) = if str_eq j k then v else get_entry k m

abbrev pub metadata_value : String → Metadata → String
unfolding get_entry
metadata_value k none = ""
metadata_value k (some m) = get_entry k m

pub record Subscription : Type 0 where
  pub status : SubscriptionStatus
  pub metadata : Metadata
  pub customer : Option String
  pub cancel_at_period_end : Bool
  pub current_period_end : ℤ
  pub cancel_at : ℤ

pub record CheckoutSession : Type 0 where
  pub mode_is_subscription : Bool
  pub metadata : Metadata
  pub client_reference_id : String
  pub customer : Option String

pub record Event : Type 0 where
  pub id : String
  pub type : EventType
  pub raw : String

-- The Stripe library, encoding/json at its types, and google/uuid. `construct_event` gets the
-- body, the signature header and the secret.
pub record StripeApi : Type 0 where
  pub parse_uuid : String → Option ℕ
  pub decode_session : String → Option CheckoutSession
  pub decode_subscription : String → Option Subscription
  pub construct_event : String → String → String → Option Event

-- `time.Unix(s, 0)`: 62135596800 seconds pass from Go's zero time to 1970.
unfoldable pub unix : ℕ → ℕ
unix s = (62135596800 + s) * 1000000000

-- stripeSubscriptionPeriodEnd, on a subscription that is not nil; 0 if unknown.
unfoldable pub subscription_period_end : Subscription → ℕ
subscription_period_end sub =
    if is_positive sub.current_period_end
    then to_ℕ sub.current_period_end
    else if sub.cancel_at_period_end && is_positive sub.cancel_at
    then to_ℕ sub.cancel_at
    else 0

abbrev active_access : Subscription → Bool × Option ℕ
unfolding subscription_period_end
active_access sub =
    let end = subscription_period_end sub in
    if sub.cancel_at_period_end
    then (if not (end == 0) then (true, some (unix end)) else (true, none))
    else if is_positive sub.current_period_end
    then (true, some (unix (to_ℕ sub.current_period_end)))
    else (true, none)

abbrev access_by_status : SubscriptionStatus → Subscription → Bool × Option ℕ
unfolding subscription_period_end
access_by_status active sub = active_access sub
access_by_status trialing sub = active_access sub
access_by_status past_due sub = (true, none)
access_by_status canceled sub = (false, none)
access_by_status unpaid sub = (false, none)
access_by_status incomplete_expired sub = (false, none)
access_by_status paused sub = (false, none)
access_by_status incomplete sub = (false, none)
access_by_status other sub = (false, none)

-- subscriptionProAccess: whether to grant, and the expiry.
unfoldable pub subscription_pro_access : Subscription → Bool × Option ℕ
unfolding subscription_period_end
subscription_pro_access sub = access_by_status sub.status sub

-- The query of UserIDFromStripeCustomer.
abbrev pub customer_stmt : String → Stmt (Option StripeCustomer)
customer_stmt cid env t = ok (find? (λ c. str_eq c.stripe_customer_id cid) t.stripe_customers, t)

abbrev pub scan_customer : Option StripeCustomer → Db ℕ
scan_customer none = fail no_rows
scan_customer (some c) = pure c.user_id

-- UserIDFromStripeCustomer. It asks the pool, not the open transaction; the transaction writes
-- nothing to stripe_customers, so both see the same rows.
unfoldable pub user_id_from_stripe_customer : String → Db ℕ
user_id_from_stripe_customer cid =
    let id = trim_space cid in
    if is_empty id then fail no_rows else (do row ← query (customer_stmt id); scan_customer row)

-- stripeCustomerIDFromSubscription and stripeCustomerIDFromCheckoutSession.
abbrev pub trimmed_customer : Option String → String
trimmed_customer none = ""
trimmed_customer (some id) = trim_space id

abbrev forget_error : Result ℕ → Option ℕ
forget_error (ok u) = some u
forget_error (err e) = none

-- The end of both resolvers: a failed lookup is logged and counts as no user.
unfoldable pub user_by_customer : String → Db (Option ℕ)
unfolding user_id_from_stripe_customer
user_by_customer cid =
    if is_empty cid
    then pure none
    else (do r ← attempt (user_id_from_stripe_customer cid); pure (forget_error r))

module _ (api : StripeApi) where
  -- UserIDFromMetadata.
  unfoldable pub user_id_from_metadata : Metadata → Option ℕ
  unfolding get_entry
  user_id_from_metadata meta =
      let raw = trim_space (metadata_value "user_id" meta) in
      if is_empty raw then none else api.parse_uuid raw

  abbrev known_or : Option ℕ → Db (Option ℕ) → Db (Option ℕ)
  known_or (some u) next = pure (some u)
  known_or none next = next

  -- resolveUserForSubscription.
  unfoldable pub resolve_user_for_subscription : Subscription → Db (Option ℕ)
  unfolding user_id_from_metadata
  resolve_user_for_subscription sub =
      known_or (user_id_from_metadata sub.metadata)
        (user_by_customer (trimmed_customer sub.customer))

  abbrev reference_user : String → Option ℕ
  reference_user ref = if is_empty ref then none else api.parse_uuid ref

  -- resolveUserForCheckout.
  unfoldable pub resolve_user_for_checkout : CheckoutSession → Db (Option ℕ)
  unfolding user_id_from_metadata
  resolve_user_for_checkout sess = known_or (user_id_from_metadata sess.metadata) (
      known_or (reference_user (trim_space sess.client_reference_id))
        (user_by_customer (trimmed_customer sess.customer)))

  abbrev checkout_user : Option ℕ → Db (Unit {0})
  checkout_user none = pure tt
  checkout_user (some u) = upsert_stripe_pro u none

  abbrev is_pro_checkout : CheckoutSession → Bool
  unfolding get_entry
  is_pro_checkout sess =
      sess.mode_is_subscription
      && str_eq (trim_space (metadata_value "plan" sess.metadata)) "pro"
      && str_eq (trim_space (metadata_value "source" sess.metadata)) "stripe_web"

  abbrev checkout_decoded : Option CheckoutSession → Db (Unit {0})
  unfolding get_entry
  checkout_decoded none = fail invalid_json
  checkout_decoded (some sess) =
      if is_pro_checkout sess
      then (do u ← resolve_user_for_checkout sess; checkout_user u)
      else pure tt

  -- handleCheckoutSessionCompleted.
  unfoldable pub handle_checkout_session_completed : Event → Db (Unit {0})
  unfolding get_entry
  handle_checkout_session_completed evt = checkout_decoded (api.decode_session evt.raw)

  abbrev apply_access : ℕ → Bool × Option ℕ → Db (Unit {0})
  apply_access u (true, expires) = upsert_stripe_pro u expires
  apply_access u (false, expires) = revoke_stripe_pro u

  abbrev updated_user : Subscription → Option ℕ → Db (Unit {0})
  updated_user sub none = pure tt
  updated_user sub (some u) = apply_access u (subscription_pro_access sub)

  abbrev updated_decoded : Option Subscription → Db (Unit {0})
  updated_decoded none = fail invalid_json
  updated_decoded (some sub) = do u ← resolve_user_for_subscription sub; updated_user sub u

  -- handleCustomerSubscriptionUpdated.
  unfoldable pub handle_customer_subscription_updated : Event → Db (Unit {0})
  handle_customer_subscription_updated evt = updated_decoded (api.decode_subscription evt.raw)

  abbrev deleted_user : Option ℕ → Db (Unit {0})
  deleted_user none = pure tt
  deleted_user (some u) = revoke_stripe_pro u

  abbrev deleted_decoded : Option Subscription → Db (Unit {0})
  deleted_decoded none = fail invalid_json
  deleted_decoded (some sub) = do u ← resolve_user_for_subscription sub; deleted_user u

  -- handleCustomerSubscriptionDeleted.
  unfoldable pub handle_customer_subscription_deleted : Event → Db (Unit {0})
  handle_customer_subscription_deleted evt = deleted_decoded (api.decode_subscription evt.raw)

  abbrev process_type : EventType → Event → Db (Unit {0})
  process_type checkout_completed evt = handle_checkout_session_completed evt
  process_type subscription_updated evt = handle_customer_subscription_updated evt
  process_type subscription_created evt = handle_customer_subscription_updated evt
  process_type subscription_deleted evt = handle_customer_subscription_deleted evt
  process_type unsupported evt = pure tt

  -- ProcessStripeEvent.
  unfoldable pub process_stripe_event : Event → Db (Unit {0})
  process_stripe_event evt = process_type evt.type evt

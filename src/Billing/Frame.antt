-- ===== src/Billing/Frame.antt =====
-- ProcessStripeEvent and the table stripe_webhook_events.
use foreignreader_be.Base.{ℕ, refl, String, Bool, true, false, List, Option, none, some}
use foreignreader_be.Schema.{StripeCustomer, Tables}
use foreignreader_be.Db.{Db, no_rows, invalid_json}
use foreignreader_be.Db.Keeps.{Keeps, StmtKeeps, Keeps-pure, Keeps-fail, keeps_rules}
use foreignreader_be.Entitlement.Frame.{
  IgnoresEntitlements, Keeps-upsert_stripe_pro, Keeps-revoke_stripe_pro,
}
use foreignreader_be.Billing.{
  StripeApi, EventType, checkout_completed, subscription_updated, subscription_created,
  subscription_deleted, unsupported, Event, Subscription, CheckoutSession, scan_customer,
  customer_stmt, user_by_customer, known_or, resolve_user_for_subscription,
  resolve_user_for_checkout, checkout_user, checkout_decoded, apply_access, updated_user,
  updated_decoded, deleted_user, deleted_decoded, subscription_pro_access,
  handle_checkout_session_completed, handle_customer_subscription_updated,
  handle_customer_subscription_deleted, process_type, process_stripe_event,
}

abbrev pub events : Tables → List String
events t = t.stripe_events

ignores : IgnoresEntitlements events
ignores = record { entitlements_at = λ t es. refl; drawn_at = λ t n. refl }

Keeps-scan_customer : (o : Option StripeCustomer) → Keeps events (scan_customer o)
Keeps-scan_customer none = Keeps-fail no_rows
Keeps-scan_customer (some c) = Keeps-pure c.user_id

Keeps-customer_stmt : (cid : String) → StmtKeeps events (customer_stmt cid)
Keeps-customer_stmt cid = record { stmt_at = λ env t. refl }

Keeps-user_by_customer : (cid : String) → Keeps events (user_by_customer cid)
unfolding user_by_customer
Keeps-user_by_customer cid = search (keeps_rules, Keeps-scan_customer, Keeps-customer_stmt) depth 8

module _ (api : StripeApi) where
  Keeps-known_or :
      (o : Option ℕ) (next : Db (Option ℕ)) → Keeps events next → Keeps events (known_or api o next)
  Keeps-known_or none next h = h
  Keeps-known_or (some u) next h = Keeps-pure (some u)

  Keeps-subscription_user :
      (sub : Subscription) → Keeps events (resolve_user_for_subscription api sub)
  unfolding resolve_user_for_subscription
  Keeps-subscription_user sub = Keeps-known_or _ _ (Keeps-user_by_customer _)

  Keeps-checkout_session_user :
      (sess : CheckoutSession) → Keeps events (resolve_user_for_checkout api sess)
  unfolding resolve_user_for_checkout
  Keeps-checkout_session_user sess =
      Keeps-known_or _ _ (Keeps-known_or _ _ (Keeps-user_by_customer _))

  Keeps-checkout_user : (o : Option ℕ) → Keeps events (checkout_user api o)
  Keeps-checkout_user none = Keeps-pure tt
  Keeps-checkout_user (some u) = Keeps-upsert_stripe_pro ignores u none

  Keeps-checkout_decoded : (o : Option CheckoutSession) → Keeps events (checkout_decoded api o)
  unfolding handle_checkout_session_completed
  Keeps-checkout_decoded none = Keeps-fail invalid_json
  Keeps-checkout_decoded (some sess) =
      search (keeps_rules, Keeps-checkout_session_user, Keeps-checkout_user)

  Keeps-apply_access : (u : ℕ) (a : Bool × Option ℕ) → Keeps events (apply_access api u a)
  Keeps-apply_access u (true, expires) = Keeps-upsert_stripe_pro ignores u expires
  Keeps-apply_access u (false, expires) = Keeps-revoke_stripe_pro ignores u

  Keeps-updated_user : (sub : Subscription) (o : Option ℕ) → Keeps events (updated_user api sub o)
  Keeps-updated_user sub none = Keeps-pure tt
  Keeps-updated_user sub (some u) = Keeps-apply_access u (subscription_pro_access sub)

  Keeps-updated_decoded : (o : Option Subscription) → Keeps events (updated_decoded api o)
  Keeps-updated_decoded none = Keeps-fail invalid_json
  Keeps-updated_decoded (some sub) =
      search (keeps_rules, Keeps-subscription_user, Keeps-updated_user)

  Keeps-deleted_user : (o : Option ℕ) → Keeps events (deleted_user api o)
  Keeps-deleted_user none = Keeps-pure tt
  Keeps-deleted_user (some u) = Keeps-revoke_stripe_pro ignores u

  Keeps-deleted_decoded : (o : Option Subscription) → Keeps events (deleted_decoded api o)
  Keeps-deleted_decoded none = Keeps-fail invalid_json
  Keeps-deleted_decoded (some sub) =
      search (keeps_rules, Keeps-subscription_user, Keeps-deleted_user)

  Keeps-process_type : (type : EventType) (evt : Event) → Keeps events (process_type api type evt)
  unfolding handle_checkout_session_completed handle_customer_subscription_updated
      handle_customer_subscription_deleted
  Keeps-process_type checkout_completed evt = Keeps-checkout_decoded (api.decode_session evt.raw)
  Keeps-process_type subscription_updated evt =
      Keeps-updated_decoded (api.decode_subscription evt.raw)
  Keeps-process_type subscription_created evt =
      Keeps-updated_decoded (api.decode_subscription evt.raw)
  Keeps-process_type subscription_deleted evt =
      Keeps-deleted_decoded (api.decode_subscription evt.raw)
  Keeps-process_type unsupported evt = Keeps-pure tt

  pub Keeps-process : (evt : Event) → Keeps events (process_stripe_event api evt)
  unfolding process_stripe_event
  Keeps-process evt = Keeps-process_type evt.type evt

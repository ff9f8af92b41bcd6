-- ===== src/Billing/Webhook/Effect.antt =====
-- The effect of a delivered subscription event on Pro access, and what becomes of an event whose
-- user could not be looked up.
use foreignreader_be.Base.{
  ℕ, ◌+◌, ◌≡◌, String, true, false, ◌||◌, Option, none, some, ◌∷◌, any, str_eq, arith, trim_space,
  is_empty,
}
use foreignreader_be.Schema.{stripe}
use foreignreader_be.Db.{ok, World, query, tx_query, transaction_or_rollback}
use foreignreader_be.Http.{success}
use foreignreader_be.Entitlement.{holds_pro}
use foreignreader_be.Entitlement.Grants.{holds_beside}
use foreignreader_be.Billing.{
  StripeApi, Event, Subscription, user_id_from_metadata, trimmed_customer, user_by_customer,
  resolve_user_for_subscription, handle_customer_subscription_updated,
  handle_customer_subscription_deleted, process_stripe_event,
}
use foreignreader_be.Billing.Access.{
  is_subscription_event, event_grants, process_stripe_event-holds_pro,
}
use foreignreader_be.Billing.Webhook.{WebhookRequest, webhook_transaction, handle_stripe_webhook}
use foreignreader_be.Billing.Webhook.Replay.{handle_stripe_webhook-once}

module _ (api : StripeApi) where
  webhook_transaction-holds_pro :
      (evt : Event) (sub : Subscription) (user now : ℕ) (w : World) (o : Option (Unit {0}))
      → is_subscription_event evt.type ≡ true
      → api.decode_subscription evt.raw ≡ some sub
      → user_id_from_metadata api sub.metadata ≡ some user
      → any (str_eq evt.id) w.tables.stripe_events ≡ false
      → (webhook_transaction api evt w).0 ≡ ok o
      → holds_pro now user (webhook_transaction api evt w).1.tables
        ≡ (event_grants now evt.type sub || holds_beside stripe now user w.tables)
  unfolding webhook_transaction tx_query transaction_or_rollback
  webhook_transaction-holds_pro evt sub user now w o ht hs hu new h =
      grind (arith, λ (w' : World). process_stripe_event-holds_pro api evt sub user now w' ht hs hu)

  -- A subscription event that is new, names its user in the metadata and is answered with success
  -- leaves the user with Pro access at exactly the instants at which a row of another source grants
  -- it, or the event does: it is no deletion, the subscription is active, in trial or past due, and
  -- it is past due, or has no known end of the paid period, or this is still to come.
  pub handle_stripe_webhook-holds_pro :
      (secret : String) (r : WebhookRequest) (body : String) (evt : Event) (sub : Subscription)
      → (user now : ℕ) (w : World) → r.body ≡ some body
      → api.construct_event body r.signature (trim_space secret) ≡ some evt
      → is_subscription_event evt.type ≡ true
      → api.decode_subscription evt.raw ≡ some sub
      → user_id_from_metadata api sub.metadata ≡ some user
      → any (str_eq evt.id) w.tables.stripe_events ≡ false
      → (handle_stripe_webhook api secret r w).0 ≡ success tt
      → holds_pro now user (handle_stripe_webhook api secret r w).1.tables
        ≡ (event_grants now evt.type sub || holds_beside stripe now user w.tables)
  unfolding handle_stripe_webhook
  handle_stripe_webhook-holds_pro secret r body evt sub user now w hb he ht hs hu new h = grind (
    arith,
    λ (o : Option (Unit {0})). webhook_transaction-holds_pro evt sub user now w o ht hs hu new,
  )

  -- The lookup of the customer is the third database call of the transaction.
  webhook_transaction-lookup_failure :
      (evt : Event) (sub : Subscription) (w : World)
      → is_subscription_event evt.type ≡ true
      → api.decode_subscription evt.raw ≡ some sub
      → user_id_from_metadata api sub.metadata ≡ none
      → is_empty (trimmed_customer sub.customer) ≡ false
      → is_empty (trim_space (trimmed_customer sub.customer)) ≡ false
      → any (str_eq evt.id) w.tables.stripe_events ≡ false
      → w.env.fault w.calls ≡ false
      → w.env.fault (w.calls + 1) ≡ false
      → w.env.fault (w.calls + 1 + 1) ≡ true
      → w.env.fault (w.calls + 1 + 1 + 1) ≡ false
      → let (answer, w') = webhook_transaction api evt w in
        (answer ≡ ok (some tt))
        × (w'.tables ≡ record w.tables { stripe_events = evt.id ∷ w.tables.stripe_events })
  unfolding webhook_transaction tx_query transaction_or_rollback process_stripe_event
      handle_customer_subscription_updated handle_customer_subscription_deleted
      resolve_user_for_subscription user_by_customer query
  webhook_transaction-lookup_failure evt sub w ht hs hu hc hc' new f0 f1 f2 f3 =
      (ground arith, ground arith)

  -- A new subscription event whose user has to be looked up by customer is acknowledged and recorded
  -- when that lookup fails and no other call of the transaction does, although nothing but the record
  -- of the event was written. No delivery of an event with this id, whatever its body and signature,
  -- has any effect in a world where the record is still there.
  pub handle_stripe_webhook-lookup_failure :
      (secret : String) (r : WebhookRequest) (body : String) (evt : Event) (sub : Subscription)
      → (w : World) → is_empty (trim_space secret) ≡ false
      → is_empty (trim_space r.signature) ≡ false
      → is_empty evt.raw ≡ false
      → r.body ≡ some body
      → api.construct_event body r.signature (trim_space secret) ≡ some evt
      → is_subscription_event evt.type ≡ true
      → api.decode_subscription evt.raw ≡ some sub
      → user_id_from_metadata api sub.metadata ≡ none
      → is_empty (trimmed_customer sub.customer) ≡ false
      → is_empty (trim_space (trimmed_customer sub.customer)) ≡ false
      → any (str_eq evt.id) w.tables.stripe_events ≡ false
      → w.env.fault w.calls ≡ false
      → w.env.fault (w.calls + 1) ≡ false
      → w.env.fault (w.calls + 1 + 1) ≡ true
      → w.env.fault (w.calls + 1 + 1 + 1) ≡ false
      → let (answer, w') = handle_stripe_webhook api secret r w in
        (answer ≡ success tt)
        × (w'.tables ≡ record w.tables { stripe_events = evt.id ∷ w.tables.stripe_events })
        × ((r' : WebhookRequest) (body' : String) (evt' : Event) (w'' : World)
            → r'.body ≡ some body'
            → api.construct_event body' r'.signature (trim_space secret) ≡ some evt'
            → evt'.id ≡ evt.id
            → any (str_eq evt.id) w''.tables.stripe_events ≡ true
            → (handle_stripe_webhook api secret r' w'').1.tables ≡ w''.tables)
  unfolding handle_stripe_webhook
  handle_stripe_webhook-lookup_failure secret r body evt sub w hk hg hr hb he ht hs hu hc hc' new f0
        f1 f2 f3 =
      let lost = webhook_transaction-lookup_failure evt sub w ht hs hu hc hc' new f0 f1 f2 f3 in
      let answered : (handle_stripe_webhook api secret r w).0 ≡ success tt = ground (arith, lost) in
      (
        answered,
        ground (arith, lost),
        λ r' body' evt' w'' hb' he' same there.
            (handle_stripe_webhook-once api secret r' body' evt' w'' hb' he').2 (rw same there),
      )

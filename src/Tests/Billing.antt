-- ===== src/Tests/Billing.antt =====
-- Stripe events delivered to a concrete world.
use foreignreader_be.Base.{
  ℕ, ◌==◌, ◌≡◌, refl, String, Bool, true, false, ◌||◌, Option, none, some, [], ◌∷◌, pos, any,
  if◌then◌else◌, str_eq,
}
use foreignreader_be.Schema.{stripe}
use foreignreader_be.Db.{World, Env}
use foreignreader_be.Http.{success, api_error}
use foreignreader_be.Entitlement.{holds_pro}
use foreignreader_be.Entitlement.Grants.{holds_beside}
use foreignreader_be.Billing.{
  StripeApi, Event, active, subscription_updated, subscription_created, Subscription,
  process_stripe_event, subscription_pro_access,
}
use foreignreader_be.Billing.Access.{event_grants}
use foreignreader_be.Billing.Webhook.{WebhookRequest, handle_stripe_webhook}
use foreignreader_be.Billing.Webhook.Replay.{Recorded, handle_stripe_webhook-once}
use foreignreader_be.Billing.Webhook.Effect.{
  handle_stripe_webhook-holds_pro, handle_stripe_webhook-lookup_failure,
}
use foreignreader_be.Tests.{start, calm}

-- An active subscription, paid until the second 5 of 1970, of the user 7.
abbrev paid : Subscription
paid = record {
  status = active;
  metadata = some (("user_id", "7") ∷ []);
  customer = some "cus_1";
  cancel_at_period_end = false;
  current_period_end = pos 5;
  cancel_at = pos 0;
}

-- The same, without metadata.
abbrev anonymous : Subscription
anonymous = record paid { metadata = none }

abbrev event : Event
event = record { id = "evt_1"; type = subscription_updated; raw = "{}" }

abbrev api_of : Subscription → StripeApi
api_of sub = record {
  parse_uuid = λ s. if str_eq s "7" then some 7 else none;
  decode_session = λ s. none;
  decode_subscription = λ s. some sub;
  construct_event = λ body sig secret. some event;
}

abbrev delivery : WebhookRequest
delivery = record { body = some "{}"; signature = "t=1" }

handle_stripe_webhook-holds_pro_example :
    holds_pro 200 7 (handle_stripe_webhook (api_of paid) "whsec" delivery start).1.tables
    ≡ (event_grants 200 subscription_updated paid || holds_beside stripe 200 7 start.tables)
unfolding foreignreader_be.Billing.user_id_from_metadata foreignreader_be.Base.trim_space
    handle_stripe_webhook foreignreader_be.Db.transaction_or_rollback foreignreader_be.Db.tx_query
    process_stripe_event foreignreader_be.Billing.handle_customer_subscription_updated
    foreignreader_be.Billing.resolve_user_for_subscription subscription_pro_access
    foreignreader_be.Entitlement.upsert_stripe_pro
handle_stripe_webhook-holds_pro_example =
    handle_stripe_webhook-holds_pro (api_of paid) "whsec" delivery "{}" event paid 7 200 start refl
      refl refl refl refl refl refl

handle_stripe_webhook-once_example :
    let (answer, w') = handle_stripe_webhook (api_of paid) "whsec" delivery start in
    ((status : ℕ) (code : String) → answer ≡ api_error status code → w'.tables ≡ start.tables)
    × (answer ≡ success tt → Recorded event w'.tables)
    × (Recorded event start.tables → w'.tables ≡ start.tables)
handle_stripe_webhook-once_example =
    handle_stripe_webhook-once (api_of paid) "whsec" delivery "{}" event start refl refl

-- The third call of the database fails.
abbrev shaky : World
shaky = record start { env = record calm { fault = λ n. n == 2 } }

handle_stripe_webhook-lookup_failure_example :
    let (answer, w') = handle_stripe_webhook (api_of anonymous) "whsec" delivery shaky in
    (answer ≡ success tt)
    × (w'.tables ≡ record shaky.tables { stripe_events = "evt_1" ∷ shaky.tables.stripe_events })
    × ((r' : WebhookRequest) (body' : String) (evt' : Event) (w'' : World)
        → r'.body ≡ some body'
        → some event ≡ some evt'
        → evt'.id ≡ "evt_1"
        → any (str_eq "evt_1") w''.tables.stripe_events ≡ true
        → (handle_stripe_webhook (api_of anonymous) "whsec" r' w'').1.tables ≡ w''.tables)
unfolding foreignreader_be.Base.trim_space foreignreader_be.Billing.user_id_from_metadata
handle_stripe_webhook-lookup_failure_example =
    handle_stripe_webhook-lookup_failure (api_of anonymous) "whsec" delivery "{}" event anonymous
      shaky refl refl refl refl refl refl refl refl refl refl refl refl refl refl refl

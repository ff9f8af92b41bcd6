-- ===== src/Billing/Webhook/Replay.antt =====
-- Deliveries of one event to handleStripeWebhook, however often and whatever fails.
use foreignreader_be.Base.{
  ℕ, ◌≡◌, refl, String, str_eq, eq_iff, true, Option, some, any, arith, trim_space,
}
use foreignreader_be.Schema.{Tables}
use foreignreader_be.Db.{Error, ok, err, World, tx_query, transaction_or_rollback}
use foreignreader_be.Db.Atomic.{transaction_or_rollback-err}
use foreignreader_be.Http.{success, api_error}
use foreignreader_be.Billing.{StripeApi, Event}
use foreignreader_be.Billing.Frame.{Keeps-process}
use foreignreader_be.Billing.Webhook.{WebhookRequest, webhook_transaction, handle_stripe_webhook}

-- The event is recorded as processed.
abbrev pub Recorded : Event → Tables → Type 0
Recorded evt t = any (str_eq evt.id) t.stripe_events ≡ true

module _ (api : StripeApi) where
  webhook_transaction-err :
      (evt : Event) (w : World) (e : Error)
      → (webhook_transaction api evt w).0 ≡ err e
      → (webhook_transaction api evt w).1.tables ≡ w.tables
  unfolding webhook_transaction
  webhook_transaction-err evt w e h = transaction_or_rollback-err _ w h

  webhook_transaction-Recorded :
      (evt : Event) (w : World) (o : Option (Unit {0}))
      → (webhook_transaction api evt w).0 ≡ ok o
      → Recorded evt (webhook_transaction api evt w).1.tables
  unfolding webhook_transaction tx_query transaction_or_rollback
  webhook_transaction-Recorded evt w o h =
      grind (arith, (eq_iff evt.id evt.id).1 refl, λ (w' : World). (Keeps-process api evt).at w')

  webhook_transaction_again :
      (evt : Event) (w : World)
      → Recorded evt w.tables
      → (webhook_transaction api evt w).1.tables ≡ w.tables
  unfolding webhook_transaction tx_query transaction_or_rollback
  webhook_transaction_again evt w h = ground arith

  -- For a delivery whose signature verifies as the event `evt`: an error answer leaves the tables as
  -- they were, a success leaves the event recorded, and if the event was recorded before, nothing
  -- changes at all, whichever database calls fail.
  pub handle_stripe_webhook-once :
      (secret : String) (r : WebhookRequest) (body : String) (evt : Event) (w : World)
      → r.body ≡ some body
      → api.construct_event body r.signature (trim_space secret) ≡ some evt
      → let (answer, w') = handle_stripe_webhook api secret r w in
        ((status : ℕ) (code : String) → answer ≡ api_error status code → w'.tables ≡ w.tables)
        × (answer ≡ success tt → Recorded evt w'.tables)
        × (Recorded evt w.tables → w'.tables ≡ w.tables)
  unfolding handle_stripe_webhook
  handle_stripe_webhook-once secret r body evt w hb he = (
    (λ status code h. grind (arith, webhook_transaction-err evt w)),
    (λ h. grind (arith, webhook_transaction-Recorded evt w)),
    (λ h. ground (arith, webhook_transaction_again evt w h)),
  )

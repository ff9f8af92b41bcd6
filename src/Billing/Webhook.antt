-- ===== src/Billing/Webhook.antt =====
-- internal/server/routes_webhook.go: handleStripeWebhook.
pub mod Effect
pub mod Replay
use foreignreader_be.Base.{
  ℕ, String, str_eq, Bool, true, false, not, Option, none, some, ◌∷◌, any, if◌then◌else◌,
  trim_space, is_empty,
}
use foreignreader_be.Schema.{Tables}
use foreignreader_be.Db.{
  Result, ok, err, Db, Stmt, World, pure, tx_query, transaction_or_rollback, ◌>>=◌, ◌>>◌,
}
use foreignreader_be.Http.{Response, success, api_error, Handler, reject, reject_if}
use foreignreader_be.Billing.{StripeApi, Event, process_stripe_event}

-- `body` is none if reading it failed; `signature` is the Stripe-Signature header.
pub record WebhookRequest : Type 0 where
  pub body : Option String
  pub signature : String

-- `INSERT INTO stripe_webhook_events … ON CONFLICT DO NOTHING RETURNING id`: whether a row came
-- back.
unfoldable pub insert_stripe_event : String → Stmt Bool
insert_stripe_event id env t =
    if any (str_eq id) t.stripe_events
    then ok (false, t)
    else ok (true, record t { stripe_events = id ∷ t.stripe_events })

-- The answer by how the transaction ended; none is a duplicate, rolled back and acknowledged.
abbrev answer : Result (Option (Unit {0})) × World → Response (Unit {0}) × World
answer (ok _, w) = (success tt, w)
answer (err _, w) = (api_error 500 "internal_error", w)

module _ (api : StripeApi) where
  abbrev once : Event → Bool → Db (Option (Unit {0}))
  once evt true = do process_stripe_event api evt; pure (some tt)
  once evt false = pure none

  -- The transaction of the handler.
  unfoldable pub webhook_transaction : Event → Db (Option (Unit {0}))
  unfolding insert_stripe_event
  webhook_transaction evt =
      transaction_or_rollback (do fresh ← tx_query (insert_stripe_event evt.id); once evt fresh)

  abbrev verified : Option Event → Handler (Unit {0})
  unfolding webhook_transaction
  verified none = reject 400 "invalid_signature"
  verified (some evt) =
      reject_if (is_empty evt.raw) 400 "invalid_request" (λ w. answer (webhook_transaction evt w))

  abbrev with_body : String → String → Option String → Handler (Unit {0})
  unfolding webhook_transaction
  with_body secret sig none = reject 400 "invalid_request"
  with_body secret sig (some body) =
      reject_if (is_empty (trim_space sig)) 400 "invalid_request"
        (verified (api.construct_event body sig secret))

  -- handleStripeWebhook; `secret` is cfg.StripeWebhookSecret.
  unfoldable pub handle_stripe_webhook : String → WebhookRequest → Handler (Unit {0})
  unfolding webhook_transaction
  handle_stripe_webhook secret r =
      reject_if (is_empty (trim_space secret)) 503 "billing_unavailable"
        (with_body (trim_space secret) r.signature r.body)

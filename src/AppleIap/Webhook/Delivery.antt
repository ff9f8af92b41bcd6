-- ===== src/AppleIap/Webhook/Delivery.antt =====
-- Deliveries of one notification to handleAppleIAPWebhook, however often and whatever fails.
use foreignreader_be.Base.{
  ℕ, ◌+◌, ◌≡◌, ◌≢◌, refl, ap, ◌∙◌, String, str_eq, eq_iff, Bool, true, false, Option, none, some,
  List, [], ◌∷◌, any, Option-cases, inl, inr, sym, find?, trim_space, arith, update,
}
use foreignreader_be.Schema.{SubStatus, AppleSubscription, AppleEvent, Environment}
use foreignreader_be.Db.{Error, ok, err, World, ◌>>=◌, tx_query, transaction_or_rollback}
use foreignreader_be.Db.Inversion.{>>=-ok, transaction_or_rollback-ok}
use foreignreader_be.Db.Atomic.{transaction_or_rollback-err}
use foreignreader_be.Db.Keeps.{Keeps, StmtKeeps, Keeps-pure, Keeps-get_now, keeps_rules}
use foreignreader_be.Http.{success, api_error}
use foreignreader_be.Entitlement.Frame.{
  IgnoresEntitlements, Keeps-upsert_apple_iap_pro, Keeps-revoke_apple_iap_pro,
}
use foreignreader_be.AppleIap.{
  TransactionPayload, insert_apple_event, mark_apple_event_processed, unprocessed, of_original,
  subscription_by_original, update_subscription_state,
}
use foreignreader_be.AppleIap.Validate.{Service}
use foreignreader_be.AppleIap.Validate.Frame.{Keeps-validate_transaction}
use foreignreader_be.AppleIap.Webhook.{
  Notification, WebhookConfig, apply_grant, update_known, found, fresh, notification_transaction,
  self_heal, heal_user, with_uuid, transaction_of, handle_apple_iap_webhook,
}
use foreignreader_be.AppleIap.Webhook.State.{seen, inserting}

-- Marking a notification as processed does not change which ones are recorded.
any-mark :
    (uuid other : String) (at : Option ℕ) (es : List AppleEvent)
    → any
        (λ e. str_eq e.notification_uuid uuid)
        (update (unprocessed other) (λ e. record e { processed_at = at }) es)
      ≡ any (λ e. str_eq e.notification_uuid uuid) es
any-mark uuid other at [] = refl
any-mark uuid other at (e ∷ es) = ground (arith, any-mark uuid other at es)

module _ (uuid : String) where
  ignores : IgnoresEntitlements (seen uuid)
  ignores = record { entitlements_at = λ t es. refl; drawn_at = λ t n. refl }

  Keeps-mark : (other : String) → StmtKeeps (seen uuid) (mark_apple_event_processed other)
  unfolding mark_apple_event_processed
  Keeps-mark other = record { stmt_at = λ env t. any-mark uuid other (some env.now) t.apple_events }

  Keeps-by_original :
      (original : String) → StmtKeeps (seen uuid) (subscription_by_original original)
  Keeps-by_original original = record { stmt_at = λ env t. refl }

  Keeps-state :
      (original latest : String) (status : SubStatus) (e : Option Environment) (expires : Option ℕ)
      → StmtKeeps (seen uuid) (update_subscription_state original latest status e expires)
  unfolding update_subscription_state
  Keeps-state original latest status e expires = record { stmt_at = λ env t. ground arith }

  Keeps-apply_grant :
      (grant : Bool) (user : ℕ) (expires : Option ℕ)
      → Keeps (seen uuid) (apply_grant grant user expires)
  Keeps-apply_grant true user expires = Keeps-upsert_apple_iap_pro ignores user expires
  Keeps-apply_grant false user expires = Keeps-revoke_apple_iap_pro ignores user

  ruleset writes =
      (keeps_rules, Keeps-get_now, Keeps-mark, Keeps-by_original, Keeps-state, Keeps-apply_grant)

  module _ (cfg : WebhookConfig) (np : Notification) (txp : TransactionPayload) where
    Keeps-update_known : (sub : AppleSubscription) → Keeps (seen uuid) (update_known cfg np txp sub)
    unfolding update_known
    Keeps-update_known sub = search writes depth 14

    Keeps-found : (o : Option AppleSubscription) → Keeps (seen uuid) (found cfg np txp o)
    Keeps-found none = search writes
    Keeps-found (some sub) = Keeps-update_known sub

    Keeps-fresh : (is_new : Bool) → Keeps (seen uuid) (fresh cfg np txp is_new)
    Keeps-fresh false = Keeps-pure none
    Keeps-fresh true = search (writes, Keeps-found) depth 12

module _ (cfg : WebhookConfig) where
  seen-heal_user :
      (uuid id : String) (user : Option ℕ) (svc : Option Service) (w : World)
      → seen uuid (heal_user cfg id user svc w).tables ≡ seen uuid w.tables
  seen-heal_user uuid id none svc w = refl
  seen-heal_user uuid id (some user) none w = refl
  seen-heal_user uuid id (some user) (some svc) w =
      ap (any λ e. str_eq e.notification_uuid uuid) ((Keeps-validate_transaction svc user id).at w)

  seen-self_heal :
      (uuid : String) (txp : TransactionPayload) (w : World)
      → seen uuid (self_heal cfg txp w).tables ≡ seen uuid w.tables
  unfolding self_heal
  seen-self_heal uuid txp w = grind (arith, seen-heal_user uuid)

  module _ (np : Notification) (txp : TransactionPayload) (w : World) where
    notification_transaction-err :
        {e : Error}
        → (notification_transaction cfg np txp w).0 ≡ err e
        → (notification_transaction cfg np txp w).1.tables ≡ w.tables
    unfolding notification_transaction
    notification_transaction-err h = transaction_or_rollback-err _ w h

    inserting-seen :
        (w : World) {c : Bool}
        → (inserting cfg np txp w).0 ≡ ok c
        → (seen np.notification_uuid (inserting cfg np txp w).1.tables ≡ true)
          × (c ≡ false → seen np.notification_uuid w.tables ≡ true)
    unfolding inserting tx_query insert_apple_event
    inserting-seen w h = (
      ground (arith, (eq_iff np.notification_uuid np.notification_uuid).1 refl),
      λ e. ground arith,
    )

    update_known-some :
        (sub : AppleSubscription) (w : World) → (update_known cfg np txp sub w).0 ≢ ok none
    unfolding update_known
    update_known-some sub w e = ground arith

    found-some : (o : Option AppleSubscription) (w : World) → (found cfg np txp o w).0 ≢ ok none
    found-some none w e = ground arith
    found-some (some sub) w e = update_known-some sub w e

    fresh-some : (w : World) → (fresh cfg np txp true w).0 ≢ ok none
    unfolding tx_query
    fresh-some w e =
        let row =
          find? (of_original (trim_space txp.original_transaction_id))
            w.tables.apple_subscriptions in
        let lemma = found-some row (record w { calls = w.calls + 1 }) in ground (arith, lemma)

    after_inserting : (c : Bool) (w : World) → (fresh cfg np txp c w).0 ≡ ok none → c ≡ false
    after_inserting false w e = refl
    after_inserting true w e = absurd (fresh-some w e)

    notification_transaction_again :
        seen np.notification_uuid w.tables ≡ true
        → ((notification_transaction cfg np txp w).0 ≢ ok (some true))
          × ((notification_transaction cfg np txp w).1.tables ≡ w.tables)
    unfolding notification_transaction transaction_or_rollback tx_query insert_apple_event
    notification_transaction_again h = (λ e. ground arith, ground arith)

    notification_transaction-seen :
        {b : Option Bool}
        → (notification_transaction cfg np txp w).0 ≡ ok b
        → seen np.notification_uuid (notification_transaction cfg np txp w).1.tables ≡ true
    unfolding notification_transaction inserting
    notification_transaction-seen {b} h =
        let start = record w { calls = w.calls + 1; poisoned = false } in
        let (h0, same) =
          transaction_or_rollback-ok (inserting cfg np txp >>= fresh cfg np txp) w h in
        let (c, e1, k1, h1) = >>=-ok (inserting cfg np txp) (fresh cfg np txp) start h0 in
        let (recorded, before) = inserting-seen start e1 in
        elim (Option-cases b) [
          | inl nothing ↦
              let known = before (after_inserting c _ (h1 ∙ ap ok nothing)) in
              ap (seen np.notification_uuid) (notification_transaction_again known).1 ∙ known
          | inr (x, something) ↦
              let kept =
                (Keeps-fresh np.notification_uuid cfg np txp c).at (inserting cfg np txp start).1 in
              ap (seen np.notification_uuid) (sym (same (rw something cc)))
              ∙ (rw k1 kept ∙ recorded)
        ]

  -- For a delivery whose payloads verify as the notification `np` with the transaction `txp`: an
  -- error answer leaves the tables as they were, a success leaves the notification recorded, and if
  -- the notification was recorded before, nothing changes at all, whichever database calls fail.
  pub handle_apple_iap_webhook-once :
      (body payload : String) (np : Notification) (txp : TransactionPayload) (w : World)
      → cfg.decode_envelope body ≡ some payload
      → with_uuid (cfg.verify_notification_jws payload) ≡ some np
      → transaction_of cfg np ≡ some txp
      → let (answer, w') = handle_apple_iap_webhook cfg true (some body) w in
        ((status : ℕ) (code : String) → answer ≡ api_error status code → w'.tables ≡ w.tables)
        × (answer ≡ success tt → seen np.notification_uuid w'.tables ≡ true)
        × (seen np.notification_uuid w.tables ≡ true → w'.tables ≡ w.tables)
  unfolding handle_apple_iap_webhook
  handle_apple_iap_webhook-once body payload np txp w he hv ht = (
    (λ status code h. grind (arith, notification_transaction-err np txp w)),
    (λ h. grind (arith, notification_transaction-seen np txp w, seen-self_heal)),
    (λ h. grind (arith, notification_transaction_again np txp w h)),
  )

-- ===== src/AppleIap/Webhook/State.antt =====
-- What a notification says of its subscription, and what that does to the user's Pro access.
use foreignreader_be.Base.{
  ℕ, ◌+◌, ◌≡◌, ◌≢◌, String, Bool, true, false, ◌&&◌, ◌||◌, not, Option, some, arith, is_positive,
  trim_space, str_eq, find?, any, is_empty, List,
}
use foreignreader_be.Schema.{
  SubStatus, AppleSubscription, Environment, Entitlement, apple_iap, Tables,
}
use foreignreader_be.Db.{ok, World, Db, ◌>>=◌, tx_query}
use foreignreader_be.Http.{success}
use foreignreader_be.Entitlement.{product_pro, unexpired, holds_pro}
use foreignreader_be.Entitlement.Grants.{
  holds_beside, upsert_apple_iap_pro-holds_pro, revoke_apple_iap_pro-holds_pro,
}
use foreignreader_be.Db.Inversion.{>>=-ok, transaction_or_rollback-ok}
use foreignreader_be.Db.Keeps.{Keeps, StmtKeeps, Keeps-attempt, Keeps-tx_query}
use foreignreader_be.AppleIap.{
  parse_environment, TransactionPayload, expires_at, of_original, insert_apple_event,
  mark_apple_event_processed, update_subscription_state,
}
use foreignreader_be.AppleIap.Webhook.{
  Notification, WebhookConfig, mark_processed, apply_status, derive_env, named, derive_state,
  is_granted, apply_grant, update_known, fresh, notification_transaction, handle_apple_iap_webhook,
  with_uuid, transaction_of,
}

-- The notification ends the subscription whatever its dates are.
abbrev pub is_final : String → TransactionPayload → Bool
is_final type txp =
    is_positive txp.revocation_date
    || named type "REVOKE"
    || named type "REFUND"
    || named type "EXPIRED"

-- The notification is about a failed renewal or a grace period that still runs.
abbrev pub is_retried : String → String → Bool
is_retried type subtype =
    named type "DID_FAIL_TO_RENEW"
    || named type "DID_ENTER_GRACE_PERIOD"
    || named subtype "GRACE_PERIOD"

-- A notification grants access exactly if it does not end the subscription, its transaction has not
-- expired, and it does not report the end of a grace period without being a retry itself. In
-- particular no grace period goes beyond the expiry of the transaction.
pub is_granted-derive_state :
    (now : ℕ) (type subtype : String) (txp : TransactionPayload)
    → is_granted (derive_state now type subtype txp) ≡ (
        not (is_final type txp)
        && unexpired now (expires_at txp)
        && (is_retried type subtype || not (named type "GRACE_PERIOD_EXPIRED")))
unfolding derive_state
is_granted-derive_state now type subtype txp = ground arith

-- The access after the switch on the status, at an instant: the user's, and anybody else's.
abbrev pub Granted : Bool → ℕ → Option ℕ → ℕ → ℕ → Tables → Tables → Type 0
Granted grant user expires at other before after =
    (holds_pro at user after
      ≡ (grant && unexpired at expires || holds_beside apple_iap at user before))
    × (other ≢ user → holds_pro at other after ≡ holds_pro at other before)

apply_grant-Granted :
    (grant : Bool) (user : ℕ) (expires : Option ℕ) (at other : ℕ) (w : World)
    → (apply_grant grant user expires w).0 ≡ ok tt
    → Granted grant user expires at other w.tables (apply_grant grant user expires w).1.tables
apply_grant-Granted true user expires at other w h =
    upsert_apple_iap_pro-holds_pro user expires at other w h
apply_grant-Granted false user expires at other w h =
    revoke_apple_iap_pro-holds_pro user at other w h

apply_status-Granted :
    (sub : AppleSubscription) (status : SubStatus) (expires : Option ℕ) (at other : ℕ) (w : World)
    → str_eq sub.product_code product_pro ≡ true
    → (apply_status sub status expires w).0 ≡ ok tt
    → Granted
        (is_granted status)
        sub.user_id
        expires
        at
        other
        w.tables
        (apply_status sub status expires w).1.tables
apply_status-Granted sub status expires at other w hp h =
    let lemma = apply_grant-Granted (is_granted status) sub.user_id expires at other w in
    (ground (arith, lemma), ground (arith, lemma))

-- A call keeps the entitlements.
abbrev entitlements : Tables → List Entitlement
entitlements t = t.entitlements

Keeps-update_subscription_state :
    (original latest : String) (status : SubStatus) (e : Option Environment) (expires : Option ℕ)
    → StmtKeeps entitlements (update_subscription_state original latest status e expires)
unfolding update_subscription_state
Keeps-update_subscription_state original latest status e expires = record {
  stmt_at = λ env t. ground arith;
}

Keeps-mark_processed : (uuid : String) → Keeps entitlements (mark_processed uuid)
unfolding mark_apple_event_processed
Keeps-mark_processed uuid =
    Keeps-attempt _ (Keeps-tx_query _ (record { stmt_at = λ env t. ground arith }))

-- The notification is recorded.
abbrev pub seen : String → Tables → Bool
seen uuid t = any (λ e. str_eq e.notification_uuid uuid) t.apple_events

module _ (cfg : WebhookConfig) (np : Notification) (txp : TransactionPayload) where
  -- What the notification says at the instant `now`.
  abbrev pub says : ℕ → SubStatus
  says now = derive_state now (trim_space np.notification_type) (trim_space np.subtype) txp

  update_known-Granted :
      (sub : AppleSubscription) (at other : ℕ) (w : World) {b : Option Bool}
      → str_eq sub.product_code product_pro ≡ true
      → (update_known cfg np txp sub w).0 ≡ ok b
      → (b ≡ some false)
        × Granted
            (is_granted (says w.env.now))
            sub.user_id
            (expires_at txp)
            at
            other
            w.tables
            (update_known cfg np txp sub w).1.tables
  unfolding update_known
  update_known-Granted sub at other w {b} hp h =
      let updating = tx_query (
        update_subscription_state (trim_space txp.original_transaction_id)
          (trim_space txp.transaction_id) (says w.env.now)
          (parse_environment (derive_env cfg np txp)) (expires_at txp)) in
      let granting = apply_status sub (says w.env.now) (expires_at txp) in
      let (_, _, k1, h1) = >>=-ok updating _ w h in
      let w1 = (updating w).1 in
      let (_, e2, k2, h2) = >>=-ok granting _ w1 h1 in
      let kept : w1.tables.entitlements ≡ w.tables.entitlements =
        (Keeps-tx_query _ (Keeps-update_subscription_state _ _ _ _ _)).at w in
      let marked = (Keeps-mark_processed np.notification_uuid).at (granting w1).1 in
      let (mine, theirs) =
        apply_status-Granted sub (says w.env.now) (expires_at txp) at other w1 hp e2 in
      (ground arith, (rw (k1, k2, marked, mine, kept), λ ne. rw (k1, k2, marked, theirs ne, kept)))

  fresh-Granted :
      (is_new : Bool) (sub : AppleSubscription) (at other : ℕ) (w : World) {b : Option Bool}
      → is_new ≡ true
      → is_empty (trim_space txp.original_transaction_id) ≡ false
      → find? (of_original (trim_space txp.original_transaction_id)) w.tables.apple_subscriptions
        ≡ some sub
      → str_eq sub.product_code product_pro ≡ true
      → (fresh cfg np txp is_new w).0 ≡ ok b
      → (b ≡ some false)
        × Granted
            (is_granted (says w.env.now))
            sub.user_id
            (expires_at txp)
            at
            other
            w.tables
            (fresh cfg np txp is_new w).1.tables
  unfolding tx_query
  fresh-Granted false sub at other w {b} hn ho hf hp h = cc
  fresh-Granted true sub at other w {b} hn ho hf hp h =
      let w1 = record w { calls = w.calls + 1 } in
      let lemma = update_known-Granted sub at other w1 {b = b} hp in
      (ground (arith, lemma), (ground (arith, lemma), ground (arith, lemma)))

  unfoldable pub inserting : Db Bool
  inserting = tx_query (insert_apple_event np.notification_uuid (trim_space np.notification_type))

  inserting-ok :
      (w : World) {c : Bool}
      → seen np.notification_uuid w.tables ≡ false
      → (inserting w).0 ≡ ok c
      → let w' = (inserting w).1 in
        (c ≡ true)
        × (w'.env ≡ w.env)
        × (w'.tables.entitlements ≡ w.tables.entitlements)
        × (w'.tables.apple_subscriptions ≡ w.tables.apple_subscriptions)
  unfolding inserting tx_query insert_apple_event
  inserting-ok w new h = (ground arith, ground arith, ground arith, ground arith)

  notification_transaction-Granted :
      (sub : AppleSubscription) (at other : ℕ) (w : World) {b : Option Bool}
      → seen np.notification_uuid w.tables ≡ false
      → is_empty (trim_space txp.original_transaction_id) ≡ false
      → find? (of_original (trim_space txp.original_transaction_id)) w.tables.apple_subscriptions
        ≡ some sub
      → str_eq sub.product_code product_pro ≡ true
      → (notification_transaction cfg np txp w).0 ≡ ok b
      → (b ≡ some false)
        × Granted
            (is_granted (says w.env.now))
            sub.user_id
            (expires_at txp)
            at
            other
            w.tables
            (notification_transaction cfg np txp w).1.tables
  unfolding notification_transaction inserting
  notification_transaction-Granted sub at other w {b} new ho hf hp h =
      let start = record w { calls = w.calls + 1; poisoned = false } in
      let (h0, same) = transaction_or_rollback-ok (inserting >>= fresh cfg np txp) w h in
      let (c, e1, k1, h1) = >>=-ok inserting (fresh cfg np txp) start h0 in
      let w1 = (inserting start).1 in
      let (is_new, env, entitled, subs) = inserting-ok start new e1 in
      let (answered, granted) = fresh-Granted c sub at other w1 is_new ho (rw (subs, hf)) hp h1 in
      let tables = same (rw answered cc) in
      (
        answered,
        (
          rw (← tables, k1, granted.0, entitled, env),
          λ ne. rw (← tables, k1, granted.1 ne, entitled),
        ),
      )

  -- A notification that is new, is about a known subscription to Pro and is answered with success
  -- leaves the user of the subscription with Pro access at exactly the instants before the expiry of
  -- its transaction, if what it says grants access, and at those where a row of another source
  -- does; nobody else's access changes.
  pub handle_apple_iap_webhook-Granted :
      (body payload : String) (sub : AppleSubscription) (at other : ℕ) (w : World)
      → cfg.decode_envelope body ≡ some payload
      → with_uuid (cfg.verify_notification_jws payload) ≡ some np
      → transaction_of cfg np ≡ some txp
      → seen np.notification_uuid w.tables ≡ false
      → is_empty (trim_space txp.original_transaction_id) ≡ false
      → find? (of_original (trim_space txp.original_transaction_id)) w.tables.apple_subscriptions
        ≡ some sub
      → str_eq sub.product_code product_pro ≡ true
      → (handle_apple_iap_webhook cfg true (some body) w).0 ≡ success tt
      → Granted
          (is_granted (says w.env.now))
          sub.user_id
          (expires_at txp)
          at
          other
          w.tables
          (handle_apple_iap_webhook cfg true (some body) w).1.tables
  unfolding handle_apple_iap_webhook
  handle_apple_iap_webhook-Granted body payload sub at other w he hv ht new ho hf hp h =
      let lemma = λ (b : Option Bool) (k : (notification_transaction cfg np txp w).0 ≡ ok b).
        notification_transaction-Granted sub at other w new ho hf hp k in
      (grind (arith, lemma), grind (arith, lemma))

-- ===== src/Billing/Access.antt =====
-- What a subscription event does to the Pro access of its user.
use foreignreader_be.Base.{
  ℕ, ◌+◌, ◌*◌, ◌≡◌, Bool, true, false, ◌&&◌, ◌||◌, Option, none, some, arith, if◌then◌else◌,
  is_positive, to_ℕ, ltb,
}
use foreignreader_be.Schema.{stripe}
use foreignreader_be.Db.{ok, World}
use foreignreader_be.Entitlement.{unexpired, holds_pro}
use foreignreader_be.Entitlement.Grants.{
  holds_beside, upsert_stripe_pro-holds_pro, revoke_stripe_pro-holds_pro,
}
use foreignreader_be.Billing.{
  StripeApi, EventType, checkout_completed, unsupported, SubscriptionStatus, active, trialing,
  past_due, canceled, unpaid, incomplete_expired, paused, incomplete, other, Subscription, Event,
  subscription_updated, subscription_created, subscription_deleted, unix, subscription_pro_access,
  user_id_from_metadata, resolve_user_for_subscription, handle_customer_subscription_updated,
  handle_customer_subscription_deleted, process_stripe_event,
}

-- The statuses in which Stripe still expects the customer to be served.
abbrev pub is_served : SubscriptionStatus → Bool
is_served active = true
is_served trialing = true
is_served past_due = true
is_served canceled = false
is_served unpaid = false
is_served incomplete_expired = false
is_served paused = false
is_served incomplete = false
is_served other = false

abbrev pub is_past_due : SubscriptionStatus → Bool
is_past_due past_due = true
is_past_due active = false
is_past_due trialing = false
is_past_due canceled = false
is_past_due unpaid = false
is_past_due incomplete_expired = false
is_past_due paused = false
is_past_due incomplete = false
is_past_due other = false

-- The instant so many seconds after the start of 1970.
abbrev pub since_1970 : ℕ → ℕ
since_1970 s = (62_135_596_800 + s) * 1_000_000_000

-- The end of the paid period, as the code can know it: the period end, or else the moment at which a
-- cancellation takes effect.
abbrev pub paid_until : Subscription → Option ℕ
paid_until sub =
    if is_positive sub.current_period_end
    then some (since_1970 (to_ℕ sub.current_period_end))
    else if sub.cancel_at_period_end && is_positive sub.cancel_at
    then some (since_1970 (to_ℕ sub.cancel_at))
    else none

-- A subscription grants Pro exactly in the three served statuses; the grant ends with the paid
-- period if its end is known, but has no end while a payment is past due.
pub subscription_pro_access-paid_until :
    (sub : Subscription)
    → ((subscription_pro_access sub).0 ≡ is_served sub.status)
      × (is_served sub.status ≡ true
          → (subscription_pro_access sub).1
            ≡ (if is_past_due sub.status then none else paid_until sub))
unfolding subscription_pro_access unix
subscription_pro_access-paid_until sub = (ground arith, λ h. ground arith)

-- The instant is before the end, if there is one.
abbrev pub is_before : ℕ → Option ℕ → Bool
is_before now none = true
is_before now (some end) = ltb now end

abbrev pub is_subscription_event : EventType → Bool
is_subscription_event subscription_updated = true
is_subscription_event subscription_created = true
is_subscription_event subscription_deleted = true
is_subscription_event checkout_completed = false
is_subscription_event unsupported = false

-- A served subscription gives access until the end of the paid period, if that is known and no payment
-- is past due.
abbrev pub is_served_at : ℕ → Subscription → Bool
is_served_at now sub =
    is_served sub.status && (is_past_due sub.status || is_before now (paid_until sub))

-- Whether an event of this type with this subscription should give Pro access at the instant `now`,
-- independently of subscriptionProAccess: a deletion never does.
abbrev pub event_grants : ℕ → EventType → Subscription → Bool
event_grants now subscription_updated sub = is_served_at now sub
event_grants now subscription_created sub = is_served_at now sub
event_grants now subscription_deleted sub = false
event_grants now checkout_completed sub = false
event_grants now unsupported sub = false

subscription_pro_access-is_served_at :
    (now : ℕ) (sub : Subscription)
    → ((subscription_pro_access sub).0 && unexpired now (subscription_pro_access sub).1)
      ≡ is_served_at now sub
subscription_pro_access-is_served_at now sub =
    let (served, until) = subscription_pro_access-paid_until sub in ground (arith, served, until)

module _ (api : StripeApi) where
  -- Processing a subscription event for a user who is named in the metadata, when it succeeds, leaves
  -- the user with Pro access at exactly the instants at which the event grants it or a row of
  -- another source does.
  pub process_stripe_event-holds_pro :
      (evt : Event) (sub : Subscription) (user now : ℕ) (w : World)
      → is_subscription_event evt.type ≡ true
      → api.decode_subscription evt.raw ≡ some sub
      → user_id_from_metadata api sub.metadata ≡ some user
      → (process_stripe_event api evt w).0 ≡ ok tt
      → holds_pro now user (process_stripe_event api evt w).1.tables
        ≡ (event_grants now evt.type sub || holds_beside stripe now user w.tables)
  unfolding process_stripe_event handle_customer_subscription_updated
      handle_customer_subscription_deleted resolve_user_for_subscription
  process_stripe_event-holds_pro evt sub user now w ht hs hu h = ground (
    arith,
    upsert_stripe_pro-holds_pro user (subscription_pro_access sub).1 now user w,
    revoke_stripe_pro-holds_pro user now user w,
    subscription_pro_access-is_served_at now sub,
  )

-- ===== src/Entitlement/Unique.antt =====
-- How many active Pro rows of a source the writes of internal/entitlement leave to a user.
use foreignreader_be.Base.{ℕ, ◌≤◌, ◌≡◌, Bool, List, [], ◌∷◌, Option, none, arith, update, count}
use foreignreader_be.Schema.{Source, dev, apple_iap, stripe, source_eq-eq, Entitlement, Tables}
use foreignreader_be.Db.{World, tx_query, transaction}
use foreignreader_be.Entitlement.{
  is_active_pro_from, revoke_row, pro_row, upsert_apple_iap_pro, revoke_apple_iap_pro,
  upsert_stripe_pro, revoke_stripe_pro, set_dev_pro,
}
use foreignreader_be.Entitlement.Grants.{count-revoke}

-- At most one active Pro row of the source `s` for the user.
abbrev pub AtMostOne : Source → ℕ → Tables → Type 0
AtMostOne s user t = count (is_active_pro_from s user) t.entitlements ≤ 1

count-revoke-le :
    (s s' : Source) (at user user' : ℕ) (es : List Entitlement)
    → count (is_active_pro_from s user) (update (is_active_pro_from s' user') (revoke_row at) es)
      ≤ count (is_active_pro_from s user) es
count-revoke-le s s' at user user' [] = omega arith
count-revoke-le s s' at user user' (e ∷ es) = ground (arith, count-revoke-le s s' at user user' es)

-- One more row of the source for the user, after the others were revoked.
AtMostOne-replace :
    (s s' : Source) (at user user' : ℕ) (e : Entitlement) (es : List Entitlement)
    → e.source ≡ s'
    → e.user_id ≡ user'
    → count (is_active_pro_from s user) es ≤ 1
    → count
        (is_active_pro_from s user)
        (e ∷ update (is_active_pro_from s' user') (revoke_row at) es)
      ≤ 1
AtMostOne-replace s s' at user user' e es same mine h =
    ground
      (arith, source_eq-eq s' s, count-revoke s' at user' es, count-revoke-le s s' at user user' es)

AtMostOne-upsert_apple_iap_pro :
    (s : Source) (user user' : ℕ) (expires : Option ℕ) (w : World)
    → AtMostOne s user w.tables
    → AtMostOne s user (upsert_apple_iap_pro user' expires w).1.tables
unfolding upsert_apple_iap_pro tx_query
AtMostOne-upsert_apple_iap_pro s user user' expires w h = ground (
  arith,
  count-revoke-le s apple_iap w.env.now user user' w.tables.entitlements,
  AtMostOne-replace s apple_iap w.env.now user user'
      (pro_row w.env w.tables apple_iap user' expires) w.tables.entitlements,
)

AtMostOne-upsert_stripe_pro :
    (s : Source) (user user' : ℕ) (expires : Option ℕ) (w : World)
    → AtMostOne s user w.tables
    → AtMostOne s user (upsert_stripe_pro user' expires w).1.tables
unfolding upsert_stripe_pro tx_query
AtMostOne-upsert_stripe_pro s user user' expires w h = ground (
  arith,
  count-revoke-le s stripe w.env.now user user' w.tables.entitlements,
  AtMostOne-replace s stripe w.env.now user user' (pro_row w.env w.tables stripe user' expires)
      w.tables.entitlements,
)

AtMostOne-set_dev_pro :
    (s : Source) (user user' : ℕ) (configured activate : Bool) (w : World)
    → AtMostOne s user w.tables
    → AtMostOne s user (set_dev_pro configured user' activate w).1.tables
unfolding set_dev_pro tx_query transaction
AtMostOne-set_dev_pro s user user' configured activate w h = ground (
  arith,
  count-revoke-le s dev w.env.now user user' w.tables.entitlements,
  AtMostOne-replace s dev w.env.now user user' (pro_row w.env w.tables dev user' none)
      w.tables.entitlements,
)

-- The operations of the store that write, with their arguments.
pub data Write : Type 0 where
  upsert_apple_iap upsert_stripe : ℕ → Option ℕ → Write
  revoke_apple_iap revoke_stripe : ℕ → Write
  set_dev : Bool → ℕ → Bool → Write

-- The tables after an operation, however it ended.
pub after : Write → World → World
after (upsert_apple_iap user expires) w = (upsert_apple_iap_pro user expires w).1
after (upsert_stripe user expires) w = (upsert_stripe_pro user expires w).1
after (revoke_apple_iap user) w = (revoke_apple_iap_pro user w).1
after (revoke_stripe user) w = (revoke_stripe_pro user w).1
after (set_dev configured user activate) w = (set_dev_pro configured user activate w).1

AtMostOne-after :
    (op : Write) (s : Source) (user : ℕ) (w : World)
    → AtMostOne s user w.tables
    → AtMostOne s user (after op w).tables
unfolding after revoke_apple_iap_pro revoke_stripe_pro tx_query
AtMostOne-after (upsert_apple_iap user' expires) s user w h =
    AtMostOne-upsert_apple_iap_pro s user user' expires w h
AtMostOne-after (upsert_stripe user' expires) s user w h =
    AtMostOne-upsert_stripe_pro s user user' expires w h
AtMostOne-after (revoke_apple_iap user') s user w h =
    ground (arith, count-revoke-le s apple_iap w.env.now user user' w.tables.entitlements)
AtMostOne-after (revoke_stripe user') s user w h =
    ground (arith, count-revoke-le s stripe w.env.now user user' w.tables.entitlements)
AtMostOne-after (set_dev configured user' activate) s user w h =
    AtMostOne-set_dev_pro s user user' configured activate w h

abbrev pub after_all : List Write → World → World
after_all [] w = w
after_all (op ∷ ops) w = after_all ops (after op w)

-- No sequence of the store's writes, whichever of their statements fail, gives a user a second
-- active Pro row of one source, if there was at most one before.
pub after_all-AtMostOne :
    (ops : List Write) (s : Source) (user : ℕ) (w : World)
    → AtMostOne s user w.tables
    → AtMostOne s user (after_all ops w).tables
after_all-AtMostOne [] s user w h = h
after_all-AtMostOne (op ∷ ops) s user w h =
    after_all-AtMostOne ops s user (after op w) (AtMostOne-after op s user w h)

-- ===== src/Entitlement/Grants.antt =====
-- What granting and revoking Pro does to the Pro access of every user, on the rows.
use foreignreader_be.Base.{
  ℕ, ◌≡◌, ◌≢◌, refl, Bool, ◌&&◌, ◌||◌, not, List, [], ◌∷◌, Option, arith, any, update, count,
}
use foreignreader_be.Schema.{Source, apple_iap, stripe, source_eq, Entitlement, Tables}
use foreignreader_be.Db.{ok, World, tx_query}
use foreignreader_be.Entitlement.{
  unexpired, grants_pro, is_active_pro_from, holds_pro, revoke_row, upsert_apple_iap_pro,
  revoke_apple_iap_pro, upsert_stripe_pro, revoke_stripe_pro,
}

-- An active Pro row that comes from another source.
abbrev pub grants_beside : Source → ℕ → ℕ → Entitlement → Bool
grants_beside s now user e = grants_pro now user e && not (source_eq e.source s)

-- The user has Pro access by a row of another source than `s`.
abbrev pub holds_beside : Source → ℕ → ℕ → Tables → Bool
holds_beside s now user t = any (grants_beside s now user) t.entitlements

-- After revoking, what counts are the rows of the other sources.
pub any-revoke :
    (s : Source) (now at user : ℕ) (es : List Entitlement)
    → any (grants_pro now user) (update (is_active_pro_from s user) (revoke_row at) es)
      ≡ any (grants_beside s now user) es
any-revoke s now at user [] = refl
any-revoke s now at user (e ∷ es) = ground (arith, any-revoke s now at user es)

-- Revoking the rows of one user leaves another's access alone.
pub any-revoke_ne :
    (s : Source) (now at user other : ℕ) (es : List Entitlement)
    → other ≢ user
    → any (grants_pro now other) (update (is_active_pro_from s user) (revoke_row at) es)
      ≡ any (grants_pro now other) es
any-revoke_ne s now at user other [] ne = refl
any-revoke_ne s now at user other (e ∷ es) ne =
    ground (arith, any-revoke_ne s now at user other es ne)

-- No active Pro row of the source is left.
pub count-revoke :
    (s : Source) (at user : ℕ) (es : List Entitlement)
    → count (is_active_pro_from s user) (update (is_active_pro_from s user) (revoke_row at) es) ≡ 0
count-revoke s at user [] = refl
count-revoke s at user (e ∷ es) = ground (arith, count-revoke s at user es)

-- An App Store upsert that succeeds gives the user Pro exactly until the expiry (for ever without
-- one), or as long as a row of another source does, at every instant; nobody else's access changes.
pub upsert_apple_iap_pro-holds_pro :
    (user : ℕ) (expires : Option ℕ) (now other : ℕ) (w : World)
    → (upsert_apple_iap_pro user expires w).0 ≡ ok tt
    → let t = (upsert_apple_iap_pro user expires w).1.tables in
      (holds_pro now user t ≡ (unexpired now expires || holds_beside apple_iap now user w.tables))
      × (other ≢ user → holds_pro now other t ≡ holds_pro now other w.tables)
unfolding upsert_apple_iap_pro tx_query
upsert_apple_iap_pro-holds_pro user expires now other w h = (
  ground (arith, any-revoke apple_iap now w.env.now user w.tables.entitlements),
  λ ne. ground (arith, any-revoke_ne apple_iap now w.env.now user other w.tables.entitlements ne),
)

-- An App Store revocation that succeeds leaves the user exactly the access by other sources; nobody
-- else's access changes.
pub revoke_apple_iap_pro-holds_pro :
    (user now other : ℕ) (w : World)
    → (revoke_apple_iap_pro user w).0 ≡ ok tt
    → let t = (revoke_apple_iap_pro user w).1.tables in
      (holds_pro now user t ≡ holds_beside apple_iap now user w.tables)
      × (other ≢ user → holds_pro now other t ≡ holds_pro now other w.tables)
unfolding revoke_apple_iap_pro tx_query
revoke_apple_iap_pro-holds_pro user now other w h = (
  ground (arith, any-revoke apple_iap now w.env.now user w.tables.entitlements),
  λ ne. ground (arith, any-revoke_ne apple_iap now w.env.now user other w.tables.entitlements ne),
)

-- A Stripe upsert that succeeds gives the user Pro exactly until the expiry (for ever without one),
-- or as long as a row of another source does, at every instant; nobody else's access changes.
pub upsert_stripe_pro-holds_pro :
    (user : ℕ) (expires : Option ℕ) (now other : ℕ) (w : World)
    → (upsert_stripe_pro user expires w).0 ≡ ok tt
    → let t = (upsert_stripe_pro user expires w).1.tables in
      (holds_pro now user t ≡ (unexpired now expires || holds_beside stripe now user w.tables))
      × (other ≢ user → holds_pro now other t ≡ holds_pro now other w.tables)
unfolding upsert_stripe_pro tx_query
upsert_stripe_pro-holds_pro user expires now other w h = (
  ground (arith, any-revoke stripe now w.env.now user w.tables.entitlements),
  λ ne. ground (arith, any-revoke_ne stripe now w.env.now user other w.tables.entitlements ne),
)

-- A Stripe revocation that succeeds leaves the user exactly the access by other sources; nobody
-- else's access changes.
pub revoke_stripe_pro-holds_pro :
    (user now other : ℕ) (w : World)
    → (revoke_stripe_pro user w).0 ≡ ok tt
    → let t = (revoke_stripe_pro user w).1.tables in
      (holds_pro now user t ≡ holds_beside stripe now user w.tables)
      × (other ≢ user → holds_pro now other t ≡ holds_pro now other w.tables)
unfolding revoke_stripe_pro tx_query
revoke_stripe_pro-holds_pro user now other w h = (
  ground (arith, any-revoke stripe now w.env.now user w.tables.entitlements),
  λ ne. ground (arith, any-revoke_ne stripe now w.env.now user other w.tables.entitlements ne),
)

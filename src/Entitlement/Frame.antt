-- ===== src/Entitlement/Frame.antt =====
-- What the writes of internal/entitlement leave alone.
use foreignreader_be.Base.{ℕ, ◌≡◌, ◌∙◌, List, Option}
use foreignreader_be.Schema.{Source, Entitlement, Tables}
use foreignreader_be.Db.Keeps.{Keeps, StmtKeeps, keeps_rules}
use foreignreader_be.Entitlement.{
  revoke_pro, insert_pro, upsert_apple_iap_pro, revoke_apple_iap_pro, upsert_stripe_pro,
  revoke_stripe_pro,
}

-- A view of the tables that does not look at the entitlements, nor at the ids drawn.
pub record IgnoresEntitlements {ℓ} {X : Type ℓ} (f : Tables → X) : Type ℓ where
  pub entitlements_at :
      (t : Tables) (es : List Entitlement) → f (record t { entitlements = es }) ≡ f t
  pub drawn_at : (t : Tables) (n : ℕ) → f (record t { drawn = n }) ≡ f t

module _ {ℓ} {X : Type ℓ} {f : Tables → X} (i : IgnoresEntitlements f) where
  Keeps-revoke_pro : (s : Source) (user : ℕ) → StmtKeeps f (revoke_pro s user)
  unfolding revoke_pro
  Keeps-revoke_pro s user = record { stmt_at = λ env t. i.entitlements_at t _ }

  Keeps-insert_pro :
      (s : Source) (user : ℕ) (expires : Option ℕ) → StmtKeeps f (insert_pro s user expires)
  unfolding insert_pro
  Keeps-insert_pro s user expires = record {
    stmt_at = λ env t. i.drawn_at (record t { entitlements = _ }) _ ∙ i.entitlements_at t _;
  }

  ruleset rows = (keeps_rules, Keeps-revoke_pro, Keeps-insert_pro)

  pub Keeps-upsert_stripe_pro :
      (user : ℕ) (expires : Option ℕ) → Keeps f (upsert_stripe_pro user expires)
  unfolding upsert_stripe_pro
  Keeps-upsert_stripe_pro user expires = search rows

  pub Keeps-revoke_stripe_pro : (user : ℕ) → Keeps f (revoke_stripe_pro user)
  unfolding revoke_stripe_pro
  Keeps-revoke_stripe_pro user = search rows

  pub Keeps-upsert_apple_iap_pro :
      (user : ℕ) (expires : Option ℕ) → Keeps f (upsert_apple_iap_pro user expires)
  unfolding upsert_apple_iap_pro
  Keeps-upsert_apple_iap_pro user expires = search rows

  pub Keeps-revoke_apple_iap_pro : (user : ℕ) → Keeps f (revoke_apple_iap_pro user)
  unfolding revoke_apple_iap_pro
  Keeps-revoke_apple_iap_pro user = search rows

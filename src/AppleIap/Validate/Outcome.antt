-- ===== src/AppleIap/Validate/Outcome.antt =====
-- What a validation leaves behind.
use foreignreader_be.Base.{
  ℕ, ◌≡◌, ◌≢◌, refl, String, true, ◌||◌, Option, some, List, ◌∙◌, ◌+◌, inl, inr, Option-cases,
  trim_space, arith, false,
}
use foreignreader_be.Schema.{SubStatus, apple_iap, Entitlement, AppleSubscription, Tables}
use foreignreader_be.Db.{Error, ok, err, World, Result-cases, tx_query}
use foreignreader_be.Db.Inversion.{>>=-ok, transaction-ok}
use foreignreader_be.Db.Keeps.{StmtKeeps, Keeps-tx_query}
use foreignreader_be.Db.Atomic.{transaction-err}
use foreignreader_be.Entitlement.{product_pro, unexpired, holds_pro}
use foreignreader_be.Entitlement.Grants.{holds_beside, upsert_apple_iap_pro-holds_pro}
use foreignreader_be.AppleIap.{
  TransactionPayload, expires_at, decode_jws_payload, ensure_product_mapping, upsert_subscription,
}
use foreignreader_be.AppleIap.Validate.{
  Service, ValidateResult, choose_payload, payload_status, subscription_row, validated,
  switch_status, record_body, record_payload, validate_payload, validate_transaction,
}

abbrev entitlements : Tables → List Entitlement
entitlements t = t.entitlements

Keeps-ensure_product_mapping :
    (product code : String) → StmtKeeps entitlements (ensure_product_mapping product code)
unfolding ensure_product_mapping
Keeps-ensure_product_mapping product code = record { stmt_at = λ env t. ground arith }

Keeps-upsert_subscription :
    (row : AppleSubscription) → StmtKeeps entitlements (upsert_subscription row)
unfolding upsert_subscription
Keeps-upsert_subscription row = record { stmt_at = λ env t. ground arith }

-- The switch succeeds only for an active subscription, which it grants.
switch_status-ok :
    (status : SubStatus) (user : ℕ) (expires : Option ℕ) (at : ℕ) (w : World)
    → (switch_status status user expires w).0 ≡ ok tt
    → (status ≡ SubStatus.active)
      × (holds_pro at user (switch_status status user expires w).1.tables
          ≡ (unexpired at expires || holds_beside apple_iap at user w.tables))
switch_status-ok SubStatus.active user expires at w h =
    (refl, (upsert_apple_iap_pro-holds_pro user expires at user w h).0)
switch_status-ok SubStatus.expired user expires at w h = absurd (ground arith)
switch_status-ok SubStatus.revoked user expires at w h = absurd (ground arith)
switch_status-ok SubStatus.grace_period user expires at w h = absurd (ground arith)
switch_status-ok SubStatus.billing_retry user expires at w h = absurd (ground arith)

payload_status-active :
    (now : ℕ) (p : TransactionPayload)
    → payload_status now p ≡ SubStatus.active
    → unexpired now (expires_at p) ≡ true
unfolding payload_status
payload_status-active now p h = ground arith

module _ (svc : Service) (user : ℕ) where
  record_payload-err :
      (now : ℕ) (p : TransactionPayload) (w : World) (e : Error)
      → (record_payload svc user now p w).0 ≡ err e
      → (record_payload svc user now p w).1.tables ≡ w.tables
  unfolding record_payload
  record_payload-err now p w e h = transaction-err _ w h

  -- A validation that returns an error, whichever, leaves the tables as they were.
  pub validate_transaction-err :
      (id : String) (w : World) {e : Error}
      → (validate_transaction svc user id w).0 ≡ err e
      → (validate_transaction svc user id w).1.tables ≡ w.tables
  unfolding validate_transaction validate_payload
  validate_transaction-err id w {e} h =
      grind (arith, λ (p : TransactionPayload). record_payload-err w.env.now p w e)

  pub record_payload-ok :
      (now at : ℕ) (p : TransactionPayload) (w : World) {r : ValidateResult}
      → (record_payload svc user now p w).0 ≡ ok r
      → (payload_status now p ≡ SubStatus.active)
        × (r ≡ validated svc now p)
        × (holds_pro at user (record_payload svc user now p w).1.tables
            ≡ (unexpired at (expires_at p) || holds_beside apple_iap at user w.tables))
  unfolding record_payload
  record_payload-ok now at p w {r} h =
      let body = record_body svc user now p in
      let start = record w { calls = w.calls + 1; poisoned = false } in
      let (h0, tables) = transaction-ok body w h in
      let ensure = tx_query (ensure_product_mapping (trim_space p.product_id) product_pro) in
      let upsert = tx_query (upsert_subscription (subscription_row svc user now p)) in
      let (_, _, k1, h1) = >>=-ok ensure _ start h0 in
      let w1 = (ensure start).1 in
      let (_, _, k2, h2) = >>=-ok upsert _ w1 h1 in
      let w2 = (upsert w1).1 in
      let (_, e3, k3, h3) =
        >>=-ok (switch_status (payload_status now p) user (expires_at p)) _ w2 h2 in
      let kept : w2.tables.entitlements ≡ w.tables.entitlements =
        (Keeps-tx_query _ (Keeps-upsert_subscription _)).at w1
        ∙ (Keeps-tx_query _ (Keeps-ensure_product_mapping _ _)).at start in
      let (active, granted) =
        switch_status-ok (payload_status now p) user (expires_at p) at w2 e3 in
      (active, ground arith, rw (← tables, k1, k2, k3, granted, kept))

  record_payload-inactive :
      (now : ℕ) (p : TransactionPayload) (w : World)
      → payload_status now p ≢ SubStatus.active
      → (record_payload svc user now p w).1.tables ≡ w.tables
  record_payload-inactive now p w ne = elim (Result-cases (record_payload svc user now p w).0) [
    | inl (r, e) ↦ absurd (ne (record_payload-ok now now p w e).0)
    | inr (e, failed) ↦ record_payload-err now p w e failed
  ]

  -- A validation that succeeds found an active subscription that has not expired, and leaves the
  -- user with Pro access until the expiry that it returns, or as long as another source grants it.
  pub validate_transaction-holds_pro :
      (id : String) (at : ℕ) (w : World) {r : ValidateResult}
      → (validate_transaction svc user id w).0 ≡ ok r
      → (r.status ≡ SubStatus.active)
        × (unexpired w.env.now r.expires ≡ true)
        × (holds_pro at user (validate_transaction svc user id w).1.tables
            ≡ (unexpired at r.expires || holds_beside apple_iap at user w.tables))
  unfolding validate_transaction validate_payload
  validate_transaction-holds_pro id at w {r} h = elim (Option-cases (svc.transaction_info id)) [
    | inl nothing ↦ cc
    | inr (info, e) ↦ elim (Option-cases (decode_jws_payload svc.decode info)) [
      | inl undecoded ↦ cc
      | inr (direct, d) ↦
          let p = choose_payload svc direct in
          let lemma = λ (k : (record_payload svc user w.env.now p w).0 ≡ ok r).
            record_payload-ok w.env.now at p w k in
          (
            ground (arith, lemma),
            ground (arith, lemma, payload_status-active w.env.now p),
            ground (arith, lemma),
          )
    ]
  ]

  -- A validation whose chosen payload is revoked or expired changes nothing: the user keeps the Pro
  -- access that was granted before.
  pub validate_transaction-inactive :
      (id info : String) (direct : TransactionPayload) (at : ℕ) (w : World)
      → svc.transaction_info id ≡ some info
      → decode_jws_payload svc.decode info ≡ some direct
      → payload_status w.env.now (choose_payload svc direct) ≢ SubStatus.active
      → let w' = (validate_transaction svc user id w).1 in
        (w'.tables ≡ w.tables) × (holds_pro at user w'.tables ≡ holds_pro at user w.tables)
  unfolding validate_transaction validate_payload
  validate_transaction-inactive id info direct at w hi hd ne =
      let same = record_payload-inactive w.env.now (choose_payload svc direct) w ne in
      (ground (arith, same), ground (arith, same))

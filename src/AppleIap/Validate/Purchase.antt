-- ===== src/AppleIap/Validate/Purchase.antt =====
-- Which purchase of Apple's a validation that succeeds was about.
use mathlib.Core.List.{flatten}
use foreignreader_be.Base.{
  ℕ, ◌+◌, ◌*◌, ◌≡◌, refl, ◌⊎◌, inl, inr, String, str_eq, Bool, true, false, ◌&&◌, not, Bool-cases,
  Option, none, some, Option-cases, if◌then◌else◌, is_positive, to_ℕ, trim_space, is_empty, arith,
}
use foreignreader_be.Schema.{SubStatus}
use foreignreader_be.Db.{ok, World}
use foreignreader_be.AppleIap.{
  TransactionPayload, StatusResponse, decode_jws_payload, expires_at, unix_milli,
  best_pro_transaction_payload,
}
use foreignreader_be.AppleIap.Best.{IsBest, best_pro_transaction_payload-IsBest}
use foreignreader_be.AppleIap.Validate.{
  Service, ValidateResult, or_direct, latest_payload, choose_payload, payload_status,
  record_payload, validate_payload, validate_transaction,
}
use foreignreader_be.AppleIap.Validate.Outcome.{record_payload-ok}

-- The transaction continues an earlier one, which it names.
abbrev pub is_renewal : TransactionPayload → Bool
is_renewal p =
    not (is_empty (trim_space p.original_transaction_id))
    && not (str_eq (trim_space p.transaction_id) (trim_space p.original_transaction_id))

abbrev pub PutFirst : Option TransactionPayload → TransactionPayload → TransactionPayload → Type 0
PutFirst none direct p = p ≡ direct
PutFirst (some best) direct p = p ≡ best

-- The transaction is a best one of the product that Apple's statuses offer, or else the direct one.
abbrev pub IsNewest :
    Service → Option StatusResponse → TransactionPayload → TransactionPayload → Type 0
IsNewest svc none direct p = p ≡ direct
IsNewest svc (some response) direct p =
    (o : Option TransactionPayload) × IsBest svc.decode (trim_space svc.product) (flatten response)
      o
    × PutFirst o direct p

-- The transaction that counts: a first purchase itself, of a renewal the newest of its line.
abbrev pub Counts : Service → TransactionPayload → TransactionPayload → Type 0
Counts svc direct p =
    ((is_renewal direct ≡ false) × (p ≡ direct))
    ⊎ ((is_renewal direct ≡ true)
        × IsNewest svc (svc.subscription_statuses direct.original_transaction_id) direct p)

-- The end of the transaction; Apple gives it in milliseconds since 1970, or as 0.
abbrev pub end_of : TransactionPayload → Option ℕ
end_of p =
    if is_positive p.expires_date
    then some ((62_135_596_800_000 + to_ℕ p.expires_date) * 1_000_000)
    else none

-- Apple told for the id, by way of `direct`, the transaction `p`, which is of the configured product
-- and has not been revoked.
pub record IsPurchase (svc : Service) (id : String) (p : TransactionPayload) : Type 0 where
  pub info : String
  pub direct : TransactionPayload
  pub told : svc.transaction_info id ≡ some info
  pub decoded : decode_jws_payload svc.decode info ≡ some direct
  pub counts : Counts svc direct p
  pub of_product : str_eq (trim_space p.product_id) svc.product ≡ true
  pub not_revoked : is_positive p.revocation_date ≡ false

latest_payload-IsNewest :
    (svc : Service) (direct : TransactionPayload) (o : Option StatusResponse)
    → IsNewest svc o direct (latest_payload svc direct o)
latest_payload-IsNewest svc direct none = refl
latest_payload-IsNewest svc direct (some response) =
    let o = best_pro_transaction_payload svc.decode response svc.product in
    (o, best_pro_transaction_payload-IsBest svc.decode response svc.product, or_direct-PutFirst o)
  where
    or_direct-PutFirst : (o : Option TransactionPayload) → PutFirst o direct (or_direct direct o)
    or_direct-PutFirst none = refl
    or_direct-PutFirst (some best) = refl

choose_payload-Counts :
    (svc : Service) (direct : TransactionPayload) → Counts svc direct (choose_payload svc direct)
unfolding choose_payload
choose_payload-Counts svc direct =
    elim (Bool-cases (is_empty (trim_space direct.original_transaction_id))) [
      | inl none_named ↦ inl (ground arith, ground arith)
      | inr named ↦
          elim (Bool-cases (
            str_eq (trim_space direct.transaction_id)
              (trim_space direct.original_transaction_id))) [
                | inl first ↦ inl (ground arith, ground arith)
                | inr later ↦
                    rw (named, later)
                      (inr (
                        refl,
                        latest_payload-IsNewest svc direct
                            (svc.subscription_statuses direct.original_transaction_id),
                      ))
              ]
    ]

payload_status-not_revoked :
    (now : ℕ) (p : TransactionPayload)
    → payload_status now p ≡ SubStatus.active
    → is_positive p.revocation_date ≡ false
unfolding payload_status
payload_status-not_revoked now p h = ground arith

expires_at-end_of : (p : TransactionPayload) → expires_at p ≡ end_of p
unfolding expires_at unix_milli
expires_at-end_of p = ground arith

module _ (svc : Service) (user : ℕ) where
  validate_payload-ok :
      (p : TransactionPayload) (w : World) {r : ValidateResult}
      → (validate_payload svc user p w).0 ≡ ok r
      → (str_eq (trim_space p.product_id) svc.product ≡ true)
        × ((record_payload svc user w.env.now p w).0 ≡ ok r)
  unfolding validate_payload
  validate_payload-ok p w h = (ground arith, ground arith)

  -- A validation that succeeds was about a transaction that Apple told for the id, of the configured
  -- product and not revoked, and answers with its end.
  pub validate_transaction-IsPurchase :
      (id : String) (w : World) {r : ValidateResult}
      → (validate_transaction svc user id w).0 ≡ ok r
      → (p : TransactionPayload) × IsPurchase svc id p × (r.expires ≡ end_of p)
  unfolding validate_transaction
  validate_transaction-IsPurchase id w {r} h = elim (Option-cases (svc.transaction_info id)) [
    | inl nothing ↦ cc
    | inr (info, told) ↦ elim (Option-cases (decode_jws_payload svc.decode info)) [
      | inl undecoded ↦ cc
      | inr (direct, decoded) ↦
          let p = choose_payload svc direct in
          let (of_product, recorded) = validate_payload-ok p w (rw (told, decoded) at h) in
          let (active, answer, _) = record_payload-ok svc user w.env.now 0 p w recorded in
          (
            p,
            record {
              info = info;
              direct = direct;
              told = told;
              decoded = decoded;
              counts = choose_payload-Counts svc direct;
              of_product = of_product;
              not_revoked = payload_status-not_revoked w.env.now p active;
            },
            ground (arith, answer, expires_at-end_of p),
          )
    ]
  ]

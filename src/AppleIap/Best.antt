-- ===== src/AppleIap/Best.antt =====
-- The loops of BestProTransactionPayload over the entries of a response.
use mathlib.Core.List.{flatten}
use mathlib.Core.Path.{subst}
use foreignreader_be.Base.{
  ◌≡◌, refl, sym, ◌∙◌, ap, String, str_eq, true, ◌⊎◌, inl, inr, List, [], ◌∷◌, ◌++◌, Option, none,
  some, Option-cases, Bool-cases, if◌then◌else◌, arith, All, ℤ, negsuc, ltb_ℤ, ◌≤ℤ◌, trim_space,
  is_empty,
}
use foreignreader_be.AppleIap.{
  TransactionPayload, decode_jws_payload, StatusResponse, Best, visit, visit_group, visit_groups,
  best_pro_transaction_payload,
}

ltb_ℤ_trans : (a b c : ℤ) → a ≤ℤ b → ltb_ℤ b c ≡ true → ltb_ℤ a c ≡ true
ltb_ℤ_trans a b c h k = ground arith

module _ (decode : String → Option TransactionPayload) (product : String) where
  abbrev matching : Option TransactionPayload → Option TransactionPayload
  matching none = none
  matching (some p) = if str_eq (trim_space p.product_id) product then some p else none

  -- The transaction that an entry offers: it decodes, and is of the product.
  abbrev pub offer : String → Option TransactionPayload
  offer info =
      if is_empty (trim_space info) then none else matching (decode_jws_payload decode info)

  abbrev pub Offered : TransactionPayload → List String → Type 0
  Offered p [] = ⊥
  Offered p (info ∷ infos) = (offer info ≡ some p) ⊎ Offered p infos

  -- No entry offers a transaction that expires after `e`.
  abbrev pub Bounded : ℤ → List String → Type 0
  Bounded e infos =
      All (λ info. (p : TransactionPayload) → offer info ≡ some p → p.expires_date ≤ℤ e) infos

  visit-le : (info : String) (b : Best) → b.1 ≤ℤ (visit decode product info b).1
  unfolding visit
  visit-le info b = ground arith

  visit-Bounded :
      (info : String) (b : Best) (p : TransactionPayload)
      → offer info ≡ some p
      → p.expires_date ≤ℤ (visit decode product info b).1
  unfolding visit
  visit-Bounded info b p h = ground arith

  visit-origin :
      (info : String) (b : Best)
      → (visit decode product info b ≡ b)
        ⊎ ((p : TransactionPayload) × (offer info ≡ some p)
            × (visit decode product info b ≡ (some p, p.expires_date))
            × (ltb_ℤ b.1 p.expires_date ≡ true))
  unfolding visit
  visit-origin info b = elim (Option-cases (offer info)) [
    | inl nothing ↦ inl (ground arith)
    | inr (p, offered) ↦ elim (Bool-cases (ltb_ℤ b.1 p.expires_date)) [
      | inl newer ↦ inr (p, offered, ground arith, newer)
      | inr older ↦ inl (ground arith)
    ]
  ]

  -- From a best `b`, the loop ends with `b` or with an entry, and with a bound on all entries.
  abbrev Ends : Best → List String → Best → Type 0
  Ends b infos b' =
      Bounded b'.1 infos
      × (b.1 ≤ℤ b'.1)
      × ((b' ≡ b)
          ⊎ ((p : TransactionPayload) × Offered p infos
              × (b' ≡ (some p, p.expires_date))
              × (ltb_ℤ b.1 p.expires_date ≡ true)))

  visit_group-Ends :
      (infos : List String) (b : Best) → Ends b infos (visit_group decode product infos b)
  unfolding visit_group
  visit_group-Ends [] b = (tt, omega arith, inl refl)
  visit_group-Ends (info ∷ infos) b =
      let b1 = visit decode product info b in
      let (bounded, le, origin) = visit_group-Ends infos b1 in
      let le1 = visit-le info b in
      (
        ((λ p offered. omega (arith, visit-Bounded info b p offered, le)), bounded),
        omega (arith, le, le1),
        elim origin [
          | inl e ↦ elim (visit-origin info b) [
            | inl e1 ↦ inl (e ∙ e1)
            | inr (p, offered, e1, lt) ↦ inr (p, inl offered, e ∙ e1, lt)
          ]
          | inr (p, offered, e, lt) ↦
              inr (p, inr offered, e, ltb_ℤ_trans b.1 b1.1 p.expires_date le1 lt)
        ],
      )

  visit_group-append :
      (xs ys : List String) (b : Best)
      → visit_group decode product (xs ++ ys) b
        ≡ visit_group decode product ys (visit_group decode product xs b)
  unfolding visit_group
  visit_group-append [] ys b = refl
  visit_group-append (x ∷ xs) ys b = visit_group-append xs ys (visit decode product x b)

  visit_groups-flatten :
      (gs : StatusResponse) (b : Best)
      → visit_groups decode product gs b ≡ visit_group decode product (flatten gs) b
  unfolding visit_groups visit_group flatten
  visit_groups-flatten [] b = refl
  visit_groups-flatten (g ∷ gs) b =
      visit_groups-flatten gs (visit_group decode product g b)
      ∙ sym (visit_group-append g (flatten gs) b)

-- What it means that a choice is a best one among the entries.
abbrev pub IsBest :
    (String → Option TransactionPayload) → String → List String → Option TransactionPayload → Type 0
IsBest decode product infos none = Bounded decode product (negsuc 0) infos
IsBest decode product infos (some p) =
    Offered decode product p infos
    × Bounded decode product p.expires_date infos
    × (ltb_ℤ (negsuc 0) p.expires_date ≡ true)

Ends-IsBest :
    (decode : String → Option TransactionPayload) (product : String) (infos : List String)
    (b : Best)
    → Bounded decode product b.1 infos
    → (b ≡ (none, negsuc 0))
      ⊎ ((p : TransactionPayload) × Offered decode product p infos
          × (b ≡ (some p, p.expires_date))
          × (ltb_ℤ (negsuc 0) p.expires_date ≡ true))
    → IsBest decode product infos b.0
Ends-IsBest decode product infos (none, e) bounded (inl same) = rw (ap (λ b. b.1) same) at bounded
Ends-IsBest decode product infos (some p, e) bounded (inl same) = cc
Ends-IsBest decode product infos (none, e) bounded (inr (q, _, same, _)) = cc
Ends-IsBest decode product infos (some p, e) bounded (inr (q, offered, same, lt)) =
    let p_eq : p ≡ q = cc in rw p_eq (offered, (rw (ap (λ b. b.1) same) at bounded), lt)

-- What BestProTransactionPayload chooses is a transaction that the response offers for the product
-- (trimmed), that expires no earlier than any other that is offered, and not before 1970; it chooses
-- none only if every one that is offered expires before 1970.
pub best_pro_transaction_payload-IsBest :
    (decode : String → Option TransactionPayload) (response : StatusResponse) (product : String)
    → IsBest decode
        (trim_space product)
        (flatten response)
        (best_pro_transaction_payload decode response product)
unfolding best_pro_transaction_payload
best_pro_transaction_payload-IsBest decode response product =
    let q = trim_space product in
    let infos = flatten response in
    let (bounded, _, origin) = visit_group-Ends decode q infos (none, negsuc 0) in
    subst (λ (b : Best). IsBest decode q infos b.0) (sym (visit_groups-flatten decode q response _))
      (Ends-IsBest decode q infos _ bounded origin)

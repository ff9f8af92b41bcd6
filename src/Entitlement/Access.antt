-- ===== src/Entitlement/Access.antt =====
-- HasActivePro and ActiveProAccess of internal/entitlement/store.go, against the rows they read.
use foreignreader_be.Base.{
  ℕ, ◌≤◌, ◌≡◌, refl, Bool, true, false, ◌⊎◌, inl, inr, List, [], ◌∷◌, Option, none, some, arith,
  any, select, All, leb, if◌then◌else◌, Bool-cases,
}
use foreignreader_be.Schema.{Source, Entitlement}
use foreignreader_be.Db.{ok, World, query}
use foreignreader_be.Entitlement.{
  grants_pro, insert_newest, newest_first, head?, access_of, has_active_pro, active_pro_access,
}

abbrev pub Has : Entitlement → List Entitlement → Type 0
Has e [] = ⊥
Has e (x ∷ xs) = (e ≡ x) ⊎ Has e xs

-- `o` is a row of `es` that passes `p` and is as new as any such row; there is none only if no row
-- passes.
abbrev pub IsNewest : (Entitlement → Bool) → List Entitlement → Option Entitlement → Type 0
IsNewest p es none = any p es ≡ false
IsNewest p es (some e) =
    Has e es × (p e ≡ true) × All (λ x. p x ≡ true → x.created_at ≤ e.created_at) es

pick : Entitlement → Option Entitlement → Option Entitlement
pick e none = some e
pick e (some x) = if leb x.created_at e.created_at then some e else some x

head?-insert_newest :
    (e : Entitlement) (es : List Entitlement) → head? (insert_newest e es) ≡ pick e (head? es)
unfolding insert_newest pick
head?-insert_newest e [] = refl
head?-insert_newest e (x ∷ xs) = ground arith

All-le :
    (p : Entitlement → Bool) (m n : ℕ) (es : List Entitlement)
    → m ≤ n
    → All (λ x. p x ≡ true → x.created_at ≤ m) es
    → All (λ x. p x ≡ true → x.created_at ≤ n) es
All-le p m n [] h all = tt
All-le p m n (x ∷ xs) h all = (λ px. omega (arith, all.0 px), All-le p m n xs h all.1)

All-none :
    (p : Entitlement → Bool) (n : ℕ) (es : List Entitlement)
    → any p es ≡ false
    → All (λ x. p x ≡ true → x.created_at ≤ n) es
All-none p n [] h = tt
All-none p n (x ∷ xs) h = (λ px. absurd (ground arith), All-none p n xs (ground arith))

pick-IsNewest :
    (p : Entitlement → Bool) (x : Entitlement) (xs : List Entitlement) (o : Option Entitlement)
    → p x ≡ true
    → IsNewest p xs o
    → IsNewest p (x ∷ xs) (pick x o)
unfolding pick
pick-IsNewest p x xs none px h = (inl refl, px, ((λ _. omega arith), All-none p x.created_at xs h))
pick-IsNewest p x xs (some e) px (has, pe, all) =
    elim (Bool-cases (leb e.created_at x.created_at)) [
      | inl newer ↦ rw newer (
        inl refl,
        px,
        ((λ _. omega arith), All-le p e.created_at x.created_at xs (ground arith) all),
      )
      | inr older ↦ rw older (inr has, pe, ((λ _. ground arith), all))
    ]

skip-IsNewest :
    (p : Entitlement → Bool) (x : Entitlement) (xs : List Entitlement) (o : Option Entitlement)
    → p x ≡ false
    → IsNewest p xs o
    → IsNewest p (x ∷ xs) o
skip-IsNewest p x xs none px h = ground arith
skip-IsNewest p x xs (some e) px (has, pe, all) = (inr has, pe, ((λ h. absurd (ground arith)), all))

newest_first-IsNewest :
    (p : Entitlement → Bool) (es : List Entitlement)
    → IsNewest p es (head? (newest_first (select p es)))
unfolding newest_first
newest_first-IsNewest p [] = refl
newest_first-IsNewest p (x ∷ xs) = elim (Bool-cases (p x)) [
  | inl px ↦
      rw (px, head?-insert_newest)
        (pick-IsNewest p x xs (head? (newest_first (select p xs))) px (newest_first-IsNewest p xs))
  | inr px ↦
      rw px
        (skip-IsNewest p x xs (head? (newest_first (select p xs))) px (newest_first-IsNewest p xs))
]

abbrev pub is_some : Option Entitlement → Bool
is_some none = false
is_some (some e) = true

any-is_some :
    (p : Entitlement → Bool) (es : List Entitlement) (o : Option Entitlement)
    → IsNewest p es o
    → any p es ≡ is_some o
any-is_some p es none h = h
any-is_some p es (some e) (has, pe, _) = Has-any es has
  where
    Has-any : (es : List Entitlement) → Has e es → any p es ≡ true
    Has-any [] h = absurd h
    Has-any (x ∷ xs) (inl same) = ground arith
    Has-any (x ∷ xs) (inr later) = ground (arith, Has-any xs later)

-- What ActiveProAccess returns is the source and expiry of a newest row that grants the user Pro,
-- and HasActivePro, asked at the same moment, says whether there is such a row.
pub active_pro_access-IsNewest :
    (user : ℕ) (w : World) {o : Option (Source × Option ℕ)} {b : Bool}
    → (active_pro_access user w).0 ≡ ok o
    → (has_active_pro user w).0 ≡ ok b
    → (e : Option Entitlement) × IsNewest (grants_pro w.env.now user) w.tables.entitlements e
      × (o ≡ access_of e)
      × (b ≡ is_some e)
unfolding active_pro_access has_active_pro query
active_pro_access-IsNewest user w h k =
    let p = grants_pro w.env.now user in
    let es = w.tables.entitlements in
    let e : Option Entitlement = head? (newest_first (select p es)) in
    let newest : IsNewest p es e = newest_first-IsNewest p es in
    (e, newest, ground arith, ground (arith, any-is_some p es e newest))

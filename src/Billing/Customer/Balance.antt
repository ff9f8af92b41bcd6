-- ===== src/Billing/Customer/Balance.antt =====
-- Each customer that Stripe has is held by a request or named by the row.
use foreignreader_be.Base.{
  ℕ, suc, ◌+◌, ◌≤◌, ◌≡◌, Bool, true, false, not, List, [], ◌∷◌, Option, none, some, ◌==◌,
  if◌then◌else◌, arith, select, count,
}
use foreignreader_be.Billing.Customer.{
  Place, selecting, creating, inserting, reselecting, deleting, finished, Shared, step, step_at,
}

-- `row` names the customer, as a number.
abbrev pub named : ℕ → Option ℕ → ℕ
named n none = 0
named n (some c) = if c == n then 1 else 0

-- The request has made the customer and not yet stored or deleted it.
abbrev pub holds : ℕ → Place → ℕ
holds n (inserting id) = if id == n then 1 else 0
holds n (reselecting id) = if id == n then 1 else 0
holds n (deleting id e) = if id == n then 1 else 0
holds n _ = 0

abbrev pub holders : ℕ → List Place → ℕ
holders n [] = 0
holders n (p ∷ ps) = holds n p + holders n ps

abbrev pub copies : ℕ → Shared → ℕ
copies n s = count (λ c. c == n) s.customers

-- The call is not a deletion that fails.
abbrev pub cleans_up : Bool → Place → Bool
cleans_up works (deleting id e) = works
cleans_up works _ = true

-- Of each number there is at most one customer, and none of the numbers to come.
pub record IsTidy (s : Shared) : Type 0 where
  pub once : (n : ℕ) → copies n s ≤ 1
  pub none_yet : (n : ℕ) → s.made ≤ n → copies n s ≡ 0

count-deleted :
    (n id : ℕ) (cs : List ℕ)
    → count (λ c. c == n) (select (λ c. not (c == id)) cs)
      ≡ (if id == n then 0 else count (λ c. c == n) cs)
count-deleted n id [] = ground arith
count-deleted n id (c ∷ cs) = ground (arith, count-deleted n id cs)

-- A call moves a customer between its holder, the row and Stripe.
step-balance :
    (n : ℕ) (works : Bool) (p : Place) (s : Shared)
    → IsTidy s
    → cleans_up works p ≡ true
    → holds n p ≤ copies n s
    → holds n (step works p s).0 + named n (step works p s).1.row + copies n s
      ≡ holds n p + named n s.row + copies n (step works p s).1
unfolding step
step-balance n works selecting s t c h = ground arith
step-balance n works creating s t c h = ground arith
step-balance n works (inserting id) s t c h = ground arith
step-balance n works (reselecting id) s t c h = ground arith
step-balance n works (deleting id e) s t c h =
    ground (arith, count-deleted n id s.customers, t.once n)
step-balance n works (finished e) s t c h = ground arith

step-IsTidy : (works : Bool) (p : Place) (s : Shared) → IsTidy s → IsTidy (step works p s).1
unfolding step
step-IsTidy works selecting s t = t
step-IsTidy true creating s t = record {
  once = λ n. ground (arith, t.once n, t.none_yet n);
  none_yet = λ n h. ground (arith, t.none_yet n);
}
step-IsTidy false creating s t = t
step-IsTidy works (inserting id) s t = record {
  once = λ n. ground (arith, t.once n);
  none_yet = λ n h. ground (arith, t.none_yet n);
}
step-IsTidy works (reselecting id) s t = t
step-IsTidy works (deleting id e) s t = record {
  once = λ n. ground (arith, t.once n, count-deleted n id s.customers);
  none_yet = λ n h. ground (arith, t.none_yet n, count-deleted n id s.customers);
}
step-IsTidy works (finished e) s t = t

-- The call that the schedule lets happen is not a deletion that fails.
abbrev pub cleans_up_at : ℕ → Bool → List Place → Bool
cleans_up_at i works [] = true
cleans_up_at ℕ.zero works (p ∷ ps) = cleans_up works p
cleans_up_at (suc i) works (p ∷ ps) = cleans_up_at i works ps

step_at-balance :
    (n i : ℕ) (works : Bool) (ps : List Place) (s : Shared)
    → IsTidy s
    → cleans_up_at i works ps ≡ true
    → holders n ps ≤ copies n s
    → holders n (step_at i works ps s).0 + named n (step_at i works ps s).1.row + copies n s
      ≡ holders n ps + named n s.row + copies n (step_at i works ps s).1
unfolding step_at
step_at-balance n i works [] s t c h = ground arith
step_at-balance n ℕ.zero works (p ∷ ps) s t c h =
    let b = step-balance n works p s t c (omega arith) in omega arith
step_at-balance n (suc i) works (p ∷ ps) s t c h =
    let b = step_at-balance n i works ps s t c (omega arith) in omega arith

pub step_at-IsTidy :
    (i : ℕ) (works : Bool) (ps : List Place) (s : Shared)
    → IsTidy s
    → IsTidy (step_at i works ps s).1
unfolding step_at
step_at-IsTidy i works [] s t = t
step_at-IsTidy ℕ.zero works (p ∷ ps) s t = step-IsTidy works p s t
step_at-IsTidy (suc i) works (p ∷ ps) s t = step_at-IsTidy i works ps s t

-- The invariant: a customer is held by one request, or named by the row, or not there.
pub record IsBalanced (ps : List Place) (s : Shared) : Type 0 where
  pub tidy : IsTidy s
  pub owned : (n : ℕ) → holders n ps + named n s.row ≡ copies n s

pub step_at-IsBalanced :
    (i : ℕ) (works : Bool) (ps : List Place) (s : Shared)
    → IsBalanced ps s
    → cleans_up_at i works ps ≡ true
    → IsBalanced (step_at i works ps s).0 (step_at i works ps s).1
step_at-IsBalanced i works ps s b c = record {
  tidy = step_at-IsTidy i works ps s b.tidy;
  owned = λ n.
      let o = b.owned n in
      let e = step_at-balance n i works ps s b.tidy c (omega arith) in omega arith;
}

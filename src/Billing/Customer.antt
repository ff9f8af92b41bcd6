-- ===== src/Billing/Customer.antt =====
-- internal/billing/customer.go: the Stripe customer of a user. EnsureStripeCustomerID talks to the
-- database and to Stripe in turn, and requests of one user may run at the same time, so it is a
-- machine that makes one call at a step. Customers are numbered in the order in which Stripe makes
-- them, and a number stands for its id.
pub mod Balance
pub mod Race
pub mod Finish
pub mod Succeed
use foreignreader_be.Base.{
  ℕ, suc, ◌+◌, Bool, true, false, ◌&&◌, not, List, [], ◌∷◌, Option, none, some, ◌==◌, if◌then◌else◌,
  select,
}

-- What a request returns: the customer, and whether it is new; or one of the errors.
pub data Ensured : Type 0 where
  returned : ℕ → Bool → Ensured
  lookup_failed create_failed insert_failed reselect_failed missing_after_conflict : Ensured

-- The call that a request makes next. `deleting` is the clean-up, after which it returns.
pub data Place : Type 0 where
  selecting creating : Place
  inserting reselecting : ℕ → Place
  deleting : ℕ → Ensured → Place
  finished : Ensured → Place

-- The row of the user in `stripe_customers`, the customers that Stripe has, and how many it has made.
pub record Shared : Type 0 where
  pub row : Option ℕ
  pub customers : List ℕ
  pub made : ℕ

abbrev selected : Option ℕ → Place
selected none = creating
selected (some c) = finished (returned c false)

abbrev pub inserted : ℕ → Shared → Option ℕ → Place × Shared
inserted id s none = (finished (returned id true), record s { row = some id })
inserted id s (some c) = (reselecting id, s)

abbrev reselected : ℕ → Option ℕ → Place
reselected id none = deleting id missing_after_conflict
reselected id (some c) = deleting id (returned c false)

-- A call of EnsureStripeCustomerID; `works` says whether it succeeds. The error of the last call,
-- which deletes a customer, is only logged.
unfoldable pub step : Bool → Place → Shared → Place × Shared
step works selecting s = (if works then selected s.row else finished lookup_failed, s)
step works creating s =
    if works
    then (inserting s.made, record s { customers = s.made ∷ s.customers; made = s.made + 1 })
    else (finished create_failed, s)
step works (inserting id) s = if works then inserted id s s.row else (deleting id insert_failed, s)
step works (reselecting id) s =
    (if works then reselected id s.row else deleting id reselect_failed, s)
step works (deleting id e) s = (
  finished e,
  if works then record s { customers = select (λ c. not (c == id)) s.customers } else s,
)
step works (finished e) s = (finished e, s)

-- The request at place `i` makes a call, between the calls of the others.
unfoldable pub step_at : ℕ → Bool → List Place → Shared → List Place × Shared
unfolding step
step_at i works [] s = ([], s)
step_at ℕ.zero works (p ∷ ps) s = ((step works p s).0 ∷ ps, (step works p s).1)
step_at (suc i) works (p ∷ ps) s = let (ps', s') = step_at i works ps s in (p ∷ ps', s')

-- The requests, by any schedule.
unfoldable pub run : List (ℕ × Bool) → List Place → Shared → List Place × Shared
unfolding step_at
run [] ps s = (ps, s)
run ((i, works) ∷ events) ps s = let (ps', s') = step_at i works ps s in run events ps' s'

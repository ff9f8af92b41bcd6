-- ===== src/Billing/Customer/Race.antt =====
-- Any number of requests of one user at the same time.
use foreignreader_be.Base.{
  ℕ, suc, ◌+◌, ◌≡◌, refl, Bool, true, false, ◌&&◌, List, [], ◌∷◌, Option, none, ◌==◌, arith, all,
}
use foreignreader_be.Billing.Customer.{
  returned, Place, selecting, creating, inserting, reselecting, deleting, finished, Shared, step,
  step_at, run,
}
use foreignreader_be.Billing.Customer.Balance.{
  named, holders, copies, cleans_up_at, IsBalanced, step_at-IsBalanced,
}

-- Before the first request.
abbrev pub nobody : Shared
nobody = record { row = none; customers = []; made = 0 }

-- So many requests that begin.
abbrev pub requests : ℕ → List Place
requests ℕ.zero = []
requests (suc k) = selecting ∷ requests k

abbrev pub is_finished : Place → Bool
is_finished (finished e) = true
is_finished _ = false

-- The customer that the request returns, or is to return, is the row's.
abbrev pub returns_row : Option ℕ → Place → Bool
returns_row row (finished (returned c b)) = named c row == 1
returns_row row (deleting id (returned c b)) = named c row == 1
returns_row row _ = true

-- No deletion of the schedule fails.
abbrev pub deletions_work : List (ℕ × Bool) → List Place → Shared → Bool
deletions_work [] ps s = true
deletions_work ((i, works) ∷ events) ps s =
    let (ps', s') = step_at i works ps s in cleans_up_at i works ps && deletions_work events ps' s'

nobody-IsBalanced : (k : ℕ) → IsBalanced (requests k) nobody
nobody-IsBalanced k = record {
  tidy = record { once = λ n. omega arith; none_yet = λ n h. refl };
  owned = λ n. empty n k;
}
  where
    empty : (n k : ℕ) → holders n (requests k) + 0 ≡ 0
    empty n ℕ.zero = refl
    empty n (suc k) = let rest = empty n k in omega arith

run-IsBalanced :
    (events : List (ℕ × Bool)) (ps : List Place) (s : Shared)
    → IsBalanced ps s
    → deletions_work events ps s ≡ true
    → IsBalanced (run events ps s).0 (run events ps s).1
unfolding run
run-IsBalanced [] ps s b h = b
run-IsBalanced ((i, works) ∷ events) ps s b h =
    let (ps', s') = step_at i works ps s in
    run-IsBalanced events ps' s' (step_at-IsBalanced i works ps s b (ground arith)) (ground arith)

returns_row_mono :
    (row row' : Option ℕ) (p : Place)
    → ((c : ℕ) → named c row ≡ 1 → named c row' ≡ 1)
    → returns_row row p ≡ true
    → returns_row row' p ≡ true
returns_row_mono row row' selecting keeps h = refl
returns_row_mono row row' creating keeps h = refl
returns_row_mono row row' (inserting id) keeps h = refl
returns_row_mono row row' (reselecting id) keeps h = refl
returns_row_mono row row' (finished (returned c b)) keeps h = ground (arith, keeps c)
returns_row_mono row row' (deleting id (returned c b)) keeps h = ground (arith, keeps c)
returns_row_mono row row' (finished e) keeps h = ground arith
returns_row_mono row row' (deleting id e) keeps h = ground arith

step-returns_row :
    (works : Bool) (p : Place) (s : Shared)
    → returns_row s.row p ≡ true
    → (returns_row (step works p s).1.row (step works p s).0 ≡ true)
      × ((c : ℕ) → named c s.row ≡ 1 → named c (step works p s).1.row ≡ 1)
unfolding step
step-returns_row works selecting s h = (ground arith, λ c k. k)
step-returns_row works creating s h = (ground arith, λ c k. ground arith)
step-returns_row works (inserting id) s h = (ground arith, λ c k. ground arith)
step-returns_row works (reselecting id) s h = (ground arith, λ c k. k)
step-returns_row works (deleting id e) s h = (ground arith, λ c k. ground arith)
step-returns_row works (finished e) s h = (h, λ c k. k)

all_mono :
    (row row' : Option ℕ) (ps : List Place)
    → ((c : ℕ) → named c row ≡ 1 → named c row' ≡ 1)
    → all (returns_row row) ps ≡ true
    → all (returns_row row') ps ≡ true
all_mono row row' [] keeps h = refl
all_mono row row' (p ∷ ps) keeps h =
    ground (arith, returns_row_mono row row' p keeps, all_mono row row' ps keeps)

step_at-returns_row :
    (i : ℕ) (works : Bool) (ps : List Place) (s : Shared)
    → all (returns_row s.row) ps ≡ true
    → (all (returns_row (step_at i works ps s).1.row) (step_at i works ps s).0 ≡ true)
      × ((c : ℕ) → named c s.row ≡ 1 → named c (step_at i works ps s).1.row ≡ 1)
unfolding step_at
step_at-returns_row i works [] s h = (refl, λ c k. k)
step_at-returns_row ℕ.zero works (p ∷ ps) s h =
    let (here, keeps) = step-returns_row works p s (ground arith) in
    (ground (arith, all_mono s.row (step works p s).1.row ps keeps), keeps)
step_at-returns_row (suc i) works (p ∷ ps) s h =
    let (rest, keeps) = step_at-returns_row i works ps s (ground arith) in
    (ground (arith, returns_row_mono s.row (step_at i works ps s).1.row p keeps), keeps)

run-returns_row :
    (events : List (ℕ × Bool)) (ps : List Place) (s : Shared)
    → all (returns_row s.row) ps ≡ true
    → all (returns_row (run events ps s).1.row) (run events ps s).0 ≡ true
unfolding run
run-returns_row [] ps s h = h
run-returns_row ((i, works) ∷ events) ps s h =
    let (ps', s') = step_at i works ps s in
    run-returns_row events ps' s' (step_at-returns_row i works ps s h).0

requests-returns_row : (k : ℕ) → all (returns_row none) (requests k) ≡ true
requests-returns_row ℕ.zero = refl
requests-returns_row (suc k) = requests-returns_row k

finished_none : (n : ℕ) (ps : List Place) → all is_finished ps ≡ true → holders n ps ≡ 0
finished_none n [] h = refl
finished_none n (finished e ∷ ps) h = let rest = finished_none n ps h in omega arith
finished_none n (selecting ∷ ps) h = cc
finished_none n (creating ∷ ps) h = cc
finished_none n (inserting id ∷ ps) h = cc
finished_none n (reselecting id ∷ ps) h = cc
finished_none n (deleting id e ∷ ps) h = cc

-- However the calls of any number of first requests of a user are interleaved, and whichever fail
-- except deletions: when all requests have finished, the customer that the row names is the
-- only one that Stripe has, with no row there is none, and every request that returned a customer
-- returned the row's.
pub run-one_customer :
    (k : ℕ) (events : List (ℕ × Bool))
    → deletions_work events (requests k) nobody ≡ true
    → all is_finished (run events (requests k) nobody).0 ≡ true
    → let (ps, s) = run events (requests k) nobody in
      ((n : ℕ) → copies n s ≡ named n s.row) × (all (returns_row s.row) ps ≡ true)
run-one_customer k events work done =
    let (ps, s) = run events (requests k) nobody in
    let b = run-IsBalanced events (requests k) nobody (nobody-IsBalanced k) work in
    (
      (λ n. let o = b.owned n in let f = finished_none n ps done in omega arith),
      run-returns_row events (requests k) nobody (requests-returns_row k),
    )

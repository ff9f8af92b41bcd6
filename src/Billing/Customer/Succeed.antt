-- ===== src/Billing/Customer/Succeed.antt =====
-- What every request gets when no call fails.
use foreignreader_be.Base.{
  ℕ, suc, ◌≤◌, ◌<◌, ◌≡◌, refl, Bool, true, false, ◌&&◌, List, [], ◌∷◌, ◌==◌, Option, none, some,
  if◌then◌else◌, arith, all, length, ◌∙◌,
}
use foreignreader_be.Billing.Customer.{
  returned, Place, selecting, creating, inserting, reselecting, deleting, finished, Shared, step,
  step_at, run, inserted,
}
use foreignreader_be.Billing.Customer.Balance.{copies, cleans_up, cleans_up_at}
use foreignreader_be.Billing.Customer.Race.{
  nobody, requests, is_finished, deletions_work, run-one_customer,
}
use foreignreader_be.Billing.Customer.Finish.{turns, run-left_at, left_at-requests, run-finishes}

-- No call of the schedule fails.
abbrev pub all_work : List (ℕ × Bool) → Bool
all_work [] = true
all_work ((i, works) ∷ events) = works && all_work events

-- The row names the customer.
abbrev names : Option ℕ → ℕ → Bool
names none c = false
names (some n) c = c == n

abbrev is_there : Option ℕ → Bool
is_there none = false
is_there (some n) = true

-- The request has met no error, and what it returns, or is to return, is the customer of the row.
abbrev is_good : Option ℕ → Place → Bool
is_good row (finished (returned c b)) = names row c
is_good row (deleting id (returned c b)) = names row c
is_good row (finished e) = false
is_good row (deleting id e) = false
is_good row (reselecting id) = is_there row
is_good row _ = true

-- The request has returned the customer.
abbrev pub has_returned : ℕ → Place → Bool
has_returned n (finished (returned c b)) = c == n
has_returned n _ = false

-- A row that is there stays.
abbrev Stays : Option ℕ → Option ℕ → Type 0
Stays row row' = (c : ℕ) → row ≡ some c → row' ≡ some c

is_good_mono :
    (row row' : Option ℕ) (p : Place)
    → Stays row row'
    → is_good row p ≡ true
    → is_good row' p ≡ true
is_good_mono (some n) row' p stays h = rw (stays n refl) h
is_good_mono none row' selecting stays h = refl
is_good_mono none row' creating stays h = refl
is_good_mono none row' (inserting id) stays h = refl
is_good_mono none row' (reselecting id) stays h = cc
is_good_mono none row' (deleting id e) stays h = ground arith
is_good_mono none row' (finished e) stays h = ground arith

all_good_mono :
    (row row' : Option ℕ) (ps : List Place)
    → Stays row row'
    → all (is_good row) ps ≡ true
    → all (is_good row') ps ≡ true
all_good_mono row row' [] stays h = refl
all_good_mono row row' (p ∷ ps) stays h =
    ground (arith, is_good_mono row row' p stays, all_good_mono row row' ps stays)

inserting-is_good :
    (id : ℕ) (s : Shared) (o : Option ℕ)
    → s.row ≡ o
    → (is_good (inserted id s o).1.row (inserted id s o).0 ≡ true)
      × Stays s.row (inserted id s o).1.row
inserting-is_good id s none e = (ground arith, λ c k. cc (e, k))
inserting-is_good id s (some n) e = (ground (arith, e), λ c k. k)

step-is_good :
    (p : Place) (s : Shared)
    → is_good s.row p ≡ true
    → (is_good (step true p s).1.row (step true p s).0 ≡ true) × Stays s.row (step true p s).1.row
unfolding step
step-is_good selecting s h = (ground arith, λ c k. k)
step-is_good creating s h = (refl, λ c k. k)
step-is_good (inserting id) s h = inserting-is_good id s s.row refl
step-is_good (reselecting id) s h = (ground arith, λ c k. k)
step-is_good (deleting id e) s h = (ground arith, λ c k. k)
step-is_good (finished e) s h = (h, λ c k. k)

step_at-is_good :
    (i : ℕ) (ps : List Place) (s : Shared)
    → all (is_good s.row) ps ≡ true
    → (all (is_good (step_at i true ps s).1.row) (step_at i true ps s).0 ≡ true)
      × Stays s.row (step_at i true ps s).1.row
unfolding step_at
step_at-is_good i [] s h = (refl, λ c k. k)
step_at-is_good ℕ.zero (p ∷ ps) s h =
    let (here, stays) = step-is_good p s (ground arith) in
    (ground (arith, all_good_mono s.row (step true p s).1.row ps stays), stays)
step_at-is_good (suc i) (p ∷ ps) s h =
    let (rest, stays) = step_at-is_good i ps s (ground arith) in
    (ground (arith, is_good_mono s.row (step_at i true ps s).1.row p stays), stays)

run-is_good :
    (events : List (ℕ × Bool)) (ps : List Place) (s : Shared)
    → all_work events ≡ true
    → all (is_good s.row) ps ≡ true
    → all (is_good (run events ps s).1.row) (run events ps s).0 ≡ true
unfolding run
run-is_good [] ps s work h = h
run-is_good ((i, false) ∷ events) ps s work h = cc
run-is_good ((i, true) ∷ events) ps s work h =
    let (ps', s') = step_at i true ps s in
    run-is_good events ps' s' work (step_at-is_good i ps s h).0

requests-is_good : (k : ℕ) → all (is_good none) (requests k) ≡ true
requests-is_good ℕ.zero = refl
requests-is_good (suc k) = requests-is_good k

cleans_up-works : (p : Place) → cleans_up true p ≡ true
cleans_up-works selecting = refl
cleans_up-works creating = refl
cleans_up-works (inserting id) = refl
cleans_up-works (reselecting id) = refl
cleans_up-works (deleting id e) = refl
cleans_up-works (finished e) = refl

cleans_up_at-works : (i : ℕ) (ps : List Place) → cleans_up_at i true ps ≡ true
cleans_up_at-works i [] = refl
cleans_up_at-works ℕ.zero (p ∷ ps) = cleans_up-works p
cleans_up_at-works (suc i) (p ∷ ps) = cleans_up_at-works i ps

deletions_work-all_work :
    (events : List (ℕ × Bool)) (ps : List Place) (s : Shared)
    → all_work events ≡ true
    → deletions_work events ps s ≡ true
deletions_work-all_work [] ps s work = refl
deletions_work-all_work ((i, false) ∷ events) ps s work = cc
deletions_work-all_work ((i, true) ∷ events) ps s work =
    let (ps', s') = step_at i true ps s in
    let rest = deletions_work-all_work events ps' s' work in
    ground (arith, cleans_up_at-works i ps, rest)

-- Requests that have finished without an error have returned the customer of the row.
good-has_returned :
    (c : ℕ) (ps : List Place)
    → all is_finished ps ≡ true
    → all (is_good (some c)) ps ≡ true
    → all (has_returned c) ps ≡ true
good-has_returned c [] done good = refl
good-has_returned c (finished (returned n b) ∷ ps) done good =
    ground (arith, good-has_returned c ps)
good-has_returned c (p ∷ ps) done good = ground arith

good-row :
    (row : Option ℕ) (p : Place) (ps : List Place)
    → all is_finished (p ∷ ps) ≡ true
    → all (is_good row) (p ∷ ps) ≡ true
    → (c : ℕ) × (row ≡ some c) × (all (has_returned c) (p ∷ ps) ≡ true)
good-row none p ps done good = ground arith
good-row (some c) p ps done good = (c, refl, good-has_returned c (p ∷ ps) done good)

some_row :
    (row : Option ℕ) (ps : List Place) (k : ℕ)
    → length ps ≡ suc k
    → all is_finished ps ≡ true
    → all (is_good row) ps ≡ true
    → (c : ℕ) × (row ≡ some c) × (all (has_returned c) ps ≡ true)
some_row row [] k long done good = absurd (omega (arith, long))
some_row row (p ∷ ps) k long done good = good-row row p ps done good

-- If no call fails and the schedule lets each of one or more first requests of a user make five
-- calls: however the calls are interleaved, every request has returned one and the same customer,
-- which the row names and which is the only one that Stripe has.
pub run-succeeds :
    (k : ℕ) (events : List (ℕ × Bool))
    → all_work events ≡ true
    → ((i : ℕ) → i < suc k → 5 ≤ turns i events)
    → let (ps, s) = run events (requests (suc k)) nobody in
      (c : ℕ) × (s.row ≡ some c)
      × ((n : ℕ) → copies n s ≡ (if c == n then 1 else 0))
      × (length ps ≡ suc k)
      × (all (has_returned c) ps ≡ true)
run-succeeds k events work fair =
    let ps = (run events (requests (suc k)) nobody).0 in
    let s = (run events (requests (suc k)) nobody).1 in
    let done = run-finishes (suc k) events fair in
    let good = run-is_good events (requests (suc k)) nobody work (requests-is_good (suc k)) in
    let long : length ps ≡ suc k =
      (run-left_at 0 events (requests (suc k)) nobody).1 ∙ (left_at-requests 0 (suc k)).1 in
    let (only, _) =
      run-one_customer (suc k) events
        (deletions_work-all_work events (requests (suc k)) nobody work) done in
    let (c, row, all_returned) = some_row s.row ps k long done good in
    (c, row, (λ n. ground (arith, only n, row)), long, all_returned)

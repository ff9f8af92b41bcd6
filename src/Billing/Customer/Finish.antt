-- ===== src/Billing/Customer/Finish.antt =====
-- Every request comes to an end.
use foreignreader_be.Base.{
  ℕ, suc, ◌+◌, ◌-◌, ◌≤◌, ◌<◌, ◌≡◌, refl, ◌∙◌, Bool, true, List, [], ◌∷◌, ◌==◌, if◌then◌else◌, arith,
  all, length, ap,
}
use foreignreader_be.Billing.Customer.{
  Place, selecting, creating, inserting, reselecting, deleting, finished, Shared, step, step_at,
  run,
}
use foreignreader_be.Billing.Customer.Race.{nobody, requests, is_finished}

-- How many calls a request has still to make at most.
abbrev pub calls_left : Place → ℕ
calls_left selecting = 5
calls_left creating = 4
calls_left (inserting id) = 3
calls_left (reselecting id) = 2
calls_left (deleting id e) = 1
calls_left (finished e) = 0

abbrev pub left_at : ℕ → List Place → ℕ
left_at i [] = 0
left_at ℕ.zero (p ∷ ps) = calls_left p
left_at (suc i) (p ∷ ps) = left_at i ps

-- How often the schedule lets the request at place `i` make a call.
abbrev pub turns : ℕ → List (ℕ × Bool) → ℕ
turns i [] = 0
turns i ((j, works) ∷ events) = let rest = turns i events in if j == i then rest + 1 else rest

step-calls_left :
    (works : Bool) (p : Place) (s : Shared) → calls_left (step works p s).0 ≤ calls_left p - 1
unfolding step
step-calls_left works selecting s = ground arith
step-calls_left works creating s = ground arith
step-calls_left works (inserting id) s = ground arith
step-calls_left works (reselecting id) s = ground arith
step-calls_left works (deleting id e) s = ground arith
step-calls_left works (finished e) s = ground arith

step_at-left_at :
    (i j : ℕ) (works : Bool) (ps : List Place) (s : Shared)
    → (left_at i (step_at j works ps s).0 ≤ left_at i ps - (if j == i then 1 else 0))
      × (length (step_at j works ps s).0 ≡ length ps)
unfolding step_at
step_at-left_at i j works [] s = (ground arith, refl)
step_at-left_at ℕ.zero ℕ.zero works (p ∷ ps) s = (step-calls_left works p s, refl)
step_at-left_at (suc i) ℕ.zero works (p ∷ ps) s = (ground arith, refl)
step_at-left_at ℕ.zero (suc j) works (p ∷ ps) s =
    let (_, len) = step_at-left_at ℕ.zero j works ps s in (ground arith, ap suc len)
step_at-left_at (suc i) (suc j) works (p ∷ ps) s =
    let (less, len) = step_at-left_at i j works ps s in (ground arith, ap suc len)

pub run-left_at :
    (i : ℕ) (events : List (ℕ × Bool)) (ps : List Place) (s : Shared)
    → (left_at i (run events ps s).0 ≤ left_at i ps - turns i events)
      × (length (run events ps s).0 ≡ length ps)
unfolding run
run-left_at i [] ps s = (ground arith, refl)
run-left_at i ((j, works) ∷ events) ps s =
    let (ps', s') = step_at j works ps s in
    let (less, len) = step_at-left_at i j works ps s in
    let (less', len') = run-left_at i events ps' s' in (ground arith, len' ∙ len)

pub left_at-requests : (i k : ℕ) → (left_at i (requests k) ≤ 5) × (length (requests k) ≡ k)
left_at-requests i ℕ.zero = (ground arith, refl)
left_at-requests ℕ.zero (suc k) = (ground arith, ap suc (left_at-requests ℕ.zero k).1)
left_at-requests (suc i) (suc k) = ((left_at-requests i k).0, ap suc (left_at-requests i k).1)

none_left :
    (ps : List Place) → ((i : ℕ) → i < length ps → left_at i ps ≡ 0) → all is_finished ps ≡ true
none_left [] h = refl
none_left (p ∷ ps) h =
    let here = calls_left-finished p (h 0 (omega arith)) in
    let rest = none_left ps (λ i lt. h (suc i) (omega arith)) in ground arith
  where
    calls_left-finished : (p : Place) → calls_left p ≡ 0 → is_finished p ≡ true
    calls_left-finished (finished e) h = refl
    calls_left-finished selecting h = ground arith
    calls_left-finished creating h = ground arith
    calls_left-finished (inserting id) h = ground arith
    calls_left-finished (reselecting id) h = ground arith
    calls_left-finished (deleting id e) h = ground arith

-- If the schedule lets each of the requests make five calls, all have finished, however the calls
-- are interleaved and whichever fail.
pub run-finishes :
    (k : ℕ) (events : List (ℕ × Bool))
    → ((i : ℕ) → i < k → 5 ≤ turns i events)
    → all is_finished (run events (requests k) nobody).0 ≡ true
run-finishes k events fair = none_left (run events (requests k) nobody).0 λ i lt.
    let (less, len) = run-left_at i events (requests k) nobody in
    let (five, k_long) = left_at-requests i k in let enough = fair i (omega arith) in omega arith

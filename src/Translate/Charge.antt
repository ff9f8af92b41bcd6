-- ===== src/Translate/Charge.antt =====
-- What a translation costs.
use foreignreader_be.Base.{
  ℕ, ◌+◌, ◌<◌, ◌≡◌, ◌≢◌, refl, String, Bool, true, false, Option, none, some, List, [], ◌∷◌, find?,
  update, arith, ap, ◌∙◌, not, ◌&&◌, Bool-cases, inl, inr,
}
use foreignreader_be.Schema.{Quota, Tables}
use foreignreader_be.Db.{Error, Result, Result-cases, ok, err, World, query}
use foreignreader_be.Http.{Response, success, api_error}
use foreignreader_be.Entitlement.{holds_pro, has_active_pro, has_active_pro_stmt}
use foreignreader_be.Quota.{
  is_period, fresh_quota, ensured, ensure_row, ensure_current_month_row, used_once_more,
  increment_row, increment_used_count,
}
use foreignreader_be.Translate.{
  TranslateRequest, TranslateResponse, Translated, TranslationOutput, public,
  authenticated_translate_handler, translate_context_run, answer_free, with_quota,
}

-- The quota of a user in a month, which a row of its own replaces.
abbrev pub quota_of : ℕ → ℕ → ℕ → Tables → Quota
quota_of free user period t = elim (find? (is_period user period) t.quotas) [
  | none ↦ fresh_quota user period free
  | some q ↦ q
]

find?-used :
    (user period : ℕ) (q : Quota) (qs : List Quota)
    → find? (is_period user period) qs ≡ some q
    → find? (is_period user period) (update (is_period user period) used_once_more qs)
      ≡ some (used_once_more q)
find?-used user period q [] h = cc
find?-used user period q (x ∷ qs) h = ground (arith, find?-used user period q qs)

find?-used_ne :
    (user period other month : ℕ) (qs : List Quota)
    → other ≢ user
    → find? (is_period other month) (update (is_period user period) used_once_more qs)
      ≡ find? (is_period other month) qs
find?-used_ne user period other month [] ne = refl
find?-used_ne user period other month (x ∷ qs) ne =
    ground (arith, find?-used_ne user period other month qs ne)

find?-is_period :
    (user period : ℕ) (q : Quota) (qs : List Quota)
    → find? (is_period user period) qs ≡ some q
    → (q.user_id ≡ user) × (q.period_key ≡ period)
find?-is_period user period q [] h = cc
find?-is_period user period q (x ∷ qs) h = (
  ground (arith, find?-is_period user period q qs),
  ground (arith, find?-is_period user period q qs),
)

module _ (free user : ℕ) where
  -- The row of the current month, which is there afterwards.
  abbrev pub Ensured : Quota → World → World → Type 0
  Ensured q w w' =
      (q ≡ quota_of free user (w.env.month_of w.env.now) w.tables)
      × (find? (is_period user (w.env.month_of w.env.now)) w'.tables.quotas ≡ some q)
      × (q.period_key ≡ w.env.month_of w.env.now)

  ensured-Ensured :
      (m : ℕ) (t : Tables) (o : Option Quota)
      → find? (is_period user m) t.quotas ≡ o
      → ((ensured user m free t o).0 ≡ quota_of free user m t)
        × (find? (is_period user m) (ensured user m free t o).1.quotas
            ≡ some (ensured user m free t o).0)
        × ((ensured user m free t o).0.period_key ≡ m)
  ensured-Ensured m t none h = (ground arith, ground arith, refl)
  ensured-Ensured m t (some q) h = (ground arith, h, (find?-is_period user m q t.quotas h).1)

  ensure_current_month_row-ok :
      (w : World) {q : Quota}
      → (ensure_current_month_row user free w).0 ≡ ok q
      → Ensured q w (ensure_current_month_row user free w).1
  unfolding ensure_current_month_row query ensure_row
  ensure_current_month_row-ok w {q} h =
      let m = w.env.month_of w.env.now in
      let lemma = ensured-Ensured m w.tables (find? (is_period user m) w.tables.quotas) refl in
      (ground (arith, lemma), ground (arith, lemma), ground (arith, lemma))

  increment_used_count-ok :
      (m : ℕ) (w : World) (q : Quota) {q' : Quota}
      → find? (is_period user m) w.tables.quotas ≡ some q
      → (increment_used_count user m w).0 ≡ ok q'
      → (q' ≡ used_once_more q)
        × (find? (is_period user m) (increment_used_count user m w).1.tables.quotas
            ≡ some (used_once_more q))
  unfolding increment_used_count query increment_row
  increment_used_count-ok m w q {q'} found h =
      (ground arith, ground (arith, find?-used user m q w.tables.quotas found))

  increment_used_count-err :
      (m : ℕ) (w : World) {e : Error}
      → (increment_used_count user m w).0 ≡ err e
      → (increment_used_count user m w).1.tables ≡ w.tables
  unfolding increment_used_count query increment_row
  increment_used_count-err m w {e} h = ground arith

  ensure_current_month_row-err :
      (w : World) {e : Error}
      → (ensure_current_month_row user free w).0 ≡ err e
      → (ensure_current_month_row user free w).1.tables ≡ w.tables
  unfolding ensure_current_month_row query ensure_row
  ensure_current_month_row-err w {e} h = ground arith

module _ (client : String → String → String → String → Translated) (free user : ℕ) where
  answer_free-success :
      (m : ℕ) (q : Quota) (out : Response TranslationOutput) (w : World) {r : TranslateResponse}
      → find? (is_period user m) w.tables.quotas ≡ some q
      → q.period_key ≡ m
      → (answer_free client free user q out w).0 ≡ success r
      → (r.context_quota ≡ some (public (used_once_more q)))
        × (find? (is_period user m) (answer_free client free user q out w).1.tables.quotas
            ≡ some (used_once_more q))
  answer_free-success m q (api_error status code) w found month h = cc
  answer_free-success m q (success out) w {r} found month h =
      elim (Result-cases (increment_used_count user m w).0) [
        | inl (q', e) ↦
            let lemma = increment_used_count-ok free user m w q found e in
            (ground (arith, lemma), ground (arith, lemma))
        | inr (f, e) ↦ absurd (ground arith)
      ]

  with_quota-success :
      (m : ℕ) (req : TranslateRequest) (o : Result Quota) (w : World) {r : TranslateResponse}
      → ((q : Quota)
          → o ≡ ok q
          → (find? (is_period user m) w.tables.quotas ≡ some q) × (q.period_key ≡ m))
      → (with_quota client free user req (o, w)).0 ≡ success r
      → (q : Quota) × (o ≡ ok q)
        × (q.used_count < q.monthly_limit)
        × (r.context_quota ≡ some (public (used_once_more q)))
        × (find? (is_period user m) (with_quota client free user req (o, w)).1.tables.quotas
            ≡ some (used_once_more q))
  with_quota-success m req (err e) w there h = cc
  with_quota-success m req (ok q) w {r} there h =
      let lemma =
        answer_free-success m q (translate_context_run client free req) w {r = r} (there q refl).0
          (there q refl).1 in
      (q, refl, ground arith, ground (arith, lemma), ground (arith, lemma))

  free_handled :
      (is_json : Bool) (body : Option TranslateRequest) (w : World) {r : TranslateResponse}
      → holds_pro w.env.now user w.tables ≡ false
      → (authenticated_translate_handler client free (some user) is_json body w).0 ≡ success r
      → (req : TranslateRequest) × (authenticated_translate_handler client free
            (some user)
            is_json
            body
            w
          ≡ with_quota client free user req
              (ensure_current_month_row user free (record w { calls = w.calls + 1 })))
  unfolding authenticated_translate_handler has_active_pro has_active_pro_stmt query
  free_handled true (some req) w {r} not_pro h = (req, ground arith)
  free_handled true none w {r} not_pro h = absurd (ground arith)
  free_handled false body w {r} not_pro h = absurd (ground arith)

  -- A translation for a user without Pro that succeeds found the quota of the month not used up, and
  -- leaves it used exactly once more, which the answer reports.
  pub authenticated_translate_handler-success :
      (is_json : Bool) (body : Option TranslateRequest) (w : World) {r : TranslateResponse}
      → holds_pro w.env.now user w.tables ≡ false
      → (authenticated_translate_handler client free (some user) is_json body w).0 ≡ success r
      → let q = quota_of free user (w.env.month_of w.env.now) w.tables in
        let t = (authenticated_translate_handler client free (some user) is_json body w).1.tables in
        (q.used_count < q.monthly_limit)
        × (r.context_quota ≡ some (public (used_once_more q)))
        × (quota_of free user (w.env.month_of w.env.now) t ≡ used_once_more q)
  authenticated_translate_handler-success is_json body w {r} not_pro h =
      let m = w.env.month_of w.env.now in
      let w1 = record w { calls = w.calls + 1 } in
      let ensured = ensure_current_month_row user free w1 in
      let (req, same) = free_handled is_json body w not_pro h in
      let there =
        λ (q : Quota) (e : ensured.0 ≡ ok q). ensure_current_month_row-ok free user w1 e in
      let (q, e, room, told, after) =
        with_quota-success m req ensured.0 ensured.1 {r = r} (λ q e. ((there q e).1, (there q e).2))
          (rw (← same) h) in
      let known : q ≡ quota_of free user m w.tables = (there q e).0 in
      (rw (← known) room, rw (← known) told, rw (same, ← known) (ground (arith, after)))

  answer_free-err :
      (q : Quota) (out : Response TranslationOutput) (w : World) {status : ℕ} {code : String}
      → (answer_free client free user q out w).0 ≡ api_error status code
      → (answer_free client free user q out w).1.tables ≡ w.tables
  answer_free-err q (api_error status code) w h = refl
  answer_free-err q (success out) w h =
      elim (Result-cases (increment_used_count user q.period_key w).0) [
        | inl (q', e) ↦ absurd (ground arith)
        | inr (f, e) ↦ ground (arith, increment_used_count-err free user q.period_key w e)
      ]

  with_quota-err :
      (req : TranslateRequest) (o : Result Quota) (w : World) {status : ℕ} {code : String}
      → (with_quota client free user req (o, w)).0 ≡ api_error status code
      → (with_quota client free user req (o, w)).1.tables ≡ w.tables
  with_quota-err req (err e) w h = refl
  with_quota-err req (ok q) w {status} {code} h =
      let lemma =
        answer_free-err q (translate_context_run client free req) w {status = status}
          {code = code} in
      ground (arith, lemma)

  ensure_current_month_row-quota_of :
      (w : World)
      → let m = w.env.month_of w.env.now in
        quota_of free user m (ensure_current_month_row user free w).1.tables
        ≡ quota_of free user m w.tables
  ensure_current_month_row-quota_of w =
      elim (Result-cases (ensure_current_month_row user free w).0) [
        | inl (q, e) ↦
            let (known, there, _) = ensure_current_month_row-ok free user w e in
            ground (arith, there, known)
        | inr (f, e) ↦ ground (arith, ensure_current_month_row-err free user w e)
      ]

  -- A request that is answered with an error, whichever, costs nothing: the quota of the month is as
  -- used as before.
  pub authenticated_translate_handler-err :
      (is_json : Bool) (body : Option TranslateRequest) (w : World) {status : ℕ} {code : String}
      → (authenticated_translate_handler client free (some user) is_json body w).0
        ≡ api_error status code
      → let m = w.env.month_of w.env.now in
        quota_of free user m
          (authenticated_translate_handler client free (some user) is_json body w).1.tables
        ≡ quota_of free user m w.tables
  unfolding authenticated_translate_handler has_active_pro has_active_pro_stmt query
  authenticated_translate_handler-err false body w h = ground arith
  authenticated_translate_handler-err true none w h = ground arith
  authenticated_translate_handler-err true (some req) w {status} {code} h =
      elim (Bool-cases (not (w.env.fault w.calls) && not (holds_pro w.env.now user w.tables))) [
        | inr other ↦ ground arith
        | inl reached ↦
            let ensured = ensure_current_month_row user free (record w { calls = w.calls + 1 }) in
            let same : authenticated_translate_handler client free (some user) true (some req) w
                ≡ with_quota client free user req ensured =
              ground arith in
            let kept =
              with_quota-err req ensured.0 ensured.1 {status = status} {code = code}
                (rw (← same) h) in
            rw same (
              ap (quota_of free user (w.env.month_of w.env.now)) kept
              ∙ ensure_current_month_row-quota_of (record w { calls = w.calls + 1 }))
      ]

  -- A user with Pro is not charged: nothing changes, and the answer reports no quota.
  pub authenticated_translate_handler-pro :
      (is_json : Bool) (body : Option TranslateRequest) (w : World)
      → holds_pro w.env.now user w.tables ≡ true
      → let (answer, w') = authenticated_translate_handler client free (some user) is_json body w in
        (w'.tables ≡ w.tables)
        × ((r : TranslateResponse) → answer ≡ success r → r.context_quota ≡ none)
  unfolding authenticated_translate_handler has_active_pro has_active_pro_stmt query
  authenticated_translate_handler-pro is_json body w pro = (ground arith, λ r e. ground arith)

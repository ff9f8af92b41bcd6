-- ===== src/Entitlement/Routes/Told.antt =====
-- What handleMeEntitlements tells, against the rows, and whom the middleware lets through.
use foreignreader_be.Base.{
  ℕ, ◌≡◌, ◌⊎◌, inl, inr, refl, sym, ◌∙◌, Bool, true, false, List, some, arith,
}
use foreignreader_be.Schema.{Entitlement}
use foreignreader_be.Db.{Result, ok, err, World, query}
use foreignreader_be.Http.{success, api_error, Handler}
use foreignreader_be.Entitlement.{holds_pro, has_active_pro, has_active_pro_stmt, list_by_user}
use foreignreader_be.Entitlement.Routes.{
  EntitlementsList, with_plan, with_list, handle_me_entitlements, require_pro_middleware, if_pro,
}

has_active_pro-ok :
    (user : ℕ) (w : World) {b : Bool}
    → (has_active_pro user w).0 ≡ ok b
    → (holds_pro w.env.now user w.tables ≡ b) × ((has_active_pro user w).1.tables ≡ w.tables)
unfolding has_active_pro has_active_pro_stmt query
has_active_pro-ok user w h = (ground arith, ground arith)

list_by_user-keeps :
    (user : ℕ) (w : World)
    → ((list_by_user user w).1.tables ≡ w.tables) × ((list_by_user user w).1.env ≡ w.env)
unfolding list_by_user query
list_by_user-keeps user w = (ground arith, ground arith)

with_plan-told :
    (free user : ℕ) (es : List Entitlement) (r : Result Bool) (w : World) {a : EntitlementsList}
    → (with_plan free user es (r, w)).0 ≡ success a
    → r ≡ ok a.effective_access.is_pro
with_plan-told free user es (err e) w h = cc
with_plan-told free user es (ok true) w h = ground arith
with_plan-told free user es (ok false) w h = ground arith

handle_me_entitlements-is_pro :
    (free user : ℕ) (w : World) {a : EntitlementsList}
    → (handle_me_entitlements free (some user) w).0 ≡ success a
    → a.effective_access.is_pro ≡ holds_pro w.env.now user w.tables
unfolding handle_me_entitlements
handle_me_entitlements-is_pro free user w {a} h =
    go (list_by_user user w) (list_by_user-keeps user w) h
  where
    go :
        (p : Result (List Entitlement) × World)
        → (p.1.tables ≡ w.tables) × (p.1.env ≡ w.env)
        → (with_list free user p).0 ≡ success a
        → a.effective_access.is_pro ≡ holds_pro w.env.now user w.tables
    go (err e, w1) (tables, env) h = cc
    go (ok es, w1) (tables, env) h =
        let told =
          with_plan-told free user es (has_active_pro user w1).0 (has_active_pro user w1).1 h in
        rw (tables, env) at (sym (has_active_pro-ok user w1 told).0)

if_pro-cases {ℓ} :
    {A : Type ℓ} (next : Handler A) (p : Result Bool × World) (b : Bool)
    → ((c : Bool) → p.0 ≡ ok c → b ≡ c)
    → ((if_pro next p).0 ≡ api_error 500 "internal_error")
      ⊎ ((b ≡ true → if_pro next p ≡ next p.1)
          × (b ≡ false → if_pro next p ≡ (api_error 403 "forbidden", p.1)))
if_pro-cases next (err e, w) b h = inl refl
if_pro-cases next (ok true, w) b h = inr ((λ e. refl), (λ e. cc (e, h true refl)))
if_pro-cases next (ok false, w) b h = inr ((λ e. cc (e, h false refl)), (λ e. refl))

-- What a user is told agrees with what is allowed: if handleMeEntitlements answers with success, it
-- tells whether the rows give Pro at this instant; and in every world with these tables at this
-- instant, requireProMiddleware lets the user through if it told Pro and answers 403 if it did not, or
-- it answers 500.
pub handle_me_entitlements-told {ℓ} :
    {A : Type ℓ} (free user : ℕ) (next : Handler A) (w w' : World) {a : EntitlementsList}
    → (handle_me_entitlements free (some user) w).0 ≡ success a
    → w'.tables ≡ w.tables
    → w'.env.now ≡ w.env.now
    → let told = a.effective_access.is_pro in
      let answer = require_pro_middleware (some user) next w' in
      let w'' = (has_active_pro user w').1 in
      (told ≡ holds_pro w.env.now user w.tables)
      × ((answer.0 ≡ api_error 500 "internal_error")
          ⊎ ((told ≡ true → answer ≡ next w'')
              × (told ≡ false → answer ≡ (api_error 403 "forbidden", w''))))
unfolding require_pro_middleware
handle_me_entitlements-told free user next w w' {a} h tables now =
    let told = handle_me_entitlements-is_pro free user w h in
    (
      told,
      if_pro-cases next (has_active_pro user w') a.effective_access.is_pro
          (λ c e. told ∙ (rw (tables, now) at (has_active_pro-ok user w' e).0)),
    )

-- ===== src/Db/Keeps.antt =====
-- What a call leaves alone: a view `f` of the tables that is the same afterwards, however the call
-- ends. One rule for each way to build a call.
use foreignreader_be.Base.{◌+◌, ◌≡◌, refl, ap, ◌∙◌, Bool, true, false, if◌then◌else◌, arith}
use foreignreader_be.Schema.{Tables}
use foreignreader_be.Db.{
  Error, Result, ok, err, Env, World, Db, Stmt, pure, fail, attempt, get_now, continue, ◌>>=◌,
  settle, settle_tx, query, tx_query, transaction,
}

pub record Keeps {ℓ κ} {X : Type ℓ} {A : Type κ} (f : Tables → X) (m : Db A) : Type ℓ where
  pub at : (w : World) → f (m w).1.tables ≡ f w.tables

abbrev pub tables_after {ℓ} : {A : Type ℓ} → Tables → Result (A × Tables) → Tables
tables_after t (ok (a, t')) = t'
tables_after t (err e) = t

-- A statement that leaves the view alone.
pub record StmtKeeps {ℓ κ} {X : Type ℓ} {A : Type κ} (f : Tables → X) (s : Stmt A) : Type ℓ where
  pub stmt_at : (env : Env) (t : Tables) → f (tables_after t (s env t)) ≡ f t

settled {ℓ κ} :
    {X : Type ℓ} {A : Type κ} (f : Tables → X) (t : Tables) (r : Result (A × Tables)) (w : World)
    → w.tables ≡ t
    → f (tables_after t r) ≡ f t
    → (f (settle r w).1.tables ≡ f t) × (f (settle_tx r w).1.tables ≡ f t)
settled f t (ok (a, t')) w same h = (h, h)
settled f t (err e) w same h = (ap f same, ap f same)

pub Keeps-get_now {ℓ} : {X : Type ℓ} {f : Tables → X} → Keeps f get_now
Keeps-get_now = record { at = λ w. refl }

module _ {ℓ κ} {X : Type ℓ} {A : Type κ} {f : Tables → X} where
  pub Keeps-pure : (a : A) → Keeps f (pure a)
  Keeps-pure a = record { at = λ w. refl }

  pub Keeps-fail : (e : Error) → Keeps f (fail {A = A} e)
  Keeps-fail e = record { at = λ w. refl }

  pub Keeps-attempt : (m : Db A) → Keeps f m → Keeps f (attempt m)
  Keeps-attempt m h = record { at = λ w. h.at w }

  pub Keeps-if : (b : Bool) (m n : Db A) → Keeps f m → Keeps f n → Keeps f (if b then m else n)
  Keeps-if true m n km kn = km
  Keeps-if false m n km kn = kn

  pub Keeps-query : (s : Stmt A) → StmtKeeps f s → Keeps f (query s)
  unfolding query
  Keeps-query s h = record {
    at = λ w. ground (
      arith,
      settled f w.tables (s w.env w.tables) (record w { calls = w.calls + 1 }) refl
          (h.stmt_at w.env w.tables),
    );
  }

  pub Keeps-tx_query : (s : Stmt A) → StmtKeeps f s → Keeps f (tx_query s)
  unfolding tx_query
  Keeps-tx_query s h = record {
    at = λ w. ground (
      arith,
      settled f w.tables (s w.env w.tables) (record w { calls = w.calls + 1 }) refl
          (h.stmt_at w.env w.tables),
    );
  }

  pub Keeps-transaction : (body : Db A) → Keeps f body → Keeps f (transaction body)
  unfolding transaction
  Keeps-transaction body h = record {
    at = λ w. ground (arith, h.at (record w { calls = w.calls + 1; poisoned = false }));
  }

module _ {ℓ κ κ'} {X : Type ℓ} {A : Type κ} {B : Type κ'} {f : Tables → X} where
  continued : (r : Result A) (g : A → Db B) → ((a : A) → Keeps f (g a)) → Keeps f (continue r g)
  continued (ok a) g kg = record { at = λ w. (kg a).at w }
  continued (err e) g kg = record { at = λ w. refl }

  pub Keeps-bind :
      (m : Db A) (g : A → Db B) → Keeps f m → ((a : A) → Keeps f (g a)) → Keeps f (m >>= g)
  Keeps-bind m g km kg = record { at = λ w. (continued (m w).0 g kg).at (m w).1 ∙ km.at w }

pub ruleset keeps_rules = (
  Keeps-pure, Keeps-fail, Keeps-attempt, Keeps-if, Keeps-query, Keeps-tx_query, Keeps-transaction,
  Keeps-bind,
)

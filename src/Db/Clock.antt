-- ===== src/Db/Clock.antt =====
-- The environment is the same after a call, whichever way the call is built.
use foreignreader_be.Base.{◌+◌, ◌≡◌, refl, ◌∙◌, Bool, true, false, if◌then◌else◌, arith}
use foreignreader_be.Db.{
  Error, Result, ok, err, World, Db, Stmt, pure, fail, continue, ◌>>=◌, query, tx_query,
  transaction, draw_random,
}

pub record KeepsEnv {ℓ} {A : Type ℓ} (m : Db A) : Type 0 where
  pub env_at : (w : World) → (m w).1.env ≡ w.env

pub KeepsEnv-draw_random : KeepsEnv draw_random
unfolding draw_random
KeepsEnv-draw_random = record { env_at = λ w. ground arith }

module _ {ℓ} {A : Type ℓ} where
  pub KeepsEnv-pure : (a : A) → KeepsEnv (pure a)
  KeepsEnv-pure a = record { env_at = λ w. refl }

  pub KeepsEnv-fail : (e : Error) → KeepsEnv (fail {A = A} e)
  KeepsEnv-fail e = record { env_at = λ w. refl }

  pub KeepsEnv-if :
      (b : Bool) (m n : Db A) → KeepsEnv m → KeepsEnv n → KeepsEnv (if b then m else n)
  KeepsEnv-if true m n km kn = km
  KeepsEnv-if false m n km kn = kn

  pub KeepsEnv-query : (s : Stmt A) → KeepsEnv (query s)
  unfolding query
  KeepsEnv-query s = record { env_at = λ w. ground arith }

  pub KeepsEnv-tx_query : (s : Stmt A) → KeepsEnv (tx_query s)
  unfolding tx_query
  KeepsEnv-tx_query s = record { env_at = λ w. ground arith }

  pub KeepsEnv-transaction : (body : Db A) → KeepsEnv body → KeepsEnv (transaction body)
  unfolding transaction
  KeepsEnv-transaction body h = record {
    env_at = λ w. ground (arith, h.env_at (record w { calls = w.calls + 1; poisoned = false }));
  }

module _ {ℓ κ} {A : Type ℓ} {B : Type κ} where
  continued : (r : Result A) (g : A → Db B) → ((a : A) → KeepsEnv (g a)) → KeepsEnv (continue r g)
  continued (ok a) g kg = record { env_at = λ w. (kg a).env_at w }
  continued (err e) g kg = record { env_at = λ w. refl }

  pub KeepsEnv-bind :
      (m : Db A) (g : A → Db B) → KeepsEnv m → ((a : A) → KeepsEnv (g a)) → KeepsEnv (m >>= g)
  KeepsEnv-bind m g km kg = record {
    env_at = λ w. (continued (m w).0 g kg).env_at (m w).1 ∙ km.env_at w;
  }

pub ruleset clock_rules = (
  KeepsEnv-draw_random, KeepsEnv-pure, KeepsEnv-fail, KeepsEnv-if, KeepsEnv-query,
  KeepsEnv-tx_query, KeepsEnv-transaction, KeepsEnv-bind,
)

-- ===== src/Db/Quiet.antt =====
-- Calls in a world where no call of the database fails: what a statement that succeeds on the
-- tables comes to when it is run, on its own and in a transaction.
use foreignreader_be.Base.{ℕ, ◌+◌, ◌≡◌, refl, ◌∙◌, false}
use foreignreader_be.Schema.{Tables}
use foreignreader_be.Db.{ok, World, Db, Stmt, pure, ◌>>=◌, query, tx_query, transaction}

-- No call fails, and no statement of the open transaction has.
pub record IsQuiet (w : World) : Type 0 where
  pub no_fault : (n : ℕ) → w.env.fault n ≡ false
  pub unpoisoned : w.poisoned ≡ false

-- The call gives `a` and leaves the tables `t` and a quiet world.
pub record Runs {ℓ} {A : Type ℓ} (m : Db A) (w : World) (a : A) (t : Tables) : Type ℓ where
  pub answer : (m w).0 ≡ ok a
  pub tables : (m w).1.tables ≡ t
  pub env : (m w).1.env ≡ w.env
  pub quiet : IsQuiet (m w).1

IsQuiet-env : (w w' : World) → IsQuiet w → w'.env ≡ w.env → w'.poisoned ≡ false → IsQuiet w'
IsQuiet-env w w' q e p = record { no_fault = λ n. rw e (q.no_fault n); unpoisoned = p }

abbrev pub opened : World → World
opened w = record w { calls = w.calls + 1; poisoned = false }

pub opened-IsQuiet : (w : World) → IsQuiet w → IsQuiet (opened w)
opened-IsQuiet w q = record { no_fault = q.no_fault; unpoisoned = refl }

module _ {ℓ} {A : Type ℓ} where
  pub Runs-pure : (a : A) (w : World) → IsQuiet w → Runs (pure a) w a w.tables
  Runs-pure a w q = record { answer = refl; tables = refl; env = refl; quiet = q }

  pub Runs-query :
      (s : Stmt A) (w : World) {a : A} {t : Tables}
      → IsQuiet w
      → s w.env w.tables ≡ ok (a, t)
      → Runs (query s) w a t
  unfolding query
  Runs-query s w {a} {t} q h =
      let calm = q.no_fault w.calls in
      record {
        answer = rw (calm, h) refl;
        tables = rw (calm, h) refl;
        env = rw (calm, h) refl;
        quiet = IsQuiet-env w _ q (rw (calm, h) refl) (rw (calm, h) q.unpoisoned);
      }

  pub Runs-tx_query :
      (s : Stmt A) (w : World) {a : A} {t : Tables}
      → IsQuiet w
      → s w.env w.tables ≡ ok (a, t)
      → Runs (tx_query s) w a t
  unfolding tx_query
  Runs-tx_query s w {a} {t} q h =
      let calm = q.no_fault w.calls in
      let clean = q.unpoisoned in
      record {
        answer = rw (clean, calm, h) refl;
        tables = rw (clean, calm, h) refl;
        env = rw (clean, calm, h) refl;
        quiet = IsQuiet-env w _ q (rw (clean, calm, h) refl) (rw (clean, calm, h) refl);
      }

  pub Runs-transaction :
      (body : Db A) (w : World) {a : A} {t : Tables}
      → IsQuiet w
      → Runs body (opened w) a t
      → Runs (transaction body) w a t
  unfolding transaction
  Runs-transaction body w {a} {t} q r =
      let calm = q.no_fault w.calls in
      let calm' = r.quiet.no_fault (body (opened w)).1.calls in
      let clean = r.quiet.unpoisoned in
      record {
        answer = rw (calm, r.answer, clean, calm') refl;
        tables = rw (calm, r.answer, clean, calm') r.tables;
        env = rw (calm, r.answer, clean, calm') r.env;
        quiet =
            IsQuiet-env w _ q (rw (calm, r.answer, clean, calm') r.env)
              (rw (calm, r.answer, clean, calm') refl);
      }

pub Runs-bind {ℓ κ} :
    {A : Type ℓ} {B : Type κ} (m : Db A) (f : A → Db B) (w : World) {a : A} {b : B} {t t' : Tables}
    → Runs m w a t
    → Runs (f a) (m w).1 b t'
    → Runs (m >>= f) w b t'
Runs-bind m f w r r' = record {
  answer = rw r.answer r'.answer;
  tables = rw r.answer r'.tables;
  env = rw r.answer (r'.env ∙ r.env);
  quiet = rw r.answer r'.quiet;
}

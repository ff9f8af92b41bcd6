-- ===== src/Db/Inversion.antt =====
-- A call that succeeded, taken apart.
use foreignreader_be.Base.{◌≡◌, ◌≢◌, Option, none, refl, ◌+◌, arith, false}
use foreignreader_be.Db.{
  Result, ok, err, World, Db, Stmt, continue, ◌>>=◌, tx_query, transaction, transaction_or_rollback,
}

continue-ok {ℓ κ} :
    {A : Type ℓ} {B : Type κ} (r : Result A) (f : A → Db B) (w : World) {b : B}
    → (continue r f w).0 ≡ ok b
    → (a : A) × (r ≡ ok a) × (continue r f w ≡ f a w) × ((f a w).0 ≡ ok b)
continue-ok (ok a) f w h = (a, refl, refl, h)
continue-ok (err e) f w h = cc

pub >>=-ok {ℓ κ} :
    {A : Type ℓ} {B : Type κ} (m : Db A) (f : A → Db B) (w : World) {b : B}
    → ((m >>= f) w).0 ≡ ok b
    → (a : A) × ((m w).0 ≡ ok a) × ((m >>= f) w ≡ f a (m w).1) × ((f a (m w).1).0 ≡ ok b)
>>=-ok m f w h = continue-ok (m w).0 f (m w).1 h

-- A statement of a transaction that succeeded ran on the tables, in an unpoisoned transaction.
pub tx_query-ok {ℓ} :
    {A : Type ℓ} (s : Stmt A) (w : World) {a : A}
    → (tx_query s w).0 ≡ ok a
    → (s w.env w.tables ≡ ok (a, (tx_query s w).1.tables)) × ((tx_query s w).1.env ≡ w.env)
unfolding tx_query
tx_query-ok s w h = (ground arith, ground arith)

-- A transaction that succeeded is its body, with its tables.
pub transaction-ok {ℓ} :
    {A : Type ℓ} (body : Db A) (w : World) {a : A}
    → (transaction body w).0 ≡ ok a
    → let w' = record w { calls = w.calls + 1; poisoned = false } in
      ((body w').0 ≡ ok a) × ((body w').1.tables ≡ (transaction body w).1.tables)
unfolding transaction
transaction-ok body w h = (ground arith, ground arith)

-- A transaction that succeeded is its body, with its tables unless it rolled back.
pub transaction_or_rollback-ok {ℓ} :
    {A : Type ℓ} (body : Db (Option A)) (w : World) {o : Option A}
    → (transaction_or_rollback body w).0 ≡ ok o
    → let w' = record w { calls = w.calls + 1; poisoned = false } in
      ((body w').0 ≡ ok o)
      × (o ≢ none → (body w').1.tables ≡ (transaction_or_rollback body w).1.tables)
unfolding transaction_or_rollback
transaction_or_rollback-ok body w h = (ground arith, λ ne. ground arith)

-- ===== src/Db/Atomic.antt =====
-- What a transaction leaves behind, for every body and every schedule of failures.
use foreignreader_be.Base.{◌≡◌, Option, arith}
use foreignreader_be.Db.{Error, err, World, Db, transaction, transaction_or_rollback}

-- A transaction that returns an error leaves the tables as they were.
pub transaction-err {ℓ} :
    {A : Type ℓ} (body : Db A) (w : World) {e : Error}
    → (transaction body w).0 ≡ err e
    → (transaction body w).1.tables ≡ w.tables
unfolding transaction
transaction-err body w h = ground arith

pub transaction_or_rollback-err {ℓ} :
    {A : Type ℓ} (body : Db (Option A)) (w : World) {e : Error}
    → (transaction_or_rollback body w).0 ≡ err e
    → (transaction_or_rollback body w).1.tables ≡ w.tables
unfolding transaction_or_rollback
transaction_or_rollback-err body w h = ground arith

-- ===== src/Db.antt =====
-- Running SQL statements: the database/sql calls that the stores make. The environment decides
-- which calls fail, what the clock shows, and which ids and random bytes are drawn.
pub mod Atomic
pub mod Inversion
pub mod Keeps
pub mod Quiet
pub mod Clock
use foreignreader_be.Base.{
  ◌≡◌, refl, ◌⊎◌, inl, inr, ℕ, ◌+◌, ◌≡◌, refl, String, Bool, true, false, Option, none, some,
  if◌then◌else◌,
}
use foreignreader_be.Schema.{Tables}

-- The errors that the code tells apart. `failed` is any error of the database driver,
-- `violation` a constraint of the schema, `aborted` what a statement or a commit returns in a
-- transaction in which a statement has failed; the others are the code's own sentinel errors.
pub data Error : Type 0 where
  failed violation aborted not_configured : Error
  no_rows invalid_json missing_product_id missing_transaction_id : Error
  not_entitled unknown_product apple_api : Error
  refresh_invalid refresh_expired refresh_revoked refresh_reuse : Error
  unauthenticated invalid_argument no_entropy jwt empty_subject : Error
  token_invalid token_expired token_revoked insufficient_scope bad_ttl : Error

pub data Result {ℓ} (A : Type ℓ) : Type ℓ where
  ok : A → Result A
  err : Error → Result A

pub Result-cases {ℓ} :
    {A : Type ℓ} (r : Result A) → ((a : A) × (r ≡ ok a)) ⊎ ((e : Error) × (r ≡ err e))
Result-cases (ok a) = inl (a, refl)
Result-cases (err e) = inr (e, refl)

-- `month_of` is the calendar of package time. `fault n` says whether call number `n` of the database fails.
pub record Env : Type 0 where
  pub now : ℕ
  pub month_of : ℕ → ℕ
  pub fault : ℕ → Bool
  pub uuid : ℕ → ℕ
  pub random : ℕ → Option String

-- `calls` counts calls of the database, `randoms` reads of crypto/rand; `poisoned` says that a
-- statement of the open transaction has failed, after which PostgreSQL refuses the rest of it.
pub record World : Type 0 where
  pub env : Env
  pub tables : Tables
  pub calls : ℕ
  pub randoms : ℕ
  pub poisoned : Bool

-- A Go function that talks to the database and may return an error.
abbrev pub Db {ℓ} : Type ℓ → Type ℓ
Db A = World → Result A × World

-- What a statement does to the tables: nothing, if it returns an error.
abbrev pub Stmt {ℓ} : Type ℓ → Type ℓ
Stmt A = Env → Tables → Result (A × Tables)

abbrev pub pure {ℓ} : {A : Type ℓ} → A → Db A
pure a w = (ok a, w)

abbrev pub fail {ℓ} : {A : Type ℓ} → Error → Db A
fail e w = (err e, w)

abbrev pub continue {ℓ κ} : {A : Type ℓ} {B : Type κ} → Result A → (A → Db B) → Db B
continue (ok a) f w = f a w
continue (err e) f w = (err e, w)

infixl 5 ◌>>=◌ ◌>>◌
abbrev pub ◌>>=◌ {ℓ κ} : {A : Type ℓ} {B : Type κ} → Db A → (A → Db B) → Db B
◌>>=◌ m f w = continue (m w).0 f (m w).1

abbrev pub ◌>>◌ {ℓ κ} : {A : Type ℓ} {B : Type κ} → Db A → Db B → Db B
m >> n = m >>= λ _. n

-- `x, err := f()` where the code goes on to look at `err`.
abbrev pub attempt {ℓ} : {A : Type ℓ} → Db A → Db (Result A)
attempt m w = (ok (m w).0, (m w).1)

-- `if cond { return err }`.
abbrev pub guard : Bool → Error → Db (Unit {0})
guard true e w = (ok tt, w)
guard false e w = (err e, w)

-- `time.Now()`, and `now()` in a query.
abbrev pub get_now : Db ℕ
get_now w = (ok w.env.now, w)

abbrev settle {ℓ} : {A : Type ℓ} → Result (A × Tables) → World → Result A × World
settle (ok (a, t)) w = (ok a, record w { tables = t })
settle (err e) w = (err e, w)

abbrev settle_tx {ℓ} : {A : Type ℓ} → Result (A × Tables) → World → Result A × World
settle_tx (ok (a, t)) w = (ok a, record w { tables = t })
settle_tx (err e) w = (err e, record w { poisoned = true })

-- `db.QueryRowContext`, `db.ExecContext`: a statement on its own.
unfoldable pub query {ℓ} : {A : Type ℓ} → Stmt A → Db A
query s w =
    let w' = record w { calls = w.calls + 1 } in
    if w.env.fault w.calls then (err failed, w') else settle (s w.env w.tables) w'

-- `tx.QueryRowContext`, `tx.ExecContext`: a statement of the open transaction.
unfoldable pub tx_query {ℓ} : {A : Type ℓ} → Stmt A → Db A
tx_query s w =
    let w' = record w { calls = w.calls + 1 } in
    if w.poisoned
    then (err aborted, w')
    else if w.env.fault w.calls
    then (err failed, record w' { poisoned = true })
    else settle_tx (s w.env w.tables) w'

-- `tx.Commit()`, or the deferred `tx.Rollback()` on an error: `before` are the tables that the
-- transaction began with.
abbrev finish {ℓ} : {A : Type ℓ} → Tables → Result A → World → Result A × World
finish before (err e) w = (err e, record w { tables = before; poisoned = false })
finish before (ok a) w =
    let w' = record w { calls = w.calls + 1; poisoned = false } in
    let back = record w' { tables = before } in
    if w.poisoned
    then (err aborted, back)
    else if w.env.fault w.calls
    then (err failed, back)
    else (ok a, w')

-- `db.BeginTx`, the body, and `tx.Commit`.
unfoldable pub transaction {ℓ} : {A : Type ℓ} → Db A → Db A
transaction body w =
    let w' = record w { calls = w.calls + 1; poisoned = false } in
    let end = body w' in
    if w.env.fault w.calls
    then (err failed, record w { calls = w.calls + 1 })
    else finish w.tables end.0 end.1

abbrev finish_or_rollback {ℓ} :
    {A : Type ℓ} → Tables → Result (Option A) → World → Result (Option A) × World
finish_or_rollback before (err e) w = (err e, record w { tables = before; poisoned = false })
finish_or_rollback before (ok none) w =
    (ok none, record w { tables = before; calls = w.calls + 1; poisoned = false })
finish_or_rollback before (ok (some a)) w = finish before (ok (some a)) w

-- The same with a body that may call `tx.Rollback()` itself, by returning none.
unfoldable pub transaction_or_rollback {ℓ} : {A : Type ℓ} → Db (Option A) → Db (Option A)
transaction_or_rollback body w =
    let w' = record w { calls = w.calls + 1; poisoned = false } in
    let end = body w' in
    if w.env.fault w.calls
    then (err failed, record w { calls = w.calls + 1 })
    else finish_or_rollback w.tables end.0 end.1

-- `crypto/rand.Read`.
unfoldable pub draw_random : Db String
draw_random w =
    let w' = record w { randoms = w.randoms + 1 } in
    elim (w.env.random w.randoms) [ none ↦ (err no_entropy, w') | some s ↦ (ok s, w') ]

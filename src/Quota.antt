-- ===== src/Quota.antt =====
-- internal/monthlycontexttranslation/repo.go: how many translations a user without Pro has used in a
-- calendar month. A period key stands for its month, which `Env.month_of` tells.
use foreignreader_be.Base.{
  ℕ, ◌+◌, Bool, ◌&&◌, ◌||◌, not, Option, none, some, ◌∷◌, ◌==◌, ltb, if◌then◌else◌, find?, any,
  update,
}
use foreignreader_be.Schema.{Quota, Tables}
use foreignreader_be.Db.{Result, ok, err, Db, Stmt, query, no_rows, violation}

-- `user_id = $1 AND period_key = $2`.
abbrev pub is_period : ℕ → ℕ → Quota → Bool
is_period user period q = q.user_id == user && q.period_key == period

-- The range of the INTEGER columns, which are not negative.
abbrev pub fits_integer : ℕ → Bool
fits_integer n = ltb n 0x80000000

abbrev pub fresh_quota : ℕ → ℕ → ℕ → Quota
fresh_quota user period limit = record {
  user_id = user;
  period_key = period;
  monthly_limit = limit;
  used_count = 0;
}

-- InsertInitial.
unfoldable pub insert_initial : ℕ → ℕ → ℕ → Stmt (Unit {0})
insert_initial user period limit env t =
    if any (is_period user period) t.quotas || not (fits_integer limit)
    then err violation
    else ok (tt, record t { quotas = fresh_quota user period limit ∷ t.quotas })

abbrev pub ensured : ℕ → ℕ → ℕ → Tables → Option Quota → Quota × Tables
ensured user period limit t none =
    (fresh_quota user period limit, record t { quotas = fresh_quota user period limit ∷ t.quotas })
ensured user period limit t (some q) = (q, t)

unfoldable pub ensure_row : ℕ → ℕ → Stmt Quota
ensure_row user limit env t =
    if fits_integer limit
    then ok (
        ensured user (env.month_of env.now) limit t
          (find? (is_period user (env.month_of env.now)) t.quotas))
    else err violation

-- EnsureCurrentMonthRow.
unfoldable pub ensure_current_month_row : ℕ → ℕ → Db Quota
ensure_current_month_row user limit = query (ensure_row user limit)

abbrev pub used_once_more : Quota → Quota
used_once_more q = record q { used_count = q.used_count + 1 }

abbrev pub incremented : ℕ → ℕ → Tables → Option Quota → Result (Quota × Tables)
incremented user period t none = err no_rows
incremented user period t (some q) =
    if fits_integer (q.used_count + 1)
    then ok (
      used_once_more q,
      record t { quotas = update (is_period user period) used_once_more t.quotas },
    )
    else err violation

unfoldable pub increment_row : ℕ → ℕ → Stmt Quota
increment_row user period env t = incremented user period t (find? (is_period user period) t.quotas)

-- IncrementUsedCount.
unfoldable pub increment_used_count : ℕ → ℕ → Db Quota
increment_used_count user period = query (increment_row user period)

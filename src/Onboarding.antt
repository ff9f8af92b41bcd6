-- ===== src/Onboarding.antt =====
-- internal/onboardingsession/store.go: opaque tokens for trying the translation before an account
-- exists. SHA-256 is a parameter; the random bytes come encoded.
pub mod Life
pub mod Routes
use foreignreader_be.Base.{
  ℕ, ◌+◌, ◌-◌, ◌*◌, String, str_eq, Bool, true, false, ◌&&◌, ◌||◌, not, List, ◌∷◌, Option, none,
  some, ltb, ◌==◌, if◌then◌else◌, any, find?, update, select, length, ℤ, is_positive, to_ℕ,
  trim_space, is_empty,
}
use foreignreader_be.Schema.{Status, OnboardingToken, Tables}
use foreignreader_be.Db.{
  violation, token_invalid, token_expired, token_revoked, insufficient_scope, bad_ttl, ok, err, Db,
  Stmt, fail, pure, get_now, query, draw_random, ◌>>=◌, ◌>>◌,
}

abbrev pub scope_onboarding_translate : String
scope_onboarding_translate = "onboarding_translate"

-- `sql.NullString` of a trimmed text, and nullableString.
abbrev pub nullable_string : String → Option String
nullable_string s = if is_empty s then none else some s

abbrev pub new_token : ℕ → String → String → String → String → String → ℕ → ℕ → OnboardingToken
new_token id hash app_version device platform ip now expires = record {
  id = id;
  token_hash = hash;
  device_session_id = nullable_string (trim_space device);
  platform = nullable_string (trim_space platform);
  app_version = trim_space app_version;
  scope = scope_onboarding_translate;
  status = Status.active;
  issued_at = now;
  expires_at = expires;
  revoked_at = none;
  created_ip = nullable_string (trim_space ip);
  last_used_at = none;
  last_used_ip = none;
}

-- The INSERT of Issue, under the UNIQUE constraint on the hash.
unfoldable pub insert_token : String → String → String → String → String → ℕ → Stmt (Unit {0})
insert_token hash app_version device platform ip expires env t =
    if any (λ r. str_eq r.token_hash hash) t.onboarding_tokens
    then err violation
    else ok (
      tt,
      record t {
        onboarding_tokens =
            new_token (env.uuid t.drawn) hash app_version device platform ip env.now expires
            ∷ t.onboarding_tokens;
        drawn = t.drawn + 1;
      },
    )

abbrev pub token_by_hash : String → Stmt (Option OnboardingToken)
token_by_hash hash env t = ok (find? (λ r. str_eq r.token_hash hash) t.onboarding_tokens, t)

-- The UPDATE of ValidateAndTouch.
unfoldable pub touch : ℕ → String → Stmt (Unit {0})
touch id ip env t = ok (
  tt,
  record t {
    onboarding_tokens =
        update (λ r. r.id == id)
          (λ r. record r { last_used_at = some env.now; last_used_ip = nullable_string ip })
          t.onboarding_tokens;
  },
)

abbrev pub is_revoked : Status → Bool
is_revoked Status.revoked = true
is_revoked Status.active = false
is_revoked Status.expired = false

abbrev pub is_expired : Status → Bool
is_expired Status.expired = true
is_expired Status.active = false
is_expired Status.revoked = false

abbrev pub accept : String → ℕ → Option OnboardingToken → Db ℕ
accept ip now none = fail token_invalid
accept ip now (some r) =
    if is_revoked r.status
    then fail token_revoked
    else if is_expired r.status || not (ltb now r.expires_at)
    then fail token_expired
    else if not (str_eq r.scope scope_onboarding_translate)
    then fail insufficient_scope
    else (do query (touch r.id (trim_space ip)); pure r.id)

-- `cutoff` minus the retention; Go's zero time is the earliest instant here.
abbrev pub is_old : ℕ → OnboardingToken → Bool
is_old cutoff r =
    ltb r.expires_at cutoff || elim r.revoked_at [ none ↦ false | some at ↦ ltb at cutoff ]

unfoldable pub delete_old : ℕ → Stmt ℕ
delete_old cutoff env t = ok (
  length (select (is_old cutoff) t.onboarding_tokens),
  record t { onboarding_tokens = select (λ r. not (is_old cutoff r)) t.onboarding_tokens },
)

-- CleanupOld; 30 days are 2592000000000000 ns.
unfoldable pub cleanup_old : ℤ → Db ℕ
cleanup_old retention = do
  now ← get_now
  query (delete_old (now - (if is_positive retention then to_ℕ retention else 2592000000000000)))

module _ (hash_token : String → String) where
  -- Issue.
  unfoldable pub issue : String → String → String → String → ℤ → Db (String × ℕ)
  issue app_version device platform ip ttl = if not (is_positive ttl) then fail bad_ttl else (do
    raw ← draw_random
    now ← get_now
    query (insert_token (hash_token raw) app_version device platform ip (now + to_ℕ ttl))
    pure (raw, now + to_ℕ ttl))

  -- ValidateAndTouch.
  unfoldable pub validate_and_touch : String → String → Db ℕ
  validate_and_touch raw ip = if is_empty (trim_space raw) then fail token_invalid else (do
    row ← query (token_by_hash (hash_token (trim_space raw)))
    now ← get_now
    accept ip now row)

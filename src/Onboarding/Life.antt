-- ===== src/Onboarding/Life.antt =====
-- The life of a token.
use foreignreader_be.Base.{
  ℕ, ◌-◌, if◌then◌else◌, is_positive, to_ℕ, ◌≡◌, ◌<◌, ◌⊎◌, inl, inr, refl, String, str_eq, eq_iff,
  false, not, Option, none, some, List, [], ◌∷◌, find?, ap, ◌∙◌, Option-cases, arith, ℤ, trim_space,
  is_empty, select,
}
use foreignreader_be.Schema.{Status, OnboardingToken, Tables}
use foreignreader_be.Db.{ok, err, failed, World, query, draw_random}
use foreignreader_be.Onboarding.{
  scope_onboarding_translate, insert_token, touch, new_token, issue, validate_and_touch, is_old,
  delete_old, cleanup_old,
}

abbrev pub by_hash : String → Tables → Option OnboardingToken
by_hash h t = find? (λ r. str_eq r.token_hash h) t.onboarding_tokens

find?-select :
    (h : String) (cutoff : ℕ) (r : OnboardingToken) (rs : List OnboardingToken)
    → find? (λ r. str_eq r.token_hash h) rs ≡ some r
    → is_old cutoff r ≡ false
    → find? (λ r. str_eq r.token_hash h) (select (λ r. not (is_old cutoff r)) rs) ≡ some r
find?-select h cutoff r [] found young = cc
find?-select h cutoff r (x ∷ xs) found young = ground (arith, find?-select h cutoff r xs)

-- A cleanup, whatever retention it is given and however it ends, keeps the rows of the tokens that
-- are not revoked and have not expired.
pub cleanup_old-keeps :
    (retention : ℤ) (h : String) (r : OnboardingToken) (w : World)
    → by_hash h w.tables ≡ some r
    → r.revoked_at ≡ none
    → w.env.now < r.expires_at
    → by_hash h (cleanup_old retention w).1.tables ≡ some r
unfolding cleanup_old query delete_old
cleanup_old-keeps retention h r w found live early =
    let cutoff = w.env.now - (if is_positive retention then to_ℕ retention else 2592000000000000) in
    let young : is_old cutoff r ≡ false = ground arith in
    ground (arith, find?-select h cutoff r w.tables.onboarding_tokens found young)

module _ (hash : String → String) where
  issue-ok :
      (app device platform ip : String) (ttl : ℤ) (w : World) {raw : String} {expires : ℕ}
      → (issue hash app device platform ip ttl w).0 ≡ ok (raw, expires)
      → (by_hash (hash raw) (issue hash app device platform ip ttl w).1.tables
          ≡ some (
              new_token
                (w.env.uuid w.tables.drawn)
                (hash raw)
                app
                device
                platform
                ip
                w.env.now
                expires))
        × (w.env.now < expires)
  unfolding issue draw_random query insert_token
  issue-ok app device platform ip ttl w {raw} {expires} h =
      (ground (arith, (eq_iff (hash raw) (hash raw)).1 refl), ground arith)

  -- A token that validates is that of a row that is neither revoked nor expired, has the scope, and
  -- expires later; the row's id is answered.
  pub validate_and_touch-ok :
      (raw ip : String) (w : World) {id : ℕ}
      → (validate_and_touch hash raw ip w).0 ≡ ok id
      → (r : OnboardingToken) × (by_hash (hash (trim_space raw)) w.tables ≡ some r)
        × (r.id ≡ id)
        × (r.status ≡ Status.active)
        × (w.env.now < r.expires_at)
        × (r.scope ≡ scope_onboarding_translate)
  unfolding validate_and_touch query
  validate_and_touch-ok raw ip w {id} h =
      elim (Option-cases (by_hash (hash (trim_space raw)) w.tables)) [
        | inl nothing ↦ absurd (ground arith)
        | inr (r, found) ↦ (
          r,
          found,
          ground arith,
          ground arith,
          ground arith,
          (eq_iff r.scope scope_onboarding_translate).0 (ground arith),
        )
      ]

  -- A token that was issued, and is not empty nor has blanks around it, validates as long as it has
  -- not expired, in every world with the tables that issuing it left, or the database fails.
  pub validate_and_touch-issue :
      (app device platform ip ip' raw : String) (ttl : ℤ) (expires : ℕ) (w w' : World)
      → (issue hash app device platform ip ttl w).0 ≡ ok (raw, expires)
      → trim_space raw ≡ raw
      → is_empty raw ≡ false
      → w'.tables ≡ (issue hash app device platform ip ttl w).1.tables
      → w'.env.now < expires
      → ((validate_and_touch hash raw ip' w').0 ≡ ok (w.env.uuid w.tables.drawn))
        ⊎ ((validate_and_touch hash raw ip' w').0 ≡ err failed)
  unfolding validate_and_touch query touch
  validate_and_touch-issue app device platform ip ip' raw ttl expires w w' h trimmed full same
        early =
      let found : by_hash (hash raw) w'.tables
          ≡ some (
              new_token (w.env.uuid w.tables.drawn) (hash raw) app device platform ip w.env.now
                expires) =
        ap (by_hash (hash raw)) same ∙ (issue-ok app device platform ip ttl w h).0 in
      rw trimmed (
        ground (
          arith,
          found,
          full,
          (eq_iff scope_onboarding_translate scope_onboarding_translate).1 refl,
        ))

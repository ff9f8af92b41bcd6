-- ===== src/Profile/Attempt.antt =====
-- What is read back of an attempt to rate the app, and of a storefront.
use foreignreader_be.Base.{
  ℕ, ◌≤◌, ◌≡◌, ◌≢◌, refl, ◌⊎◌, String, Bool, true, List, [], ◌∷◌, Option, none, some, arith, ◌==◌,
  find?, update, trim_space, false, is_empty,
}
use Prim.Native.Char.{Char}
use foreignreader_be.Schema.{User, RatePrompt}
use foreignreader_be.Db.{failed, ok, err, World, query}
use foreignreader_be.Http.{success}
use foreignreader_be.Auth.User.{is_user}
use foreignreader_be.Profile.{
  RateState, state_of_row, prompt_of, get_rate_state, new_prompt, attempted_again, upserted,
  upsert_attempt_row, upsert_attempt, handle_rate_us_attempt, with_storefront, user_of_id,
  map_chars, byte_len, update_app_storefront, StorefrontResponse, normalize_app_storefront,
  handle_put_user_storefront,
}

find?-attempted :
    (user other : ℕ) (version : String) (at now : ℕ) (rs : List RatePrompt)
    → (other ≢ user
        → find?
            (λ r. r.user_id == other)
            (update (λ r. r.user_id == user) (attempted_again version at now) rs)
          ≡ find? (λ r. r.user_id == other) rs)
      × ((r : RatePrompt)
          → find? (λ r. r.user_id == user) rs ≡ some r
          → find?
              (λ r. r.user_id == user)
              (update (λ r. r.user_id == user) (attempted_again version at now) rs)
            ≡ some (attempted_again version at now r))
find?-attempted user other version at now [] = ((λ ne. refl), (λ r h. cc))
find?-attempted user other version at now (x ∷ rs) = (
  (λ ne. ground (arith, (find?-attempted user other version at now rs).0 ne)),
  (λ r h. ground (arith, (find?-attempted user other version at now rs).1 r)),
)

upserted-prompt :
    (user : ℕ) (version : String) (at now : ℕ) (rs : List RatePrompt) (o : Option RatePrompt)
    → find? (λ r. r.user_id == user) rs ≡ o
    → ((r : RatePrompt) × (find? (λ r. r.user_id == user) (upserted user version at now o rs)
          ≡ some r)
        × (r.last_attempt_at ≡ at)
        × (r.last_attempt_app_version ≡ version))
      × ((other : ℕ)
          → other ≢ user
          → find? (λ r. r.user_id == other) (upserted user version at now o rs)
            ≡ find? (λ r. r.user_id == other) rs)
upserted-prompt user version at now rs none h =
    ((new_prompt user version at now, ground arith, refl, refl), λ other ne. ground arith)
upserted-prompt user version at now rs (some r) h = (
  (
    attempted_again version at now r,
    (find?-attempted user user version at now rs).1 r h,
    refl,
    refl,
  ),
  λ other ne. (find?-attempted user other version at now rs).0 ne,
)

upsert_attempt-prompt :
    (user : ℕ) (version : String) (at : ℕ) (w : World) {s : RateState}
    → (upsert_attempt user version at w).0 ≡ ok s
    → let t = (upsert_attempt user version at w).1.tables in
      (state_of_row (prompt_of user t) ≡ some s)
      × (s.last_attempt_at ≡ at)
      × ((other : ℕ) → other ≢ user → prompt_of other t ≡ prompt_of other w.tables)
unfolding upsert_attempt upsert_attempt_row query
upsert_attempt-prompt user version at w h =
    let rows = w.tables.rate_prompts in
    let ((r, found, same_at, same_version), others) =
      upserted-prompt user (trim_space version) at w.env.now rows (prompt_of user w.tables) refl in
    (
      ground (arith, found, same_at, same_version),
      ground arith,
      λ other ne. ground (arith, others other ne),
    )

attempt-ok :
    (u : User) (is_json : Bool) (version : String) (w : World) {s : RateState}
    → (handle_rate_us_attempt (some u) is_json (some version) w).0 ≡ success s
    → ((upsert_attempt u.id (trim_space version) w.env.now w).0 ≡ ok s)
      × ((upsert_attempt u.id (trim_space version) w.env.now w).1.tables
          ≡ (handle_rate_us_attempt (some u) is_json (some version) w).1.tables)
unfolding handle_rate_us_attempt
attempt-ok u is_json version w h = (ground arith, ground arith)

get_rate_state-stored :
    (user : ℕ) (w : World) {s : RateState}
    → state_of_row (prompt_of user w.tables) ≡ some s
    → ((get_rate_state user w).0 ≡ ok (some s)) ⊎ ((get_rate_state user w).0 ≡ err failed)
unfolding get_rate_state query
get_rate_state-stored user w h = ground arith

-- An attempt to rate the app that is answered with success is dated now. In every world with the
-- tables that it left, Get gives the user what the answer said, or the database fails; the rows of
-- other users are as before.
pub handle_rate_us_attempt-stored :
    (u : User) (is_json : Bool) (version : String) (w w' : World) {s : RateState}
    → (handle_rate_us_attempt (some u) is_json (some version) w).0 ≡ success s
    → w'.tables ≡ (handle_rate_us_attempt (some u) is_json (some version) w).1.tables
    → (s.last_attempt_at ≡ w.env.now)
      × (((get_rate_state u.id w').0 ≡ ok (some s)) ⊎ ((get_rate_state u.id w').0 ≡ err failed))
      × ((other : ℕ) → other ≢ u.id → prompt_of other w'.tables ≡ prompt_of other w.tables)
handle_rate_us_attempt-stored u is_json version w w' h same =
    let (done, tables) = attempt-ok u is_json version w h in
    let (stored, at, others) = upsert_attempt-prompt u.id (trim_space version) w.env.now w done in
    (
      at,
      get_rate_state-stored u.id w' (rw (same, ← tables) stored),
      λ other ne. rw (same, ← tables) (others other ne),
    )

module _ (to_upper : Char → Char) where
  -- The bound is one of bytes, and holds after the change of case.
  normalize_app_storefront-upper :
      (s : String) {t : String}
      → normalize_app_storefront to_upper s ≡ some t
      → (is_empty (trim_space s) ≡ false)
        × (t ≡ map_chars to_upper (trim_space s))
        × (byte_len t ≤ 16)
  unfolding normalize_app_storefront
  normalize_app_storefront-upper s h = (ground arith, ground arith, ground arith)

  find?-storefront :
      (id now : ℕ) (s : String) (us : List User) {u : User}
      → find? (λ u. u.id == id) us ≡ some u
      → find? (λ u. u.id == id) (update (λ u. u.id == id) (with_storefront s now) us)
        ≡ some (with_storefront s now u)
  find?-storefront id now s [] h = cc
  find?-storefront id now s (x ∷ us) {u} h = ground (arith, find?-storefront id now s us {u = u})

  find?-other :
      (id other now : ℕ) (s : String) (us : List User)
      → other ≢ id
      → find? (λ u. u.id == other) (update (λ u. u.id == id) (with_storefront s now) us)
        ≡ find? (λ u. u.id == other) us
  find?-other id other now s [] ne = refl
  find?-other id other now s (x ∷ us) ne = ground (arith, find?-other id other now s us ne)

  put-ok :
      (u : User) (is_json : Bool) (s : String) (w : World) {r : StorefrontResponse}
      → (handle_put_user_storefront to_upper (some u) is_json (some s) w).0 ≡ success r
      → (normalize_app_storefront to_upper s ≡ some r.app_storefront)
        × (is_user u.id w.tables ≡ true)
        × (r.updated_at ≡ w.env.now)
        × ((handle_put_user_storefront to_upper (some u) is_json (some s) w).1.tables.users
            ≡ update
                (λ x. x.id == u.id)
                (with_storefront r.app_storefront w.env.now)
                w.tables.users)
  unfolding handle_put_user_storefront update_app_storefront query
  put-ok u is_json s w h = (ground arith, ground arith, ground arith, ground arith)

  -- A storefront that is put and answered with success is not blank. It is trimmed and put in upper
  -- case, character by character, and then has at most 16 bytes; the answer gives this text and the
  -- present instant. The user's row gets both and is otherwise as it was; so are the rows of other
  -- users.
  pub handle_put_user_storefront-stored :
      (u : User) (is_json : Bool) (s : String) (w : World) {r : StorefrontResponse}
      → (handle_put_user_storefront to_upper (some u) is_json (some s) w).0 ≡ success r
      → let t = (handle_put_user_storefront to_upper (some u) is_json (some s) w).1.tables in
        (is_empty (trim_space s) ≡ false)
        × (r.app_storefront ≡ map_chars to_upper (trim_space s))
        × (byte_len r.app_storefront ≤ 16)
        × (r.updated_at ≡ w.env.now)
        × ((old : User)
            → user_of_id u.id w.tables ≡ some old
            → user_of_id u.id t
              ≡ some (record old {
                app_storefront = some r.app_storefront;
                app_storefront_updated_at = some r.updated_at;
              }))
        × ((other : ℕ) → other ≢ u.id → user_of_id other t ≡ user_of_id other w.tables)
  handle_put_user_storefront-stored u is_json s w {r} h =
      let (normal, there, at, users) = put-ok u is_json s w h in
      let (full, upper, bound) = normalize_app_storefront-upper s normal in
      (
        full,
        upper,
        bound,
        at,
        (λ old e.
            rw (users, at) (find?-storefront u.id w.env.now r.app_storefront w.tables.users e)),
        (λ other ne.
            rw users (find?-other u.id other w.env.now r.app_storefront w.tables.users ne)),
      )

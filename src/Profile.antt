-- ===== src/Profile.antt =====
-- What a user sees and changes of the own account: internal/rateus/store.go,
-- internal/auth/storefront.go, and the handlers of internal/server/routes_rate_us.go and
-- routes_users.go, and handleAuthMe of routes_auth.go. They run behind bearerAuthHandler, which
-- gives them the user, or none if nobody is signed in.
pub mod Attempt
use foreignreader_be.Base.{
  ℕ, ◌+◌, String, str_eq, Bool, true, false, ◌||◌, not, List, [], ◌∷◌, Option, none, some, leb, ltb,
  ◌==◌, if◌then◌else◌, any, find?, update, trim_space, is_empty,
}
use Prim.Native.Char.{Char, code}
use foreignreader_be.Schema.{User, RatePrompt, Tables}
use foreignreader_be.Db.{Error, no_rows, violation, Result, ok, err, Env, World, Db, Stmt, query}
use foreignreader_be.Http.{Response, success, api_error, Handler, reject, reject_if}
use foreignreader_be.Entitlement.{is_owner}
use foreignreader_be.Auth.User.{is_user}

-- State of internal/rateus.
pub record RateState : Type 0 where
  pub last_attempt_at : ℕ
  pub last_attempt_app_version : String

abbrev pub state_of : RatePrompt → RateState
state_of r = record {
  last_attempt_at = r.last_attempt_at;
  last_attempt_app_version = trim_space r.last_attempt_app_version;
}

abbrev pub state_of_row : Option RatePrompt → Option RateState
state_of_row none = none
state_of_row (some r) = some (state_of r)

-- `WHERE user_id = $1`.
abbrev pub prompt_of : ℕ → Tables → Option RatePrompt
prompt_of user t = find? (λ (r : RatePrompt). r.user_id == user) t.rate_prompts

-- Get.
unfoldable pub get_rate_state : ℕ → Db (Option RateState)
get_rate_state user = query λ env t. ok (state_of_row (prompt_of user t), t)

abbrev pub new_prompt : ℕ → String → ℕ → ℕ → RatePrompt
new_prompt user version at now = record {
  user_id = user;
  last_attempt_at = at;
  last_attempt_app_version = version;
  created_at = now;
  updated_at = now;
}

abbrev pub attempted_again : String → ℕ → ℕ → RatePrompt → RatePrompt
attempted_again version at now r = record r {
  last_attempt_at = at;
  last_attempt_app_version = version;
  updated_at = now;
}

-- `INSERT … ON CONFLICT (user_id) DO UPDATE …`.
abbrev pub upserted : ℕ → String → ℕ → ℕ → Option RatePrompt → List RatePrompt → List RatePrompt
upserted user version at now none rs = new_prompt user version at now ∷ rs
upserted user version at now (some r) rs =
    update (λ r. r.user_id == user) (attempted_again version at now) rs

-- The statement of UpsertAttempt, under the CHECK on the version and the reference to `users`.
unfoldable pub upsert_attempt_row : ℕ → String → ℕ → Stmt RateState
upsert_attempt_row user version at env t =
    if is_empty version || not (is_user user t)
    then err violation
    else ok (
      record { last_attempt_at = at; last_attempt_app_version = trim_space version },
      record t {
        rate_prompts = upserted user version at env.now (prompt_of user t) t.rate_prompts;
      },
    )

-- UpsertAttempt.
unfoldable pub upsert_attempt : ℕ → String → ℕ → Db RateState
unfolding upsert_attempt_row
upsert_attempt user version at = query (upsert_attempt_row user (trim_space version) at)

abbrev recorded : Result RateState × World → Response RateState × World
recorded (ok s, w) = (success s, w)
recorded (err e, w) = (api_error 500 "internal_error", w)

abbrev attempt_decoded : User → Option String → Handler RateState
attempt_decoded u none = reject 400 "invalid_request"
attempt_decoded u (some version) =
    reject_if (is_empty (trim_space version)) 400 "invalid_request"
      (λ w. recorded (upsert_attempt u.id (trim_space version) w.env.now w))

-- handleRateUsAttempt; the body is its appVersion, or none if decoding it failed.
unfoldable pub handle_rate_us_attempt : Option User → Bool → Option String → Handler RateState
unfolding upsert_attempt
handle_rate_us_attempt none is_json body = reject 401 "unauthorized"
handle_rate_us_attempt (some u) is_json body =
    reject_if (not is_json) 415 "invalid_request" (attempt_decoded u body)

-- meResponse.
pub record Me : Type 0 where
  pub user : User
  pub rate_us : Option RateState
  pub is_owner : Bool

abbrev owner_or_false : Result Bool → Bool
owner_or_false (ok b) = b
owner_or_false (err e) = false

abbrev me : User → Result (Option RateState) × World → Response Me × World
me u (err e, w) = (api_error 500 "internal_error", w)
me u (ok s, w) = (
  success (record { user = u; rate_us = s; is_owner = owner_or_false (is_owner u.id w).0 }),
  (is_owner u.id w).1,
)

-- handleAuthMe.
unfoldable pub handle_auth_me : Option User → Handler Me
unfolding get_rate_state is_owner
handle_auth_me none = reject 401 "unauthorized"
handle_auth_me (some u) = λ w. me u (get_rate_state u.id w)

-- How many bytes UTF-8 has for a character, and `len(s)`.
abbrev pub char_len : ℕ → ℕ
char_len c = if ltb c 0x80 then 1 else if ltb c 0x800 then 2 else if ltb c 0x10000 then 3 else 4

abbrev pub byte_len : String → ℕ
byte_len String.[] = 0
byte_len (String.◌∷◌ c s) = char_len (code c) + byte_len s

abbrev pub max_app_storefront_len : ℕ
max_app_storefront_len = 16

abbrev pub map_chars : (Char → Char) → String → String
map_chars f String.[] = String.[]
map_chars f (String.◌∷◌ c s) = String.◌∷◌ (f c) (map_chars f s)

-- `SET app_storefront = $1, app_storefront_updated_at = now()`.
abbrev pub with_storefront : String → ℕ → User → User
with_storefront storefront now u = record u {
  app_storefront = some storefront;
  app_storefront_updated_at = some now;
}

abbrev pub user_of_id : ℕ → Tables → Option User
user_of_id id t = find? (λ u. u.id == id) t.users

abbrev pub storefront_row : ℕ → String → Env → Tables → Result (ℕ × Tables)
storefront_row user storefront env t =
    if is_user user t
    then ok (
      env.now,
      record t { users = update (λ u. u.id == user) (with_storefront storefront env.now) t.users },
    )
    else err no_rows

-- UpdateAppStorefront.
unfoldable pub update_app_storefront : ℕ → String → Db ℕ
update_app_storefront user storefront = query (storefront_row user storefront)

-- putStorefrontResponse.
pub record StorefrontResponse : Type 0 where
  pub app_storefront : String
  pub updated_at : ℕ

abbrev pub bounded : String → Option String
bounded s = if ltb max_app_storefront_len (byte_len s) then none else some s

module _ (to_upper : Char → Char) where
  -- NormalizeAppStorefront; `to_upper` is `unicode.ToUpper`.
  unfoldable pub normalize_app_storefront : String → Option String
  normalize_app_storefront s =
      if is_empty (trim_space s) then none else bounded (map_chars to_upper (trim_space s))

  abbrev updated : String → Result ℕ × World → Response StorefrontResponse × World
  updated s (ok at, w) = (success (record { app_storefront = s; updated_at = at }), w)
  updated s (err Error.no_rows, w) = (api_error 404 "user_not_found", w)
  updated s (err e, w) = (api_error 500 "internal_error", w)

  abbrev normalized : User → Option String → Handler StorefrontResponse
  normalized u none = reject 400 "invalid_request"
  normalized u (some s) = λ w. updated s (update_app_storefront u.id s w)

  abbrev storefront_decoded : User → Option String → Handler StorefrontResponse
  storefront_decoded u none = reject 400 "invalid_request"
  storefront_decoded u (some s) = normalized u (normalize_app_storefront s)

  -- handlePutUserStorefront; the body is its appStorefront, or none if decoding it failed.
  unfoldable pub handle_put_user_storefront :
      Option User → Bool → Option String → Handler StorefrontResponse
  unfolding update_app_storefront normalize_app_storefront
  handle_put_user_storefront none is_json body = reject 401 "unauthorized"
  handle_put_user_storefront (some u) is_json body =
      reject_if (not is_json) 415 "invalid_request" (storefront_decoded u body)

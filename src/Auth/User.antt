-- ===== src/Auth/User.antt =====
-- internal/auth/store.go: users and the identities that they sign in with. What a provider says of
-- a user comes as `MockClaimsInput`, whether it was mocked or verified.
pub mod Merge
pub mod Frame
pub mod Enrol
pub mod Login
pub mod Sessions
pub mod Again
pub mod Live
use foreignreader_be.Base.{
  ℕ, ◌+◌, String, str_eq, Bool, true, false, ◌&&◌, ◌||◌, not, ◌∷◌, Option, none, some, ◌==◌,
  if◌then◌else◌, any, find?, update, trim_space, is_empty,
}
use foreignreader_be.Schema.{User, Identity, Tables}
use foreignreader_be.Db.{
  not_configured, no_rows, violation, empty_subject, Result, ok, err, Env, Db, Stmt, pure, fail,
  query, tx_query, transaction, ◌>>=◌, ◌>>◌,
}
use foreignreader_be.Quota.{insert_initial}

pub record MockClaimsInput : Type 0 where
  pub sub : String
  pub email : Option String
  pub email_verified : Option Bool
  pub display_name : Option String
  pub avatar_url : Option String

-- `provider = $1 AND provider_user_id = $2`.
abbrev pub is_identity : String → String → Identity → Bool
is_identity provider sub i = str_eq i.provider provider && str_eq i.provider_user_id sub

-- A row of `users` with this id exists.
abbrev pub is_user : ℕ → Tables → Bool
is_user id t = any (λ u. u.id == id) t.users

-- HasIdentity.
unfoldable pub has_identity : String → String → Db Bool
has_identity provider sub = query λ env t. ok (any (is_identity provider sub) t.identities, t)

abbrev pub user_row : Tables → Option User → Result (User × Tables)
user_row t none = err no_rows
user_row t (some u) = ok (u, t)

-- UserByID.
unfoldable pub user_by_id : ℕ → Db User
user_by_id id = query λ env t. user_row t (find? (λ u. u.id == id) t.users)

abbrev pub user_of : Option Identity → Option ℕ
user_of none = none
user_of (some i) = some i.user_id

-- `SELECT u.id FROM auth_identities ai JOIN users u ON u.id = ai.user_id WHERE …`.
abbrev pub identity_user : String → String → Tables → Option ℕ
identity_user provider sub t =
    user_of (find? (λ i. is_identity provider sub i && is_user i.user_id t) t.identities)

abbrev pub select_identity_user : String → String → Stmt (Option ℕ)
select_identity_user provider sub env t = ok (identity_user provider sub t, t)

-- A value that is there and not blank, trimmed: sqlNullStringPtr, providerEmailFromMock, and the
-- fields that sqlNullStringsFromMock and mergeUser take.
unfoldable pub given : Option String → Option String
given none = none
given (some s) = if is_empty (trim_space s) then none else some (trim_space s)

-- emailVerifiedForInsert.
abbrev pub verified_or_false : Option Bool → Bool
verified_or_false none = false
verified_or_false (some b) = b

abbrev pub new_user : ℕ → ℕ → MockClaimsInput → User
new_user id now c = record {
  id = id;
  display_name = given c.display_name;
  avatar_url = given c.avatar_url;
  email = given c.email;
  email_verified = verified_or_false c.email_verified;
  app_storefront = none;
  app_storefront_updated_at = none;
  created_at = now;
  updated_at = now;
}

-- `INSERT INTO users … RETURNING id`, under the primary key.
unfoldable pub insert_user : MockClaimsInput → Stmt ℕ
insert_user c env t =
    let id = env.uuid t.drawn in
    if is_user id t
    then err violation
    else ok (id, record t { users = new_user id env.now c ∷ t.users; drawn = t.drawn + 1 })

abbrev pub new_identity : ℕ → ℕ → ℕ → String → String → Option String → Identity
new_identity id now user provider sub email = record {
  id = id;
  user_id = user;
  provider = provider;
  provider_user_id = sub;
  provider_email = email;
  created_at = now;
  updated_at = now;
}

-- The CHECK on auth_identities.provider.
abbrev pub is_provider : String → Bool
is_provider p = str_eq p "apple" || str_eq p "google"

-- `INSERT INTO auth_identities …`, under the CHECK, the reference to `users` and the UNIQUE
-- constraint on (provider, provider_user_id).
unfoldable pub insert_identity : ℕ → String → String → Option String → Stmt (Unit {0})
insert_identity user provider sub email env t =
    if not (is_provider provider)
      || not (is_user user t)
      || any (is_identity provider sub) t.identities
    then err violation
    else ok (
      tt,
      record t {
        identities = new_identity (env.uuid t.drawn) env.now user provider sub email ∷ t.identities;
        drawn = t.drawn + 1;
      },
    )

-- InsertInitial for the month of `time.Now()`.
unfoldable pub insert_first_quota : ℕ → ℕ → Stmt (Unit {0})
unfolding insert_initial
insert_first_quota user limit env t = insert_initial user (env.month_of env.now) limit env t

-- insertUserAndIdentity; `limit` is the store's FreeContextTranslationsPerMonth.
unfoldable pub insert_user_and_identity : ℕ → String → String → MockClaimsInput → Db ℕ
insert_user_and_identity limit provider sub c = do
  id ← tx_query (insert_user c)
  tx_query (insert_identity id provider sub (given c.email))
  tx_query (insert_first_quota id limit)
  pure id

abbrev pub or_old {ℓ} : {A : Type ℓ} → Option A → A → A
or_old none old = old
or_old (some new) old = new

abbrev pub or_old_value : Option String → Option String → Option String
or_old_value none old = old
or_old_value (some new) old = some new

-- The `SET` list of mergeUser.
abbrev pub merged_user : MockClaimsInput → ℕ → User → User
merged_user c now u = record u {
  display_name = or_old_value (given c.display_name) u.display_name;
  avatar_url = or_old_value (given c.avatar_url) u.avatar_url;
  email = or_old_value (given c.email) u.email;
  email_verified = or_old c.email_verified u.email_verified;
  updated_at = now;
}

abbrev pub is_none {ℓ} : {A : Type ℓ} → Option A → Bool
is_none none = true
is_none (some a) = false

-- `len(parts) == 0`.
abbrev pub says_nothing : MockClaimsInput → Bool
says_nothing c =
    is_none (given c.display_name)
    && (is_none (given c.avatar_url) && (is_none (given c.email) && is_none c.email_verified))

unfoldable pub update_user : ℕ → MockClaimsInput → Stmt (Unit {0})
update_user id c env t =
    ok (tt, record t { users = update (λ u. u.id == id) (merged_user c env.now) t.users })

-- mergeUser.
unfoldable pub merge_user : ℕ → MockClaimsInput → Db (Unit {0})
merge_user id c = if says_nothing c then pure tt else tx_query (update_user id c)

abbrev pub with_email : String → ℕ → Identity → Identity
with_email email now i = record i { provider_email = some email; updated_at = now }

unfoldable pub update_identity_email : String → String → String → Stmt (Unit {0})
update_identity_email provider sub email env t = ok (
  tt,
  record t {
    identities = update (is_identity provider sub) (with_email email env.now) t.identities;
  },
)

abbrev pub on_email : String → String → Option String → Db (Unit {0})
on_email provider sub none = pure tt
on_email provider sub (some email) = tx_query (update_identity_email provider sub email)

-- mergeIdentityEmail.
unfoldable pub merge_identity_email : String → String → MockClaimsInput → Db (Unit {0})
merge_identity_email provider sub c = on_email provider sub (given c.email)

-- The user exists: the claims are merged into the user and the identity.
unfoldable pub merge_claims : String → String → MockClaimsInput → ℕ → Db ℕ
merge_claims provider sub c id = do merge_user id c; merge_identity_email provider sub c; pure id

abbrev pub login_or_register_row : ℕ → String → String → MockClaimsInput → Option ℕ → Db ℕ
login_or_register_row limit provider sub c none = insert_user_and_identity limit provider sub c
login_or_register_row limit provider sub c (some id) = merge_claims provider sub c id

abbrev pub login_existing_row : String → String → MockClaimsInput → Option ℕ → Db ℕ
login_existing_row provider sub c none = fail no_rows
login_existing_row provider sub c (some id) = merge_claims provider sub c id

-- The transaction of LoginOrRegisterMock.
abbrev pub register_body : ℕ → String → String → MockClaimsInput → Db ℕ
register_body limit provider sub c = do
  row ← tx_query (select_identity_user provider sub)
  login_or_register_row limit provider sub c row

-- The transaction of LoginExistingByIdentity.
abbrev pub existing_body : String → String → MockClaimsInput → Db ℕ
existing_body provider sub c = do
  row ← tx_query (select_identity_user provider sub)
  login_existing_row provider sub c row

-- LoginOrRegisterMock; `configured` is `s.DB != nil`.
unfoldable pub login_or_register_mock : Bool → ℕ → String → MockClaimsInput → Db User
unfolding insert_user_and_identity merge_claims user_by_id
login_or_register_mock configured limit provider c =
    if not configured
    then fail not_configured
    else if is_empty (trim_space c.sub)
    then fail empty_subject
    else (do id ← transaction (register_body limit provider (trim_space c.sub) c); user_by_id id)

-- LoginExistingByIdentity.
unfoldable pub login_existing_by_identity : Bool → String → MockClaimsInput → Db User
unfolding merge_claims user_by_id
login_existing_by_identity configured provider c =
    if not configured
    then fail not_configured
    else if is_empty (trim_space c.sub)
    then fail empty_subject
    else (do id ← transaction (existing_body provider (trim_space c.sub) c); user_by_id id)

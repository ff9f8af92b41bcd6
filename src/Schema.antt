-- ===== src/Schema.antt =====
-- The database: one record for each table that migrations/*.up.sql creates and the modelled code
-- uses, and the enumerations of their CHECK constraints. Ids are uuids as numbers, 0 is
-- `uuid.Nil`. Instants are nanoseconds since Go's zero time, so that 0 is `time.Time{}`.
use foreignreader_be.Base.{ℕ, ◌≡◌, String, Bool, true, false, List, Option, ◌==◌, arith, ℤ}

-- The CHECK on entitlements.status.
pub data Status : Type 0 where
  active expired revoked : Status

-- The CHECK on entitlements.source, after the last migration.
pub data Source : Type 0 where
  dev owner admin internal apple_iap external promo gift friend_lifetime stripe : Source

abbrev pub is_active : Status → Bool
is_active active = true
is_active expired = false
is_active revoked = false

abbrev pub source_rank : Source → ℕ
source_rank dev = 0
source_rank owner = 1
source_rank admin = 2
source_rank internal = 3
source_rank apple_iap = 4
source_rank external = 5
source_rank promo = 6
source_rank gift = 7
source_rank friend_lifetime = 8
source_rank stripe = 9

-- `source = 's'` in a query.
unfoldable pub source_eq : Source → Source → Bool
source_eq a b = source_rank a == source_rank b

pub record Entitlement : Type 0 where
  pub id : ℕ
  pub user_id : ℕ
  pub product_code : String
  pub status : Status
  pub source : Source
  pub starts_at : ℕ
  pub expires_at : Option ℕ
  pub created_at : ℕ
  pub updated_at : ℕ

-- monthly_context_translation_quotas; a period key stands for its month.
pub record Quota : Type 0 where
  pub user_id : ℕ
  pub period_key : ℕ
  pub monthly_limit : ℕ
  pub used_count : ℕ

-- reading_positions; a progress fraction (a float) is only stored and returned.
pub record Position : Type 0 where
  pub user_id : ℕ
  pub book_fingerprint : String
  pub chapter_id : String
  pub character_offset : ℤ
  pub progress_fraction : Option ℕ
  pub device_id : String
  pub updated_at : ℕ

-- auth_sessions.revoke_reason, as the two constants that are written.
pub data RevokeReason : Type 0 where
  rotated logout : RevokeReason

-- auth_sessions.
pub record Session : Type 0 where
  pub id : ℕ
  pub user_id : ℕ
  pub provider : String
  pub refresh_token_hash : String
  pub expires_at : ℕ
  pub revoked_at : Option ℕ
  pub revoke_reason : Option RevokeReason
  pub replaced_by_session_id : Option ℕ
  pub last_used_at : ℕ
  pub created_at : ℕ
  pub updated_at : ℕ

-- stripe_customers.
pub record StripeCustomer : Type 0 where
  pub user_id : ℕ
  pub stripe_customer_id : String

-- apple_iap_products.
pub record AppleProduct : Type 0 where
  pub apple_product_id : String
  pub product_code : String

-- The CHECK on apple_iap_subscriptions.status.
pub data SubStatus : Type 0 where
  active expired revoked grace_period billing_retry : SubStatus

-- The CHECK on apple_iap_subscriptions.environment.
pub data Environment : Type 0 where
  sandbox production : Environment

-- apple_iap_subscriptions.
pub record AppleSubscription : Type 0 where
  pub user_id : ℕ
  pub apple_product_id : String
  pub product_code : String
  pub original_transaction_id : String
  pub latest_transaction_id : Option String
  pub status : SubStatus
  pub environment : Environment
  pub purchased_at : Option ℕ
  pub expires_at : Option ℕ

-- apple_iap_events, as far as it is read back.
pub record AppleEvent : Type 0 where
  pub notification_uuid : String
  pub notification_type : String
  pub processed_at : Option ℕ

-- onboarding_access_tokens.status and .scope.
pub record OnboardingToken : Type 0 where
  pub id : ℕ
  pub token_hash : String
  pub device_session_id : Option String
  pub platform : Option String
  pub app_version : String
  pub scope : String
  pub status : Status
  pub issued_at : ℕ
  pub expires_at : ℕ
  pub revoked_at : Option ℕ
  pub created_ip : Option String
  pub last_used_at : Option ℕ
  pub last_used_ip : Option String

-- users.
pub record User : Type 0 where
  pub id : ℕ
  pub display_name : Option String
  pub avatar_url : Option String
  pub email : Option String
  pub email_verified : Bool
  pub app_storefront : Option String
  pub app_storefront_updated_at : Option ℕ
  pub created_at : ℕ
  pub updated_at : ℕ

-- auth_identities.
pub record Identity : Type 0 where
  pub id : ℕ
  pub user_id : ℕ
  pub provider : String
  pub provider_user_id : String
  pub provider_email : Option String
  pub created_at : ℕ
  pub updated_at : ℕ

-- user_rate_prompt_state.
pub record RatePrompt : Type 0 where
  pub user_id : ℕ
  pub last_attempt_at : ℕ
  pub last_attempt_app_version : String
  pub created_at : ℕ
  pub updated_at : ℕ

-- The tables, and how many ids `gen_random_uuid` has given to their rows.
pub record Tables : Type 0 where
  pub users : List User
  pub identities : List Identity
  pub rate_prompts : List RatePrompt
  pub entitlements : List Entitlement
  pub quotas : List Quota
  pub positions : List Position
  pub sessions : List Session
  pub stripe_customers : List StripeCustomer
  pub stripe_events : List String
  pub apple_products : List AppleProduct
  pub apple_subscriptions : List AppleSubscription
  pub apple_events : List AppleEvent
  pub onboarding_tokens : List OnboardingToken
  pub drawn : ℕ

-- `source_eq` decides equality.
pub source_eq-eq : (a b : Source) → source_eq a b ≡ true → a ≡ b
unfolding source_eq
source_eq-eq a b h = ground arith

pub source_eq_refl : (a : Source) → source_eq a a ≡ true
unfolding source_eq
source_eq_refl a = ground arith

-- ===== src/Tests.antt =====
-- A world to try the program in: an empty database that does not fail, at a fixed instant.
pub mod Billing
pub mod Apple
pub mod Sessions
pub mod Client
pub mod Library
pub mod Accounts
pub mod Visitors
pub mod Logins
use foreignreader_be.Base.{ℕ, ◌+◌, ◌/◌, String, Bool, false, Option, some, []}
use foreignreader_be.Schema.{Tables}
use foreignreader_be.Db.{Env, World}

abbrev pub no_rows_yet : Tables
no_rows_yet = record {
  users = [];
  identities = [];
  rate_prompts = [];
  entitlements = [];
  quotas = [];
  positions = [];
  sessions = [];
  stripe_customers = [];
  stripe_events = [];
  apple_products = [];
  apple_subscriptions = [];
  apple_events = [];
  onboarding_tokens = [];
  drawn = 0;
}

abbrev pub calm : Env
calm = record {
  now = 100;
  month_of = λ t. t / 30;
  fault = λ n. false;
  uuid = λ n. n + 1000;
  random = λ n. some "fresh";
}

abbrev pub start : World
start = record { env = calm; tables = no_rows_yet; calls = 0; randoms = 0; poisoned = false }

-- Somebody else.
abbrev pub bystander : ℕ
bystander = 8

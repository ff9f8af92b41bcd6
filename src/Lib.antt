-- ===== src/Lib.antt =====
-- The ForeignReader backend (Go, internal/): an HTTP server on PostgreSQL that keeps accounts, who
-- has Pro access, reading positions, and a monthly allowance of translations. The parts modelled,
-- and how they interact:
--
-- * Db.antt stands for database/sql: a World holds the tables, the clock, the supply of ids and
--   random bytes, and a schedule that says which calls fail. `query` is a statement on its own,
--   `tx_query` one of the open transaction, `transaction` BeginTx with its deferred Rollback and
--   the Commit. After a failed statement the transaction is poisoned, as in PostgreSQL.
--   Schema.antt has the tables of migrations/, Http.antt the answers of a handler. Db/Keeps.antt,
--   Db/Inversion.antt, Db/Atomic.antt, Db/Clock.antt and Db/Quiet.antt are the lemmas on these that
--   the components share: what a call leaves alone, what follows from a success, and what a call
--   answers when the database does not fail.
-- * Entitlement.antt (internal/entitlement) writes and reads the rows that give Pro access. Its
--   effect is stated by `holds_pro`, the access of a user at an instant. The payment components
--   call it in their transactions, and the client routes ask it. Entitlement/Routes.antt is
--   internal/server/routes_entitlements.go.
-- * Billing.antt (internal/billing) applies Stripe events, and Billing/Webhook.antt
--   (internal/server/routes_webhook.go) receives them. Billing/Customer.antt
--   (internal/billing/customer.go) is EnsureStripeCustomerID as a step machine: a step is one call
--   of the database or of Stripe, a schedule says whose call is next and whether it works, and any
--   number of requests share the row and the customers at Stripe.
-- * AppleIap.antt (internal/appleiap) has Apple's payloads and tables, AppleIap/Validate.antt is
--   ValidateTransaction of internal/appleiap/service.go, and AppleIap/Webhook.antt is the handler
--   of internal/server/routes_iap_apple_webhook.go, which validates a purchase itself when it does
--   not know it. AppleIap/Validate/Route.antt is internal/server/routes_iap_apple.go.
-- * Auth/User.antt (internal/auth/store.go, internal/auth/user.go) registers and merges users. It is
--   related to a directory that maps a provider and a subject to a user (Auth/User/Merge.antt).
-- * Auth/Token.antt (internal/auth/jwt.go, internal/auth/context.go,
--   internal/server/auth_middleware.go) issues and parses access tokens; TokenLibrary is the JWT and
--   the uuid package, IsTokenLibrary what is relied on.
-- * Auth/Provider.antt (internal/auth/google_token.go) and Auth/Provider/Apple.antt
--   (internal/auth/apple_token.go) turn an identity token into claims.
-- * Auth/Login.antt and Auth/Login/Routes.antt (internal/server/routes_auth.go) put these together,
--   and Auth/Login/Callback.antt (internal/server/routes_auth_apple_web.go, internal/auth/apple_web.go)
--   is the web callback of Sign in with Apple.
-- * Auth/Session.antt (internal/auth/session.go, internal/auth/refreshtoken.go) has the sessions:
--   rotation of refresh tokens and logout; Auth/Session/Route.antt is handleAuthRefresh of
--   internal/server/routes_auth.go.
-- * Profile.antt (internal/rateus, internal/auth/storefront.go, internal/server/routes_rate_us.go,
--   internal/server/routes_users.go, handleAuthMe of internal/server/routes_auth.go) is what a user
--   tells about the app.
-- * ReadingPosition.antt (internal/readingposition) and ReadingPosition/Routes.antt
--   (internal/server/routes_reading_position.go) save and compare reading positions.
-- * Quota.antt (internal/monthlycontexttranslation) counts translations; Translate.antt
--   (internal/server/routes_api_v1.go) charges them to users without Pro.
-- * RateLimit.antt (internal/ratelimit) is the fixed window counter.
-- * Onboarding.antt (internal/onboardingsession) has the tokens for trying a translation before
--   there is an account. Onboarding/Routes.antt (internal/server/onboarding_access.go and the
--   registration in internal/server/routes_api_v1.go) has the two routes with their middlewares; a
--   rate window is a state that is passed on.
-- * Base.antt and its children are numbers, texts and lists; Tests.antt runs the theorems on a
--   concrete world.
--
-- A Go function keeps its name, in snake case. A function with a receiver takes what it reads of
-- it as arguments. An error is a value of Db.Error; a handler's error is its status and code,
-- without the message. Instants are nanoseconds since Go's zero time, ids are numbers, 0 is
-- uuid.Nil.
--
-- Bounds: every loop of the code is a recursion on a list, so there is no fuel. Columns of type
-- INTEGER refuse what does not fit 32 bits; Go's int and int64 are integers whose range no
-- modelled operation leaves, except the exponent of a key of Apple, which is taken modulo 2^64.
--
-- Not modelled: encoding/json, SHA-256, base64, PEM, JWT, JWS and x509, the Stripe library and the
-- HTTP calls to Apple, Google and OpenAI are parameters. A timestamp is stored as it is, without
-- PostgreSQL's rounding to microseconds. The clock does not move during a request. The foreign keys
-- to users are checked for identities and rating attempts, and taken to hold for the other tables.
-- An id that is drawn for a new row is checked against the rows for users only; the other primary
-- keys are taken not to collide. Other requests do not run between the statements of one request,
-- except in Billing/Customer.antt; there a call that reports an error has had no effect, so a
-- customer that Stripe made, or a row that was stored, behind an error is left out.
-- A request is given decoded, behind the limits on the size of its body. Logging, checkout and the
-- portal, the admin and analytics routes, the translation client, CORS and the reading of the
-- configuration are left out.
pub mod Base
pub mod Schema
pub mod Db
pub mod Http
pub mod Entitlement
pub mod Billing
pub mod AppleIap
pub mod Auth
pub mod Profile
pub mod ReadingPosition
pub mod Quota
pub mod Translate
pub mod RateLimit
pub mod Onboarding
pub mod Tests

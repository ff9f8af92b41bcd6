-- ===== src/Entitlement.antt =====
-- internal/entitlement/store.go and stripe.go: the table `entitlements`.
pub mod Access
pub mod Frame
pub mod Grants
pub mod Unique
pub mod Routes
use foreignreader_be.Base.{
  ℕ, ◌+◌, String, str_eq, Bool, true, false, ◌&&◌, not, List, [], ◌∷◌, Option, none, some, ltb, leb,
  ◌==◌, if◌then◌else◌, any, find?, update, select,
}
use foreignreader_be.Schema.{
  Source, dev, owner, apple_iap, stripe, source_eq, active, revoked, is_active, Entitlement, Tables,
}
use foreignreader_be.Db.{
  not_configured, no_rows, ok, Env, Db, Stmt, pure, fail, query, tx_query, transaction, ◌>>=◌, ◌>>◌,
}

abbrev pub product_pro : String
product_pro = "pro"

-- `expires_at IS NULL OR expires_at > now()`.
abbrev pub unexpired : ℕ → Option ℕ → Bool
unexpired now none = true
unexpired now (some t) = ltb now t

-- `user_id = $1 AND product_code = 'pro' AND status = 'active'`.
abbrev pub is_active_pro : ℕ → Entitlement → Bool
is_active_pro user e =
    e.user_id == user && (str_eq e.product_code product_pro && is_active e.status)

-- The WHERE clause of HasActivePro and ActiveProAccess.
abbrev pub grants_pro : ℕ → ℕ → Entitlement → Bool
grants_pro now user e = is_active_pro user e && unexpired now e.expires_at

-- The WHERE clause of the revoking updates, whose source is a constant.
abbrev pub is_active_pro_from : Source → ℕ → Entitlement → Bool
is_active_pro_from s user e = is_active_pro user e && source_eq e.source s

-- IsOwner.
unfoldable pub is_owner : ℕ → Db Bool
is_owner user = query λ env t. ok (any (is_active_pro_from owner user) t.entitlements, t)

-- `EXISTS (SELECT 1 …)` of HasActivePro.
abbrev pub holds_pro : ℕ → ℕ → Tables → Bool
holds_pro now user t = any (grants_pro now user) t.entitlements

unfoldable pub has_active_pro_stmt : ℕ → Stmt Bool
has_active_pro_stmt user env t = ok (holds_pro env.now user t, t)

-- HasActivePro.
unfoldable pub has_active_pro : ℕ → Db Bool
unfolding has_active_pro_stmt
has_active_pro user = query (has_active_pro_stmt user)

-- `ORDER BY created_at DESC`.
insert_newest : Entitlement → List Entitlement → List Entitlement
insert_newest e [] = e ∷ []
insert_newest e (x ∷ xs) =
    let rest = insert_newest e xs in if leb x.created_at e.created_at then e ∷ x ∷ xs else x ∷ rest

newest_first : List Entitlement → List Entitlement
unfolding insert_newest
newest_first [] = []
newest_first (x ∷ xs) = insert_newest x (newest_first xs)

abbrev pub head? : List Entitlement → Option Entitlement
head? [] = none
head? (x ∷ xs) = some x

abbrev pub access_of : Option Entitlement → Option (Source × Option ℕ)
access_of none = none
access_of (some e) = some (e.source, e.expires_at)

-- The query of ActiveProAccess; no row is its `ok = false`.
active_pro_access_stmt : ℕ → Stmt (Option (Source × Option ℕ))
unfolding newest_first
active_pro_access_stmt user env t =
    ok (access_of (head? (newest_first (select (grants_pro env.now user) t.entitlements))), t)

-- ActiveProAccess.
unfoldable pub active_pro_access : ℕ → Db (Option (Source × Option ℕ))
unfolding active_pro_access_stmt
active_pro_access user = query (active_pro_access_stmt user)

-- ListByUser.
unfoldable pub list_by_user : ℕ → Db (List Entitlement)
unfolding newest_first
list_by_user user =
    query λ env t. ok (newest_first (select (λ e. e.user_id == user) t.entitlements), t)

abbrev revoke_row : ℕ → Entitlement → Entitlement
revoke_row now e = record e { status = revoked; updated_at = now }

-- `UPDATE entitlements SET status = 'revoked', updated_at = now() WHERE …`.
unfoldable pub revoke_pro : Source → ℕ → Stmt (Unit {0})
revoke_pro s user env t = ok (
  tt,
  record t {
    entitlements = update (is_active_pro_from s user) (revoke_row env.now) t.entitlements;
  },
)

abbrev pub pro_row : Env → Tables → Source → ℕ → Option ℕ → Entitlement
pro_row env t s user expires = record {
  id = env.uuid t.drawn;
  user_id = user;
  product_code = product_pro;
  status = active;
  source = s;
  starts_at = env.now;
  expires_at = expires;
  created_at = env.now;
  updated_at = env.now;
}

-- `INSERT INTO entitlements … VALUES (…, 'active', …) RETURNING id`.
unfoldable pub insert_pro : Source → ℕ → Option ℕ → Stmt ℕ
insert_pro s user expires env t = ok (
  env.uuid t.drawn,
  record t { entitlements = pro_row env t s user expires ∷ t.entitlements; drawn = t.drawn + 1 },
)

-- RevokeAppleIAPPro.
unfoldable pub revoke_apple_iap_pro : ℕ → Db (Unit {0})
unfolding revoke_pro
revoke_apple_iap_pro user = tx_query (revoke_pro apple_iap user)

-- UpsertAppleIAPPro.
unfoldable pub upsert_apple_iap_pro : ℕ → Option ℕ → Db (Unit {0})
unfolding revoke_pro insert_pro
upsert_apple_iap_pro user expires = do
  tx_query (revoke_pro apple_iap user)
  tx_query (insert_pro apple_iap user expires)
  pure tt

-- RevokeStripePro.
unfoldable pub revoke_stripe_pro : ℕ → Db (Unit {0})
unfolding revoke_pro
revoke_stripe_pro user = tx_query (revoke_pro stripe user)

-- UpsertStripePro.
unfoldable pub upsert_stripe_pro : ℕ → Option ℕ → Db (Unit {0})
unfolding revoke_pro insert_pro
upsert_stripe_pro user expires = do
  tx_query (revoke_pro stripe user)
  tx_query (insert_pro stripe user expires)
  pure tt

-- The row that SetDevPro returns when it only revokes: Go's zero values but for three fields.
abbrev revoked_dev : Entitlement
revoked_dev = record {
  id = 0;
  user_id = 0;
  product_code = product_pro;
  status = revoked;
  source = dev;
  starts_at = 0;
  expires_at = none;
  created_at = 0;
  updated_at = 0;
}

abbrev row_by_id : ℕ → Stmt (Option Entitlement)
row_by_id id env t = ok (find? (λ e. e.id == id) t.entitlements, t)

-- `Scan` of a row that is not there is `sql.ErrNoRows`, which SetDevPro returns.
abbrev scan : Option Entitlement → Db Entitlement
scan none = fail no_rows
scan (some e) = pure e

abbrev activate_dev : ℕ → Bool → Db Entitlement
activate_dev user true = do
  id ← tx_query (insert_pro dev user none)
  row ← tx_query (row_by_id id)
  scan row
activate_dev user false = pure revoked_dev

-- SetDevPro; `configured` is `s.DB != nil`.
unfoldable pub set_dev_pro : Bool → ℕ → Bool → Db Entitlement
unfolding revoke_pro insert_pro
set_dev_pro configured user activate =
    if not configured
    then fail not_configured
    else transaction (do tx_query (revoke_pro dev user); activate_dev user activate)

-- ===== src/Auth/User/Frame.antt =====
-- What a web login leaves alone, and what a login does to the profile of a user.
use foreignreader_be.Base.{
  ℕ, ◌≡◌, refl, ap, String, Bool, List, [], ◌∷◌, Option, none, some, arith, map, update, ◌==◌,
}
use foreignreader_be.Schema.{User, Identity, Tables}
use foreignreader_be.Db.{query}
use foreignreader_be.Db.Keeps.{Keeps, StmtKeeps, keeps_rules}
use foreignreader_be.Db.Clock.{KeepsEnv, clock_rules}
use foreignreader_be.Auth.User.{
  login_or_register_row, insert_user_and_identity, login_or_register_mock, MockClaimsInput,
  is_identity, merged_user, update_user, with_email, update_identity_email, select_identity_user,
  merge_user, on_email, merge_identity_email, merge_claims, user_by_id, login_existing_row,
  existing_body, login_existing_by_identity,
}

abbrev user_ids : List User → List ℕ
user_ids us = map (λ (u : User). u.id) us

abbrev owners : List Identity → List (ℕ × String × String)
owners is = map (λ (i : Identity). (i.user_id, i.provider, i.provider_user_id)) is

-- Which users there are, and whose the identities are.
abbrev pub accounts : Tables → List ℕ × List (ℕ × String × String)
accounts t = (user_ids t.users, owners t.identities)

user_ids-update :
    (c : MockClaimsInput) (now id : ℕ) (us : List User)
    → user_ids (update (λ u. u.id == id) (merged_user c now) us) ≡ user_ids us
user_ids-update c now id [] = refl
user_ids-update c now id (u ∷ us) = ground (arith, user_ids-update c now id us)

owners-update :
    (p s email : String) (now : ℕ) (is : List Identity)
    → owners (update (is_identity p s) (with_email email now) is) ≡ owners is
owners-update p s email now [] = refl
owners-update p s email now (i ∷ is) = ground (arith, owners-update p s email now is)

StmtKeeps-update_user : (id : ℕ) (c : MockClaimsInput) → StmtKeeps accounts (update_user id c)
unfolding update_user
StmtKeeps-update_user id c = record {
  stmt_at = λ env t. ap (λ us. (us, owners t.identities)) (user_ids-update c env.now id t.users);
}

StmtKeeps-update_email : (p s email : String) → StmtKeeps accounts (update_identity_email p s email)
unfolding update_identity_email
StmtKeeps-update_email p s email = record {
  stmt_at =
      λ env t. ap (λ is. (user_ids t.users, is)) (owners-update p s email env.now t.identities);
}

StmtKeeps-select : (p s : String) → StmtKeeps accounts (select_identity_user p s)
StmtKeeps-select p s = record { stmt_at = λ env t. refl }

Keeps-user_by_id : (id : ℕ) → Keeps accounts (user_by_id id)
unfolding user_by_id query
Keeps-user_by_id id = record { at = λ w. ground arith }

Keeps-on_email : (p s : String) (o : Option String) → Keeps accounts (on_email p s o)
Keeps-on_email p s none = search keeps_rules
Keeps-on_email p s (some email) = search (keeps_rules, StmtKeeps-update_email)

Keeps-merge_claims :
    (p s : String) (c : MockClaimsInput) (id : ℕ) → Keeps accounts (merge_claims p s c id)
unfolding merge_claims merge_user merge_identity_email
Keeps-merge_claims p s c id = search (keeps_rules, StmtKeeps-update_user, Keeps-on_email) depth 12

Keeps-login_existing_row :
    (p s : String) (c : MockClaimsInput) (o : Option ℕ)
    → Keeps accounts (login_existing_row p s c o)
Keeps-login_existing_row p s c none = search keeps_rules
Keeps-login_existing_row p s c (some id) = Keeps-merge_claims p s c id

Keeps-existing_body : (p s : String) (c : MockClaimsInput) → Keeps accounts (existing_body p s c)
Keeps-existing_body p s c =
    search (keeps_rules, StmtKeeps-select, Keeps-login_existing_row) depth 12

pub Keeps-login_existing_by_identity :
    (configured : Bool) (provider : String) (c : MockClaimsInput)
    → Keeps accounts (login_existing_by_identity configured provider c)
unfolding login_existing_by_identity
Keeps-login_existing_by_identity configured provider c =
    search (keeps_rules, Keeps-existing_body, Keeps-user_by_id) depth 12

KeepsEnv-on_email : (p s : String) (o : Option String) → KeepsEnv (on_email p s o)
KeepsEnv-on_email p s none = search clock_rules
KeepsEnv-on_email p s (some email) = search clock_rules

KeepsEnv-merge_claims :
    (p s : String) (c : MockClaimsInput) (id : ℕ) → KeepsEnv (merge_claims p s c id)
unfolding merge_claims merge_user merge_identity_email
KeepsEnv-merge_claims p s c id = search (clock_rules, KeepsEnv-on_email) depth 12

KeepsEnv-login_or_register_row :
    (limit : ℕ) (p s : String) (c : MockClaimsInput) (o : Option ℕ)
    → KeepsEnv (login_or_register_row limit p s c o)
unfolding insert_user_and_identity
KeepsEnv-login_or_register_row limit p s c none = search clock_rules depth 12
KeepsEnv-login_or_register_row limit p s c (some id) = KeepsEnv-merge_claims p s c id

pub KeepsEnv-login_or_register_mock :
    (configured : Bool) (limit : ℕ) (provider : String) (c : MockClaimsInput)
    → KeepsEnv (login_or_register_mock configured limit provider c)
unfolding login_or_register_mock user_by_id
KeepsEnv-login_or_register_mock configured limit provider c =
    search (clock_rules, KeepsEnv-login_or_register_row) depth 14

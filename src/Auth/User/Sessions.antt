-- ===== src/Auth/User/Sessions.antt =====
-- A login of the store leaves the sessions alone.
use foreignreader_be.Base.{ℕ, refl, String, true, List, Option, none, some, arith}
use foreignreader_be.Schema.{Session, Tables}
use foreignreader_be.Db.{query}
use foreignreader_be.Db.Keeps.{Keeps, StmtKeeps, keeps_rules}
use foreignreader_be.Quota.{insert_initial}
use foreignreader_be.Auth.User.{
  MockClaimsInput, merge_claims, merge_user, merge_identity_email, on_email, update_user,
  update_identity_email, login_existing_row, select_identity_user, user_by_id,
  login_existing_by_identity, insert_user, insert_identity, insert_first_quota,
  insert_user_and_identity, login_or_register_row, login_or_register_mock,
}

abbrev pub sessions : Tables → List Session
sessions t = t.sessions

StmtKeeps-update_user : (id : ℕ) (c : MockClaimsInput) → StmtKeeps sessions (update_user id c)
unfolding update_user
StmtKeeps-update_user id c = record { stmt_at = λ env t. refl }

StmtKeeps-update_email : (p s email : String) → StmtKeeps sessions (update_identity_email p s email)
unfolding update_identity_email
StmtKeeps-update_email p s email = record { stmt_at = λ env t. refl }

StmtKeeps-select : (p s : String) → StmtKeeps sessions (select_identity_user p s)
StmtKeeps-select p s = record { stmt_at = λ env t. refl }

Keeps-user_by_id : (id : ℕ) → Keeps sessions (user_by_id id)
unfolding user_by_id query
Keeps-user_by_id id = record { at = λ w. ground arith }

Keeps-on_email : (p s : String) (o : Option String) → Keeps sessions (on_email p s o)
Keeps-on_email p s none = search keeps_rules
Keeps-on_email p s (some email) = search (keeps_rules, StmtKeeps-update_email)

Keeps-login_existing_row :
    (p s : String) (c : MockClaimsInput) (o : Option ℕ)
    → Keeps sessions (login_existing_row p s c o)
unfolding merge_claims merge_user merge_identity_email
Keeps-login_existing_row p s c none = search keeps_rules
Keeps-login_existing_row p s c (some id) =
    search (keeps_rules, StmtKeeps-update_user, Keeps-on_email) depth 12

pub Keeps-existing :
    (provider : String) (c : MockClaimsInput)
    → Keeps sessions (login_existing_by_identity true provider c)
unfolding login_existing_by_identity
Keeps-existing provider c =
    search (keeps_rules, StmtKeeps-select, Keeps-login_existing_row, Keeps-user_by_id) depth 14

StmtKeeps-insert_user : (c : MockClaimsInput) → StmtKeeps sessions (insert_user c)
unfolding insert_user
StmtKeeps-insert_user c = record { stmt_at = λ env t. ground arith }

StmtKeeps-insert_identity :
    (user : ℕ) (p s : String) (email : Option String)
    → StmtKeeps sessions (insert_identity user p s email)
unfolding insert_identity
StmtKeeps-insert_identity user p s email = record { stmt_at = λ env t. ground arith }

StmtKeeps-insert_first_quota : (user limit : ℕ) → StmtKeeps sessions (insert_first_quota user limit)
unfolding insert_first_quota insert_initial
StmtKeeps-insert_first_quota user limit = record { stmt_at = λ env t. ground arith }

Keeps-insert_user_and_identity :
    (limit : ℕ) (p s : String) (c : MockClaimsInput)
    → Keeps sessions (insert_user_and_identity limit p s c)
unfolding insert_user_and_identity
Keeps-insert_user_and_identity limit p s c =
    search
      (keeps_rules, StmtKeeps-insert_user, StmtKeeps-insert_identity, StmtKeeps-insert_first_quota)
      depth 12

Keeps-login_or_register_row :
    (limit : ℕ) (p s : String) (c : MockClaimsInput) (o : Option ℕ)
    → Keeps sessions (login_or_register_row limit p s c o)
Keeps-login_or_register_row limit p s c none = Keeps-insert_user_and_identity limit p s c
Keeps-login_or_register_row limit p s c (some id) = Keeps-login_existing_row p s c (some id)

pub Keeps-login_or_register_mock :
    (limit : ℕ) (provider : String) (c : MockClaimsInput)
    → Keeps sessions (login_or_register_mock true limit provider c)
unfolding login_or_register_mock
Keeps-login_or_register_mock limit provider c =
    search (keeps_rules, StmtKeeps-select, Keeps-login_or_register_row, Keeps-user_by_id) depth 14

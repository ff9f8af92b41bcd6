-- ===== src/Auth/User/Live.antt =====
-- LoginOrRegisterMock when no call of the database fails.
use foreignreader_be.Base.{
  ℕ, ◌+◌, ◌≡◌, refl, sym, ◌∙◌, inl, inr, String, true, false, Bool-cases, List, [], ◌∷◌, Option,
  none, some, arith, any, find?, trim_space, is_empty, ◌==◌,
}
use mathlib.Core.Path.{subst}
use foreignreader_be.Schema.{User, Identity, Tables}
use foreignreader_be.Db.{ok, Env, World, tx_query, pure, transaction}
use foreignreader_be.Db.Quiet.{
  IsQuiet, Runs, Runs-pure, Runs-query, Runs-tx_query, opened, opened-IsQuiet, Runs-transaction,
  Runs-bind,
}
use foreignreader_be.Quota.{is_period, fits_integer, insert_initial, fresh_quota}
use foreignreader_be.Auth.User.{
  MockClaimsInput, is_user, is_identity, is_provider, identity_user, user_of, select_identity_user,
  given, new_user, new_identity, insert_user, insert_identity, insert_first_quota,
  insert_user_and_identity, says_nothing, update_user, merge_user, update_identity_email, on_email,
  merge_identity_email, merge_claims, login_or_register_row, register_body, user_by_id,
  login_or_register_mock,
}
use foreignreader_be.Auth.User.Merge.{directory, IsSound, identity_user-directory}
use foreignreader_be.Auth.User.Enrol.{register_body-LoggedIn}

-- The id that a new user would get names no user and no quota yet.
abbrev pub IsFreshId : Env → Tables → Type 0
IsFreshId env t =
    (is_user (env.uuid t.drawn) t ≡ false)
    × (any (is_period (env.uuid t.drawn) (env.month_of env.now)) t.quotas ≡ false)

merge_user-Runs :
    (id : ℕ) (c : MockClaimsInput) (w : World)
    → IsQuiet w
    → (t : Tables) × Runs (merge_user id c) w tt t
unfolding merge_user update_user
merge_user-Runs id c w q = elim (Bool-cases (says_nothing c)) [
  | inl nothing ↦ (w.tables, rw nothing (Runs-pure tt w q))
  | inr something ↦ rw something (_, Runs-tx_query (update_user id c) w q refl)
]

on_email-Runs :
    (p s : String) (o : Option String) (w : World)
    → IsQuiet w
    → (t : Tables) × Runs (on_email p s o) w tt t
unfolding update_identity_email
on_email-Runs p s none w q = (w.tables, Runs-pure tt w q)
on_email-Runs p s (some email) w q = (_, Runs-tx_query (update_identity_email p s email) w q refl)

merge_claims-Runs :
    (p s : String) (c : MockClaimsInput) (id : ℕ) (w : World)
    → IsQuiet w
    → (t : Tables) × Runs (merge_claims p s c id) w id t
unfolding merge_claims merge_identity_email
merge_claims-Runs p s c id w q =
    let (t, r) = merge_user-Runs id c w q in
    let w1 = (merge_user id c w).1 in
    let (t', r') = on_email-Runs p s (given c.email) w1 r.quiet in
    let w2 = (on_email p s (given c.email) w1).1 in
    (
      _,
      Runs-bind (merge_user id c) _ w r
          (Runs-bind (on_email p s (given c.email)) _ w1 r' (Runs-pure id w2 r'.quiet)),
    )

none-any :
    (p s : String) (is : List Identity)
    → user_of (find? (is_identity p s) is) ≡ none
    → any (is_identity p s) is ≡ false
none-any p s [] h = refl
none-any p s (i ∷ is) h = ground (arith, none-any p s is)

insert_user-succeeds :
    (c : MockClaimsInput) (env : Env) (t : Tables)
    → is_user (env.uuid t.drawn) t ≡ false
    → (t' : Tables) × (insert_user c env t ≡ ok (env.uuid t.drawn, t'))
      × (is_user (env.uuid t.drawn) t' ≡ true)
      × (t'.identities ≡ t.identities)
      × (t'.quotas ≡ t.quotas)
unfolding insert_user
insert_user-succeeds c env t h =
    let after : Tables = record t {
      users = new_user (env.uuid t.drawn) env.now c ∷ t.users;
      drawn = t.drawn + 1;
    } in
    (after, rw h refl, ground arith, refl, refl)

insert_identity-succeeds :
    (user : ℕ) (p s : String) (email : Option String) (env : Env) (t : Tables)
    → is_provider p ≡ true
    → is_user user t ≡ true
    → any (is_identity p s) t.identities ≡ false
    → (t' : Tables) × (insert_identity user p s email env t ≡ ok (tt, t'))
      × (t'.quotas ≡ t.quotas)
      × (t'.users ≡ t.users)
unfolding insert_identity
insert_identity-succeeds user p s email env t known there absent =
    let after : Tables = record t {
      identities = new_identity (env.uuid t.drawn) env.now user p s email ∷ t.identities;
      drawn = t.drawn + 1;
    } in
    (after, rw (known, there, absent) refl, refl, refl)

insert_first_quota-succeeds :
    (user limit : ℕ) (env : Env) (t : Tables)
    → any (is_period user (env.month_of env.now)) t.quotas ≡ false
    → fits_integer limit ≡ true
    → (t' : Tables) × (insert_first_quota user limit env t ≡ ok (tt, t')) × (t'.users ≡ t.users)
unfolding insert_first_quota insert_initial
insert_first_quota-succeeds user limit env t absent fits =
    let after : Tables = record t {
      quotas = fresh_quota user (env.month_of env.now) limit ∷ t.quotas;
    } in
    (after, rw (absent, fits) refl, refl)

insert_user_and_identity-Runs :
    (limit : ℕ) (p s : String) (c : MockClaimsInput) (w : World)
    → IsQuiet w
    → is_provider p ≡ true
    → fits_integer limit ≡ true
    → directory w.tables p s ≡ none
    → IsFreshId w.env w.tables
    → (t : Tables) × Runs (insert_user_and_identity limit p s c) w (w.env.uuid w.tables.drawn) t
      × (is_user (w.env.uuid w.tables.drawn) t ≡ true)
unfolding insert_user_and_identity
insert_user_and_identity-Runs limit p s c w q known fits absent (new, no_quota) =
    let id = w.env.uuid w.tables.drawn in
    let (t1, e1, there, identities, quotas) = insert_user-succeeds c w.env w.tables new in
    let unknown = none-any p s w.tables.identities absent in
    let (t2, e2, quotas', users') =
      insert_identity-succeeds id p s (given c.email) w.env t1 known there
        (rw identities unknown) in
    let (t3, e3, users'') =
      insert_first_quota-succeeds id limit w.env t2 (rw (quotas', quotas) no_quota) fits in
    let r1 = Runs-tx_query (insert_user c) w q e1 in
    let w1 = (tx_query (insert_user c) w).1 in
    let r2 =
      Runs-tx_query (insert_identity id p s (given c.email)) w1 r1.quiet
        (rw (r1.env, r1.tables) e2) in
    let w2 = (tx_query (insert_identity id p s (given c.email)) w1).1 in
    let r3 =
      Runs-tx_query (insert_first_quota id limit) w2 r2.quiet (rw (r2.env, r1.env, r2.tables) e3) in
    let w3 = (tx_query (insert_first_quota id limit) w2).1 in
    (
      t3,
      Runs-bind (tx_query (insert_user c)) _ w r1 (
          Runs-bind (tx_query (insert_identity id p s (given c.email))) _ w1 r2 (
            Runs-bind (tx_query (insert_first_quota id limit)) _ w2 r3
              (subst (λ t. Runs (pure id) w3 id t) r3.tables (Runs-pure id w3 r3.quiet)))),
      rw (users'', users') there,
    )

login_or_register_row-Runs :
    (limit : ℕ) (p s : String) (c : MockClaimsInput) (w : World) (o : Option ℕ)
    → IsQuiet w
    → IsSound w.tables
    → is_provider p ≡ true
    → fits_integer limit ≡ true
    → (directory w.tables p s ≡ none → IsFreshId w.env w.tables)
    → identity_user p s w.tables ≡ o
    → (id : ℕ) × (t : Tables) × Runs (login_or_register_row limit p s c o) w id t
login_or_register_row-Runs limit p s c w none q sound known fits fresh h =
    let absent : directory w.tables p s ≡ none =
      sym (identity_user-directory w.tables p s sound) ∙ h in
    let (t, r, _) =
      insert_user_and_identity-Runs limit p s c w q known fits absent (fresh absent) in
    (w.env.uuid w.tables.drawn, t, r)
login_or_register_row-Runs limit p s c w (some id) q sound known fits fresh h =
    let (t, r) = merge_claims-Runs p s c id w q in (id, t, r)

register_body-Runs :
    (limit : ℕ) (p s : String) (c : MockClaimsInput) (w : World)
    → IsQuiet w
    → IsSound w.tables
    → is_provider p ≡ true
    → fits_integer limit ≡ true
    → (directory w.tables p s ≡ none → IsFreshId w.env w.tables)
    → (id : ℕ) × (t : Tables) × Runs (register_body limit p s c) w id t
register_body-Runs limit p s c w q sound known fits fresh =
    let r = Runs-tx_query (select_identity_user p s) w q refl in
    let w' = (tx_query (select_identity_user p s) w).1 in
    let (id, t, r') =
      login_or_register_row-Runs limit p s c w' (identity_user p s w.tables) r.quiet
        (rw r.tables sound) known fits (rw (r.tables, r.env) fresh) (rw r.tables refl) in
    (id, t, Runs-bind (tx_query (select_identity_user p s)) _ w r r')

find?-some :
    (id : ℕ) (us : List User)
    → any (λ u. u.id == id) us ≡ true
    → (u : User) × (find? (λ u. u.id == id) us ≡ some u)
find?-some id [] h = cc
find?-some id (u ∷ us) h = elim (Bool-cases (u.id == id)) [
  | inl same ↦ (u, rw same refl)
  | inr other ↦ let (u', e) = find?-some id us (rw other at h) in (u', rw other e)
]

user_by_id-Runs :
    (id : ℕ) (w : World)
    → IsQuiet w
    → is_user id w.tables ≡ true
    → (u : User) × Runs (user_by_id id) w u w.tables
unfolding user_by_id
user_by_id-Runs id w q h =
    let (u, e) = find?-some id w.tables.users h in (u, Runs-query _ w q (rw e refl))

-- If no call of the database fails, the identities have users and are distinct, the provider is one
-- of the two, the subject is not blank, the free quota fits its column and, for an unknown
-- identity, the id drawn is not in use: LoginOrRegisterMock answers with a user.
pub login_or_register_mock-Runs :
    (limit : ℕ) (provider : String) (c : MockClaimsInput) (w : World)
    → IsQuiet w
    → IsSound w.tables
    → is_provider provider ≡ true
    → is_empty (trim_space c.sub) ≡ false
    → fits_integer limit ≡ true
    → (directory w.tables provider (trim_space c.sub) ≡ none → IsFreshId w.env w.tables)
    → (u : User) × (t : Tables) × Runs (login_or_register_mock true limit provider c) w u t
unfolding login_or_register_mock
login_or_register_mock-Runs limit provider c w q sound known full fits fresh =
    let body = register_body limit provider (trim_space c.sub) c in
    let (id, t, r) =
      register_body-Runs limit provider (trim_space c.sub) c (opened w) (opened-IsQuiet w q) sound
        known fits fresh in
    let r' = Runs-transaction body w q r in
    let w' = (transaction body w).1 in
    let there =
      (register_body-LoggedIn limit provider (trim_space c.sub) c (opened w) sound
        r.answer).there in
    let (u, read) = user_by_id-Runs id w' r'.quiet (rw r'.tables (rw r.tables at there)) in
    (u, w'.tables, rw full (Runs-bind (transaction body) _ w r' read))

-- ===== src/Auth/User/Enrol.antt =====
-- The transactions of LoginOrRegisterMock and LoginExistingByIdentity, statement by statement,
-- against the abstract directory of identities.
use foreignreader_be.Base.{
  ℕ, ◌≡◌, refl, Option-cases, sym, ap, ◌∙◌, inl, inr, String, eq_iff, ◌==◌, true, false, Bool-cases,
  List, [], ◌∷◌, Option, none, some, arith, find?, ◌&&◌,
}
use mathlib.Core.Path.{fun_ext, subst}
use foreignreader_be.Schema.{User, Identity, Tables}
use foreignreader_be.Db.{
  Error, Result, ok, err, World, Db, tx_query, transaction, fail, pure, ◌>>=◌, Result-cases,
}
use foreignreader_be.Db.Inversion.{>>=-ok, tx_query-ok}
use foreignreader_be.Auth.User.{
  MockClaimsInput, is_user, is_identity, identity_user, select_identity_user, user_of, user_by_id,
  insert_user, insert_identity, insert_first_quota, insert_user_and_identity, given, update_user,
  update_identity_email, says_nothing, merge_user, on_email, merge_identity_email, merge_claims,
  login_or_register_row, register_body, existing_body, login_existing_row,
}
use foreignreader_be.Auth.User.Merge.{
  Directory, directory, enrol, IsSound, Same, Same-refl, Same-trans, identity_user-directory,
  update_user-Same, update_identity_email-Same, insert_user-Same, insert_first_quota-Same,
  insert_identity-enrol,
}

-- From the tables `t` to `t'` the identity was signed in as the user `id`: the directory changes as
-- the abstract login does, an identity that is known signs in its user, one that is not gets a new one.
pub record LoggedIn (provider sub : String) (id : ℕ) (t t' : Tables) : Type 0 where
  pub sound : IsSound t'
  pub enrols : directory t' ≡ enrol (directory t) provider sub id
  pub known : (old : ℕ) → directory t provider sub ≡ some old → id ≡ old
  pub fresh : directory t provider sub ≡ none → is_user id t ≡ false
  pub there : is_user id t' ≡ true

enrol_self :
    (d : Directory) (p s : String) (id : ℕ)
    → ((old : ℕ) → d p s ≡ some old → id ≡ old)
    → enrol d p s id p s ≡ some id
enrol_self d p s id h =
    grind (arith, Option-cases (d p s), (eq_iff p p).1 refl, (eq_iff s s).1 refl)

-- After the sign-in, the identity is that of the user.
pub LoggedIn-directory :
    (p s : String) (id : ℕ) (t t' : Tables) → LoggedIn p s id t t' → directory t' p s ≡ some id
LoggedIn-directory p s id t t' l =
    ap (λ (d : Directory). d p s) l.enrols ∙ enrol_self (directory t) p s id l.known

merge_user-Same :
    (id : ℕ) (c : MockClaimsInput) (w : World)
    → (merge_user id c w).0 ≡ ok tt
    → Same w.tables (merge_user id c w).1.tables
unfolding merge_user
merge_user-Same id c w h = elim (Bool-cases (says_nothing c)) [
  | inl nothing ↦ rw nothing (Same-refl w.tables)
  | inr something ↦ rw something (
      update_user-Same id c w.env w.tables (tx_query (update_user id c) w).1.tables
        (tx_query-ok (update_user id c) w (rw something at h)).0)
]

on_email-Same :
    (provider sub : String) (o : Option String) (w : World)
    → (on_email provider sub o w).0 ≡ ok tt
    → Same w.tables (on_email provider sub o w).1.tables
on_email-Same provider sub none w h = Same-refl w.tables
on_email-Same provider sub (some email) w h =
    update_identity_email-Same provider sub email w.env w.tables
      (tx_query (update_identity_email provider sub email) w).1.tables
      (tx_query-ok (update_identity_email provider sub email) w h).0

merge_claims-Same :
    (provider sub : String) (c : MockClaimsInput) (id : ℕ) (w : World) {r : ℕ}
    → (merge_claims provider sub c id w).0 ≡ ok r
    → Same w.tables (merge_claims provider sub c id w).1.tables × (r ≡ id)
unfolding merge_claims merge_identity_email
merge_claims-Same provider sub c id w {r} h =
    let (tt, e1, k1, h1) = >>=-ok (merge_user id c) _ w h in
    let w1 = (merge_user id c w).1 in
    let (tt, e2, k2, h2) = >>=-ok (on_email provider sub (given c.email)) _ w1 h1 in
    rw (k1, k2)
      (
        Same-trans (merge_user-Same id c w e1) (on_email-Same provider sub (given c.email) w1 e2),
        ground arith,
      )

pub user_there :
    (t : Tables) (p s : String) (is : List Identity) (id : ℕ)
    → user_of (find? (λ i. is_identity p s i && is_user i.user_id t) is) ≡ some id
    → is_user id t ≡ true
user_there t p s [] id h = cc
user_there t p s (i ∷ is) id h = ground (arith, user_there t p s is id)

pub enrol-known : (d : Directory) (p s : String) (id : ℕ) → d p s ≡ some id → enrol d p s id ≡ d
enrol-known d p s id h = fun_ext λ q. fun_ext λ r. ground (arith, eq_iff p q, eq_iff s r)

Same-LoggedIn :
    (p s : String) (id : ℕ) (t t' : Tables)
    → IsSound t
    → identity_user p s t ≡ some id
    → Same t t'
    → LoggedIn p s id t t'
Same-LoggedIn p s id t t' sound h same =
    let known : directory t p s ≡ some id = sym (identity_user-directory t p s sound) ∙ h in
    record {
      sound = same.sound sound;
      enrols = same.keeps_directory ∙ sym (enrol-known (directory t) p s id known);
      known = λ old e. grind (arith, known);
      fresh = λ e. cc (e, known);
      there = same.keeps_users id (user_there t p s t.identities id h);
    }

insert_user_and_identity-LoggedIn :
    (limit : ℕ) (p s : String) (c : MockClaimsInput) (w : World) {r : ℕ}
    → IsSound w.tables
    → (insert_user_and_identity limit p s c w).0 ≡ ok r
    → LoggedIn p s r w.tables (insert_user_and_identity limit p s c w).1.tables
unfolding insert_user_and_identity
insert_user_and_identity-LoggedIn limit p s c w {r} sound h =
    let (id, e1, k1, h1) = >>=-ok (tx_query (insert_user c)) _ w h in
    let w1 = (tx_query (insert_user c) w).1 in
    let (_, e2, k2, h2) = >>=-ok (tx_query (insert_identity id p s (given c.email))) _ w1 h1 in
    let w2 = (tx_query (insert_identity id p s (given c.email)) w1).1 in
    let (_, e3, k3, h3) = >>=-ok (tx_query (insert_first_quota id limit)) _ w2 h2 in
    let w3 = (tx_query (insert_first_quota id limit) w2).1 in
    let (first, absent, present) =
      insert_user-Same c w.env w.tables w1.tables id (tx_query-ok (insert_user c) w e1).0 in
    let (keeps, enrols, grows, unknown) =
      insert_identity-enrol id p s (given c.email) w1.env w1.tables w2.tables
        (tx_query-ok (insert_identity id p s (given c.email)) w1 e2).0 in
    let last =
      insert_first_quota-Same id limit w2.env w2.tables w3.tables
        (tx_query-ok (insert_first_quota id limit) w2 e3).0 in
    let answer : r ≡ id = ground arith in
    let unknown' : directory w.tables p s ≡ none =
      sym (ap (λ (d : Directory). d p s) first.keeps_directory) ∙ unknown in
    rw (k1, k2, k3, answer)
      (record {
        sound = last.sound (keeps (first.sound sound));
        enrols = last.keeps_directory ∙ enrols ∙ ap (λ d. enrol d p s id) first.keeps_directory;
        known = λ old e. cc (e, unknown');
        fresh = λ e. absent;
        there = last.keeps_users id (grows id present);
      })

login_or_register_row-LoggedIn :
    (limit : ℕ) (p s : String) (c : MockClaimsInput) (w : World) {r : ℕ} (o : Option ℕ)
    → IsSound w.tables
    → identity_user p s w.tables ≡ o
    → (login_or_register_row limit p s c o w).0 ≡ ok r
    → LoggedIn p s r w.tables (login_or_register_row limit p s c o w).1.tables
login_or_register_row-LoggedIn limit p s c w none sound e h =
    insert_user_and_identity-LoggedIn limit p s c w sound h
login_or_register_row-LoggedIn limit p s c w (some id) sound e h =
    let (same, answer) = merge_claims-Same p s c id w h in
    rw answer (Same-LoggedIn p s id w.tables _ sound e same)

login_existing_row-LoggedIn :
    (p s : String) (c : MockClaimsInput) (w : World) {r : ℕ} (o : Option ℕ)
    → IsSound w.tables
    → identity_user p s w.tables ≡ o
    → (login_existing_row p s c o w).0 ≡ ok r
    → LoggedIn p s r w.tables (login_existing_row p s c o w).1.tables
      × (directory w.tables p s ≡ some r)
login_existing_row-LoggedIn p s c w none sound e h = cc
login_existing_row-LoggedIn p s c w (some id) sound e h =
    let (same, answer) = merge_claims-Same p s c id w h in
    rw answer (
      Same-LoggedIn p s id w.tables _ sound e same,
      sym (identity_user-directory w.tables p s sound) ∙ e,
    )

select_identity_user-ok :
    (p s : String) (w : World) {o : Option ℕ}
    → (tx_query (select_identity_user p s) w).0 ≡ ok o
    → (identity_user p s w.tables ≡ o)
      × ((tx_query (select_identity_user p s) w).1.tables ≡ w.tables)
unfolding tx_query
select_identity_user-ok p s w h = (ground arith, ground arith)

pub register_body-LoggedIn :
    (limit : ℕ) (p s : String) (c : MockClaimsInput) (w : World) {r : ℕ}
    → IsSound w.tables
    → (register_body limit p s c w).0 ≡ ok r
    → LoggedIn p s r w.tables (register_body limit p s c w).1.tables
register_body-LoggedIn limit p s c w {r} sound h =
    let (o, e, k, h') = >>=-ok (tx_query (select_identity_user p s)) _ w h in
    let w' = (tx_query (select_identity_user p s) w).1 in
    let (found, tables) = select_identity_user-ok p s w e in
    subst (λ t. LoggedIn p s r t (register_body limit p s c w).1.tables) tables
      (rw k
        (login_or_register_row-LoggedIn limit p s c w' o (rw tables sound) (rw tables found) h'))

pub existing_body-LoggedIn :
    (p s : String) (c : MockClaimsInput) (w : World) {r : ℕ}
    → IsSound w.tables
    → (existing_body p s c w).0 ≡ ok r
    → LoggedIn p s r w.tables (existing_body p s c w).1.tables × (directory w.tables p s ≡ some r)
existing_body-LoggedIn p s c w {r} sound h =
    let (o, e, k, h') = >>=-ok (tx_query (select_identity_user p s)) _ w h in
    let w' = (tx_query (select_identity_user p s) w).1 in
    let (found, tables) = select_identity_user-ok p s w e in
    subst (λ t. LoggedIn p s r t (existing_body p s c w).1.tables × (directory t p s ≡ some r))
      tables (rw k (login_existing_row-LoggedIn p s c w' o (rw tables sound) (rw tables found) h'))

find?-id : (id : ℕ) (us : List User) {u : User} → find? (λ u. u.id == id) us ≡ some u → u.id ≡ id
find?-id id [] h = cc
find?-id id (x ∷ us) {u} h = ground (arith, find?-id id us {u = u})

pub user_by_id-ok :
    (id : ℕ) (w : World)
    → ((user_by_id id w).1.tables ≡ w.tables)
      × ((u : User) → (user_by_id id w).0 ≡ ok u → u.id ≡ id)
unfolding user_by_id foreignreader_be.Db.query
user_by_id-ok id w = (ground arith, λ u h. ground (arith, find?-id id w.tables.users {u = u}))

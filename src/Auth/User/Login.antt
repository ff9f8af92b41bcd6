-- ===== src/Auth/User/Login.antt =====
-- LoginOrRegisterMock and LoginExistingByIdentity against the abstract directory of identities.
use foreignreader_be.Base.{
  ℕ, ◌+◌, ◌≡◌, refl, ◌⊎◌, inl, inr, String, Bool, true, false, Bool-cases, some, trim_space,
  is_empty,
}
use mathlib.Core.Path.{subst}
use foreignreader_be.Schema.{User, Tables}
use foreignreader_be.Db.{
  Error, Result, ok, err, World, Db, tx_query, transaction, fail, pure, ◌>>=◌, Result-cases,
}
use foreignreader_be.Db.Atomic.{transaction-err}
use foreignreader_be.Db.Inversion.{transaction-ok}
use foreignreader_be.Auth.User.{
  MockClaimsInput, user_by_id, register_body, existing_body, login_or_register_mock,
  login_existing_by_identity,
}
use foreignreader_be.Auth.User.Merge.{directory, IsSound}
use foreignreader_be.Auth.User.Enrol.{
  LoggedIn, register_body-LoggedIn, existing_body-LoggedIn, user_by_id-ok,
}

-- A transaction that gives a user's id, and UserByID after it.
module _ (body : Db ℕ) (P : ℕ → Tables → Type 0) (w : World) where
  abbrev signed_in : Db User
  signed_in = do id ← transaction body; user_by_id id

  -- The user may have been stored though the answer is an error: reading the row back may fail.
  abbrev pub Outcome : Result User → Tables → Type 0
  Outcome answer t =
      ((u : User) → answer ≡ ok u → P u.id t)
      × ((e : Error) → answer ≡ err e → (t ≡ w.tables) ⊎ ((id : ℕ) × P id t))

  read_back :
      (r : Result ℕ) (w' : World)
      → ((id : ℕ) → r ≡ ok id → P id w'.tables)
      → ((e : Error) → r ≡ err e → w'.tables ≡ w.tables)
      → let end = foreignreader_be.Db.continue r user_by_id w' in Outcome end.0 end.1.tables
  read_back (ok id) w' good bad =
      let (tables, same) = user_by_id-ok id w' in
      ((λ u h. rw (tables, same u h) (good id refl)), (λ e h. inr (id, rw tables (good id refl))))
  read_back (err e) w' good bad = ((λ u h. cc), (λ e' h. inl (bad e refl)))

  signed_in-Outcome :
      (let w' = record w { calls = w.calls + 1; poisoned = false } in
        (id : ℕ) → (body w').0 ≡ ok id → P id (body w').1.tables)
      → Outcome (signed_in w).0 (signed_in w).1.tables
  signed_in-Outcome h =
      read_back (transaction body w).0 (transaction body w).1
        (λ id e. let (e', tables) = transaction-ok body w e in subst (P id) tables (h id e'))
        (λ e e'. transaction-err body w e')

abbrev pub SignsIn : String → MockClaimsInput → Tables → ℕ → Tables → Type 0
SignsIn provider c t id t' = LoggedIn provider (trim_space c.sub) id t t'

-- The same for an identity that the directory had already.
abbrev pub SignsInKnown : String → MockClaimsInput → Tables → ℕ → Tables → Type 0
SignsInKnown provider c t id t' =
    LoggedIn provider (trim_space c.sub) id t t'
    × (directory t provider (trim_space c.sub) ≡ some id)

-- If the identities have users and are distinct: LoginOrRegisterMock that answers with a user has
-- signed the identity in as that user, and the tables are as sound as before. If it answers with an
-- error, the tables are as they were, or the identity was signed in all the same.
pub login_or_register_mock-LoggedIn :
    (configured : Bool) (limit : ℕ) (provider : String) (c : MockClaimsInput) (w : World)
    → IsSound w.tables
    → let (answer, w') = login_or_register_mock configured limit provider c w in
      ((u : User) → answer ≡ ok u → SignsIn provider c w.tables u.id w'.tables)
      × ((e : Error)
          → answer ≡ err e
          → (w'.tables ≡ w.tables) ⊎ ((id : ℕ) × SignsIn provider c w.tables id w'.tables))
unfolding login_or_register_mock
login_or_register_mock-LoggedIn false limit provider c w sound = ((λ u h. cc), (λ e h. inl refl))
login_or_register_mock-LoggedIn true limit provider c w sound =
    elim (Bool-cases (is_empty (trim_space c.sub))) [
      | inl blank ↦ rw blank ((λ u h. cc), (λ e h. inl refl))
      | inr sub ↦ rw sub (
          signed_in-Outcome (register_body limit provider (trim_space c.sub) c)
            (SignsIn provider c w.tables) w
            (λ id h.
              register_body-LoggedIn limit provider (trim_space c.sub) c
                (record w { calls = w.calls + 1; poisoned = false }) sound h))
    ]

-- If the identities have users and are distinct: LoginExistingByIdentity that answers with a user
-- was asked for an identity of the directory, answers with its user, and leaves the directory as it
-- was; with an error it leaves the tables or at least the directory as they were.
pub login_existing_by_identity-known :
    (configured : Bool) (provider : String) (c : MockClaimsInput) (w : World)
    → IsSound w.tables
    → let (answer, w') = login_existing_by_identity configured provider c w in
      ((u : User) → answer ≡ ok u → SignsInKnown provider c w.tables u.id w'.tables)
      × ((e : Error)
          → answer ≡ err e
          → (w'.tables ≡ w.tables) ⊎ ((id : ℕ) × SignsInKnown provider c w.tables id w'.tables))
unfolding login_existing_by_identity
login_existing_by_identity-known false provider c w sound = ((λ u h. cc), (λ e h. inl refl))
login_existing_by_identity-known true provider c w sound =
    elim (Bool-cases (is_empty (trim_space c.sub))) [
      | inl blank ↦ rw blank ((λ u h. cc), (λ e h. inl refl))
      | inr sub ↦ rw sub (
          signed_in-Outcome (existing_body provider (trim_space c.sub) c)
            (SignsInKnown provider c w.tables) w
            (λ id h.
              existing_body-LoggedIn provider (trim_space c.sub) c
                (record w { calls = w.calls + 1; poisoned = false }) sound h))
    ]

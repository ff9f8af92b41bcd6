-- ===== src/Auth/User/Again.antt =====
-- Any sequence of logins, from the app and from the web, with any failures between.
use foreignreader_be.Base.{
  ℕ, ◌≡◌, ap, ◌∙◌, ◌⊎◌, inl, inr, String, Bool, true, false, List, [], ◌∷◌, some, arith, trim_space,
}
use foreignreader_be.Schema.{User, Tables}
use foreignreader_be.Db.{Error, Result-cases, ok, err, Env, World, Db}
use foreignreader_be.Auth.User.{MockClaimsInput, login_or_register_mock, login_existing_by_identity}
use foreignreader_be.Auth.User.Merge.{Directory, directory, enrol, IsSound}
use foreignreader_be.Auth.User.Enrol.{LoggedIn, LoggedIn-directory}
use foreignreader_be.Auth.User.Login.{
  SignsIn, login_or_register_mock-LoggedIn, login_existing_by_identity-known,
}

-- A login, in the environment that it runs in.
pub record Request : Type 0 where
  pub env : Env
  pub from_app : Bool
  pub provider : String
  pub claims : MockClaimsInput

abbrev pub subject : Request → String
subject r = trim_space r.claims.sub

abbrev sign_in_from : ℕ → Bool → String → MockClaimsInput → Db User
sign_in_from limit true provider c = login_or_register_mock true limit provider c
sign_in_from limit false provider c = login_existing_by_identity true provider c

-- The store's part of completeAuthLogin, for both sources.
unfoldable pub sign_in : ℕ → Request → Db User
sign_in limit r w = sign_in_from limit r.from_app r.provider r.claims (record w { env = r.env })

unfoldable pub run : ℕ → List Request → World → World
unfolding sign_in
run limit [] w = w
run limit (r ∷ rs) w = run limit rs (sign_in limit r w).1

abbrev Signed : Request → Tables → ℕ → Tables → Type 0
Signed r t id t' = LoggedIn r.provider (subject r) id t t'

sign_in_from-LoggedIn :
    (limit : ℕ) (app : Bool) (p : String) (c : MockClaimsInput) (w : World)
    → IsSound w.tables
    → let (answer, w') = sign_in_from limit app p c w in
      ((u : User) → answer ≡ ok u → SignsIn p c w.tables u.id w'.tables)
      × ((e : Error)
          → answer ≡ err e
          → (w'.tables ≡ w.tables) ⊎ ((id : ℕ) × SignsIn p c w.tables id w'.tables))
sign_in_from-LoggedIn limit true p c w sound =
    login_or_register_mock-LoggedIn true limit p c w sound
sign_in_from-LoggedIn limit false p c w sound =
    let (good, bad) = login_existing_by_identity-known true p c w sound in
    (
      (λ u h. (good u h).0),
      (λ e h. elim (bad e h) [ inl same ↦ inl same | inr (id, signed) ↦ inr (id, signed.0) ]),
    )

-- What every login leaves: sound tables, and the entries of the directory as they were.
abbrev Preserves : Tables → Tables → Type 0
Preserves t t' =
    IsSound t' × ((p s : String) (id : ℕ) → directory t p s ≡ some id → directory t' p s ≡ some id)

enrol-keeps :
    (d : Directory) (p s q r : String) (id old : ℕ)
    → d q r ≡ some old
    → enrol d p s id q r ≡ some old
enrol-keeps d p s q r id old h = ground arith

LoggedIn-Preserves : (p s : String) (id : ℕ) (t t' : Tables) → LoggedIn p s id t t' → Preserves t t'
LoggedIn-Preserves p s id t t' l = (
  l.sound,
  λ q r old h. ap (λ (d : Directory). d q r) l.enrols ∙ enrol-keeps (directory t) p s q r id old h,
)

sign_in-Preserves :
    (limit : ℕ) (r : Request) (w : World)
    → IsSound w.tables
    → Preserves w.tables (sign_in limit r w).1.tables
unfolding sign_in
sign_in-Preserves limit r w sound =
    let w0 : World = record w { env = r.env } in
    let (good, bad) = sign_in_from-LoggedIn limit r.from_app r.provider r.claims w0 sound in
    elim (Result-cases (sign_in_from limit r.from_app r.provider r.claims w0).0) [
      | inl (u, h) ↦ LoggedIn-Preserves r.provider (subject r) u.id w.tables _ (good u h)
      | inr (e, h) ↦ elim (bad e h) [
        | inl same ↦ rw same (sound, λ q s old k. k)
        | inr (id, signed) ↦ LoggedIn-Preserves r.provider (subject r) id w.tables _ signed
      ]
    ]

-- If the identities have users and are distinct, they are so after any sequence of logins, failed
-- ones included, and every identity of the directory still has the user that it had.
pub run-Preserves :
    (limit : ℕ) (rs : List Request) (w : World)
    → IsSound w.tables
    → IsSound (run limit rs w).tables
      × ((p s : String) (id : ℕ)
          → directory w.tables p s ≡ some id
          → directory (run limit rs w).tables p s ≡ some id)
unfolding run
run-Preserves limit [] w sound = (sound, λ p s id h. h)
run-Preserves limit (r ∷ rs) w sound =
    let (sound', keeps) = sign_in-Preserves limit r w sound in
    let (sound'', keeps') = run-Preserves limit rs (sign_in limit r w).1 sound' in
    (sound'', λ p s id h. keeps' p s id (keeps p s id h))

sign_in-directory :
    (limit : ℕ) (r : Request) (w : World) {u : User}
    → IsSound w.tables
    → (sign_in limit r w).0 ≡ ok u
    → (directory (sign_in limit r w).1.tables r.provider (subject r) ≡ some u.id)
      × ((old : ℕ) → directory w.tables r.provider (subject r) ≡ some old → u.id ≡ old)
unfolding sign_in
sign_in-directory limit r w {u} sound h =
    let w0 : World = record w { env = r.env } in
    let signed = (sign_in_from-LoggedIn limit r.from_app r.provider r.claims w0 sound).0 u h in
    (
      LoggedIn-directory r.provider (subject r) u.id w.tables (sign_in limit r w).1.tables signed,
      signed.known,
    )

-- If the identities have users and are distinct: two logins with the same provider and subject,
-- from the app or the web, sign in the same user, whatever logins come between and whichever
-- calls of the database fail.
pub sign_in_again :
    (limit : ℕ) (r r' : Request) (between : List Request) (w : World) {u u' : User}
    → IsSound w.tables
    → r'.provider ≡ r.provider
    → subject r' ≡ subject r
    → (sign_in limit r w).0 ≡ ok u
    → (sign_in limit r' (run limit between (sign_in limit r w).1)).0 ≡ ok u'
    → u'.id ≡ u.id
sign_in_again limit r r' between w {u} sound provider sub h h' =
    let first = sign_in-directory limit r w sound h in
    let (sound', _) = sign_in-Preserves limit r w sound in
    let (sound'', keeps) = run-Preserves limit between (sign_in limit r w).1 sound' in
    (sign_in-directory limit r' (run limit between (sign_in limit r w).1) sound'' h').1 u.id
      (rw (provider, sub) (keeps r.provider (subject r) u.id first.0))

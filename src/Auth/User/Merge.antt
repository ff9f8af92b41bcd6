-- ===== src/Auth/User/Merge.antt =====
-- The directory of identities, as an abstract map, and what each statement of a login does to it.
use foreignreader_be.Base.{
  ℕ, ◌≡◌, refl, String, str_eq, eq_iff, Bool, true, false, ◌&&◌, not, List, [], ◌∷◌, Option, none,
  some, ◌==◌, if◌then◌else◌, arith, any, all, find?, update,
}
use mathlib.Core.Path.{fun_ext}
use foreignreader_be.Schema.{User, Identity, Tables}
use foreignreader_be.Db.{ok, Env}
use foreignreader_be.Quota.{insert_initial}
use foreignreader_be.Auth.User.{
  MockClaimsInput, is_identity, is_user, user_of, identity_user, insert_user, insert_identity,
  insert_first_quota, merged_user, update_user, with_email, update_identity_email,
}

-- Which user an identity signs in, as a map from (provider, subject).
abbrev pub Directory : Type 0
Directory = String → String → Option ℕ

abbrev pub directory : Tables → Directory
directory t provider sub = user_of (find? (is_identity provider sub) t.identities)

abbrev enrolled : Option ℕ → Bool → ℕ → Option ℕ
enrolled (some id) b new = some id
enrolled none b new = if b then some new else none

-- The abstract login: an identity that is unknown is given to the user `id`, and no other changes.
abbrev pub enrol : Directory → String → String → ℕ → Directory
enrol d provider sub id p s = enrolled (d p s) (str_eq provider p && str_eq sub s) id

abbrev have_users : Tables → List Identity → Bool
have_users t is = all (λ i. is_user i.user_id t) is

-- What the constraints of the schema say of the two tables: the identities have users, and no two
-- of them share provider and subject.
abbrev pub are_distinct : List Identity → Bool
are_distinct [] = true
are_distinct (i ∷ is) = not (any (is_identity i.provider i.provider_user_id) is) && are_distinct is

pub record IsSound (t : Tables) : Type 0 where
  pub users_exist : have_users t t.identities ≡ true
  pub distinct : are_distinct t.identities ≡ true

-- With sound tables the join with `users` drops no identity.
joined :
    (t : Tables) (provider sub : String) (is : List Identity)
    → have_users t is ≡ true
    → find? (λ i. is_identity provider sub i && is_user i.user_id t) is
      ≡ find? (is_identity provider sub) is
joined t provider sub [] h = refl
joined t provider sub (i ∷ is) h = ground (arith, joined t provider sub is)

pub identity_user-directory :
    (t : Tables) (provider sub : String)
    → IsSound t
    → identity_user provider sub t ≡ directory t provider sub
identity_user-directory t provider sub h =
    ground (arith, joined t provider sub t.identities h.users_exist)

has_id-update :
    (c : MockClaimsInput) (id now x : ℕ) (us : List User)
    → any (λ u. u.id == x) (update (λ u. u.id == id) (merged_user c now) us)
      ≡ any (λ u. u.id == x) us
has_id-update c id now x [] = refl
has_id-update c id now x (u ∷ us) = ground (arith, has_id-update c id now x us)

have_users_mono :
    (t t' : Tables) (is : List Identity)
    → ((x : ℕ) → is_user x t ≡ true → is_user x t' ≡ true)
    → have_users t is ≡ true
    → have_users t' is ≡ true
have_users_mono t t' [] grows h = refl
have_users_mono t t' (i ∷ is) grows h =
    ground (arith, grows i.user_id, have_users_mono t t' is grows)

module _ (provider sub email : String) (now : ℕ) where
  abbrev emailed : List Identity → List Identity
  emailed is = update (is_identity provider sub) (with_email email now) is

  user_of-emailed :
      (p s : String) (is : List Identity)
      → user_of (find? (is_identity p s) (emailed is)) ≡ user_of (find? (is_identity p s) is)
  user_of-emailed p s [] = refl
  user_of-emailed p s (i ∷ is) = ground (arith, user_of-emailed p s is)

  have_users-emailed :
      (t : Tables) (is : List Identity) → have_users t is ≡ true → have_users t (emailed is) ≡ true
  have_users-emailed t [] h = refl
  have_users-emailed t (i ∷ is) h = ground (arith, have_users-emailed t is)

  any-emailed :
      (p s : String) (is : List Identity)
      → any (is_identity p s) (emailed is) ≡ any (is_identity p s) is
  any-emailed p s [] = refl
  any-emailed p s (i ∷ is) = ground (arith, any-emailed p s is)

  are_distinct-emailed :
      (is : List Identity) → are_distinct is ≡ true → are_distinct (emailed is) ≡ true
  are_distinct-emailed [] h = refl
  are_distinct-emailed (i ∷ is) h =
      ground (arith, are_distinct-emailed is, any-emailed i.provider i.provider_user_id is)

-- A step that leaves the directory as it was: the tables stay sound, and no user goes.
pub record Same (t t' : Tables) : Type 0 where
  pub sound : IsSound t → IsSound t'
  pub keeps_directory : directory t' ≡ directory t
  pub keeps_users : (x : ℕ) → is_user x t ≡ true → is_user x t' ≡ true

pub Same-refl : (t : Tables) → Same t t
Same-refl t = record { sound = λ h. h; keeps_directory = refl; keeps_users = λ x h. h }

pub Same-trans : {t t' t'' : Tables} → Same t t' → Same t' t'' → Same t t''
Same-trans a b = record {
  sound = λ h. b.sound (a.sound h);
  keeps_directory = cc (a.keeps_directory, b.keeps_directory);
  keeps_users = λ x h. b.keeps_users x (a.keeps_users x h);
}

pub update_user-Same :
    (id : ℕ) (c : MockClaimsInput) (env : Env) (t t' : Tables)
    → update_user id c env t ≡ ok (tt, t')
    → Same t t'
unfolding update_user
update_user-Same id c env t t' h =
    let users : t' ≡ record t { users = update (λ u. u.id == id) (merged_user c env.now) t.users } =
      ground arith in
    let grows : (x : ℕ) → is_user x t ≡ true → is_user x t' ≡ true =
      λ x e. ground (arith, has_id-update c id env.now x t.users) in
    record {
      sound = λ s. record {
        users_exist = ground (arith, have_users_mono t t' t.identities grows s.users_exist);
        distinct = ground (arith, s.distinct);
      };
      keeps_directory = fun_ext λ p. fun_ext λ q. ground arith;
      keeps_users = grows;
    }

pub update_identity_email-Same :
    (provider sub email : String) (env : Env) (t t' : Tables)
    → update_identity_email provider sub email env t ≡ ok (tt, t')
    → Same t t'
unfolding update_identity_email
update_identity_email-Same provider sub email env t t' h = record {
  sound = λ s. record {
    users_exist = ground (
      arith,
      have_users-emailed provider sub email env.now t t.identities s.users_exist,
      have_users_mono t t' (emailed provider sub email env.now t.identities) (λ x e. ground arith),
    );
    distinct =
        ground (arith, are_distinct-emailed provider sub email env.now t.identities s.distinct);
  };
  keeps_directory =
      fun_ext λ p.
        fun_ext λ q. ground (arith, user_of-emailed provider sub email env.now p q t.identities);
  keeps_users = λ x e. ground arith;
}

pub insert_user-Same :
    (c : MockClaimsInput) (env : Env) (t t' : Tables) (id : ℕ)
    → insert_user c env t ≡ ok (id, t')
    → Same t t' × (is_user id t ≡ false) × (is_user id t' ≡ true)
unfolding insert_user
insert_user-Same c env t t' id h =
    let grows : (x : ℕ) → is_user x t ≡ true → is_user x t' ≡ true = λ x e. ground arith in
    (
      record {
        sound = λ s. record {
          users_exist = ground (arith, have_users_mono t t' t.identities grows s.users_exist);
          distinct = ground (arith, s.distinct);
        };
        keeps_directory = fun_ext λ p. fun_ext λ q. ground arith;
        keeps_users = grows;
      },
      ground arith,
      ground arith,
    )

pub insert_first_quota-Same :
    (user limit : ℕ) (env : Env) (t t' : Tables)
    → insert_first_quota user limit env t ≡ ok (tt, t')
    → Same t t'
unfolding insert_first_quota insert_initial
insert_first_quota-Same user limit env t t' h =
    let grows : (x : ℕ) → is_user x t ≡ true → is_user x t' ≡ true = λ x e. ground arith in
    record {
      sound = λ s. record {
        users_exist = ground (arith, have_users_mono t t' t.identities grows s.users_exist);
        distinct = ground (arith, s.distinct);
      };
      keeps_directory = fun_ext λ p. fun_ext λ q. ground arith;
      keeps_users = grows;
    }

find?-any :
    (p s : String) (is : List Identity)
    → any (is_identity p s) is ≡ false
    → find? (is_identity p s) is ≡ none
find?-any p s [] h = refl
find?-any p s (i ∷ is) h = ground (arith, find?-any p s is)

-- The new identity enrols the user, and the tables stay sound.
pub insert_identity-enrol :
    (user : ℕ) (provider sub : String) (email : Option String) (env : Env) (t t' : Tables)
    → insert_identity user provider sub email env t ≡ ok (tt, t')
    → (IsSound t → IsSound t')
      × (directory t' ≡ enrol (directory t) provider sub user)
      × ((x : ℕ) → is_user x t ≡ true → is_user x t' ≡ true)
      × (directory t provider sub ≡ none)
unfolding insert_identity
insert_identity-enrol user provider sub email env t t' h =
    let grows : (x : ℕ) → is_user x t ≡ true → is_user x t' ≡ true = λ x e. ground arith in
    let absent : find? (is_identity provider sub) t.identities ≡ none =
      ground (arith, find?-any provider sub t.identities) in
    (
      (λ s. record {
        users_exist = ground (arith, have_users_mono t t' t.identities grows s.users_exist);
        distinct = ground (arith, s.distinct);
      }),
      (fun_ext λ p. fun_ext λ q. ground (arith, eq_iff provider p, eq_iff sub q)),
      grows,
      ground arith,
    )

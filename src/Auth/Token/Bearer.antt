-- ===== src/Auth/Token/Bearer.antt =====
-- Which requests bearerAuthHandler lets in.
use foreignreader_be.Base.{
  ℕ, ◌+◌, ◌<◌, ◌≡◌, refl, sym, ◌∙◌, ap, ◌⊎◌, inl, inr, String, Bool, true, false, List, [], ◌∷◌,
  Option, none, some, Option-cases, arith, trim_space, trim_left, trim_right, is_empty, append,
  codes, lower_code, trim_space-word, trim_right-append, ◌==◌, if◌then◌else◌,
}
use foreignreader_be.Schema.{User}
use foreignreader_be.Db.{Error, Result-cases, ok, err, World}
use foreignreader_be.Http.{api_error, Handler}
use foreignreader_be.Auth.User.{user_by_id}
use foreignreader_be.Auth.User.Enrol.{user_by_id-ok}
use foreignreader_be.Auth.Token.{
  TokenLibrary, IsTokenLibrary, TokenIssuer, issue_access_token, parse_access_token, parse_bearer,
  after_prefix, session_from_context, let_in, bearer_auth_handler, hs256, app_claims,
}
use foreignreader_be.Auth.Token.RoundTrip.{parse-issue_access_token, issue_access_token-some}

trim_left-bearer : (s : String) → trim_left (append "Bearer " s) ≡ append "Bearer " s
unfolding foreignreader_be.Base.trim_left
trim_left-bearer s = refl

after_prefix-bearer : (s : String) → after_prefix (codes "bearer ") (append "Bearer " s) ≡ some s
unfolding foreignreader_be.Base.lower_code
after_prefix-bearer s = refl

-- A word after `Bearer ` is the token.
pub parse_bearer-word :
    (token : String)
    → trim_space token ≡ token
    → is_empty token ≡ false
    → parse_bearer (append "Bearer " token) ≡ some token
unfolding parse_bearer foreignreader_be.Base.trim_space
parse_bearer-word token word full =
    let ends = trim_right-append "Bearer " token (trim_space-word token word) full in
    let same : trim_space (append "Bearer " token) ≡ append "Bearer " token =
      ap trim_right (trim_left-bearer token) ∙ ends.0 in
    rw (same, after_prefix-bearer token, word, full) refl

module _ {ℓ} {A : Type ℓ} (lib : TokenLibrary) (issuer : TokenIssuer) where
  -- The requests that are let in: `next` runs for the user and the session of a token that parses.
  abbrev pub IsLetIn : String → (User → Option ℕ → Handler A) → World → Type ℓ
  IsLetIn header next w =
      (raw : String) × (user : ℕ) × (provider : String) × (sid : ℕ) × (u : User) × (parse_bearer
          header
        ≡ some raw)
      × (parse_access_token lib issuer w.env.now raw ≡ some (user, provider, sid))
      × ((user_by_id user w).0 ≡ ok u)
      × (u.id ≡ user)
      × (bearer_auth_handler lib issuer header next w
          ≡ next u (session_from_context sid) (user_by_id user w).1)

  -- The others: an error is answered, and the tables stay.
  abbrev pub IsTurnedAway : String → (User → Option ℕ → Handler A) → World → Type ℓ
  IsTurnedAway header next w =
      let (answer, w') = bearer_auth_handler lib issuer header next w in
      ((answer ≡ api_error 401 "unauthorized")
        ⊎ (answer ≡ api_error 401 "user_not_found")
        ⊎ (answer ≡ api_error 500 "internal_error"))
      × (w'.tables ≡ w.tables)

  let_in-err :
      (sid : Option ℕ) (e : Error) (w' w : World) (next : User → Option ℕ → Handler A)
      → w'.tables ≡ w.tables
      → let (answer, w'') = let_in lib issuer sid (err e, w') next in
        ((answer ≡ api_error 401 "unauthorized")
          ⊎ (answer ≡ api_error 401 "user_not_found")
          ⊎ (answer ≡ api_error 500 "internal_error"))
        × (w''.tables ≡ w.tables)
  let_in-err sid e w' w next same = (ground arith, ground arith)

  -- Every request with an `Authorization` header, or without one, is turned away with 401 or 500 and
  -- the tables as they were, or it has a bearer token that parses and whose user exists, and
  -- is handled for that user and the session that the token names.
  pub bearer_auth_handler-cases :
      (header : String) (next : User → Option ℕ → Handler A) (w : World)
      → IsTurnedAway header next w ⊎ IsLetIn header next w
  unfolding bearer_auth_handler
  bearer_auth_handler-cases header next w = elim (Option-cases (parse_bearer header)) [
    | inl absent ↦ inl (rw absent (inl refl, refl))
    | inr (raw, found) ↦ elim (Option-cases (parse_access_token lib issuer w.env.now raw)) [
      | inl bad ↦ inl (rw (found, bad) (inl refl, refl))
      | inr ((user, provider, sid), parsed) ↦ elim (Result-cases (user_by_id user w).0) [
        | inl (u, e) ↦ inr (
          raw,
          user,
          provider,
          sid,
          u,
          found,
          parsed,
          e,
          (user_by_id-ok user w).1 u e,
          rw (found, parsed, e) refl,
        )
        | inr (e, h) ↦ inl (
            rw (found, parsed, h)
              (let_in-err (session_from_context sid) e (user_by_id user w).1 w next
                (user_by_id-ok user w).0))
      ]
    ]
  ]

  -- With a library that keeps its word, and a provider that is not blank: a request that carries an
  -- access token of the app before it expires is handled for the user and the session that the token
  -- was issued for, if the user's row can be read.
  pub bearer_auth_handler-issued :
      (lawful : IsTokenLibrary lib) (now user : ℕ) (provider : String) (sid : ℕ)
      (next : User → Option ℕ → Handler A) (w : World) {token : String} {expires : ℕ} {u : User}
      → is_empty (trim_space provider) ≡ false
      → issue_access_token lib issuer now user provider sid ≡ some (token, expires)
      → w.env.now < lib.new_numeric_date expires
      → (user_by_id user w).0 ≡ ok u
      → bearer_auth_handler lib issuer (append "Bearer " token) next w
        ≡ next u (session_from_context sid) (user_by_id user w).1
  unfolding bearer_auth_handler
  bearer_auth_handler-issued lawful now user provider sid next w {token} full h early row =
      let claims = app_claims lib now (now + issuer.access_token_ttl) user provider sid in
      let (signed, _) = issue_access_token-some lib lawful issuer now user provider sid h in
      let (word, some_text) = lawful.token_is_word hs256 issuer.secret claims token signed in
      rw
        (
          parse_bearer-word token word some_text,
          parse-issue_access_token lib lawful issuer now w.env.now user provider sid full h early,
          row,
        )
        refl

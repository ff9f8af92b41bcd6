-- ===== src/Auth/Token/RoundTrip.antt =====
-- Access tokens, issued and parsed.
use foreignreader_be.Base.{
  ℕ, ◌+◌, ◌<◌, ◌≡◌, refl, String, Bool, true, false, Option, none, some, arith, Bool-cases, inl,
  inr, trim_space, is_empty, ◌==◌, if◌then◌else◌,
}
use foreignreader_be.Auth.Token.{
  hs256, TokenLibrary, IsTokenLibrary, TokenIssuer, app_claims, issue_access_token, web_claims,
  issue_web_access_token, secret_for, session_of, accept, parse_access_token, is_accepted_type,
  token_type_web,
}

trim_blank : trim_space "" ≡ ""
unfolding foreignreader_be.Base.trim_space
trim_blank = refl

trim_web : trim_space token_type_web ≡ token_type_web
unfolding foreignreader_be.Base.trim_space
trim_web = refl

app_accepted : is_accepted_type (trim_space "") (trim_space "") ≡ true
unfolding foreignreader_be.Base.trim_space
app_accepted = refl

web_accepted : is_accepted_type (trim_space token_type_web) (trim_space token_type_web) ≡ true
unfolding foreignreader_be.Base.trim_space
web_accepted = refl

module _ (lib : TokenLibrary) (lawful : IsTokenLibrary lib) where
  session_of-sid :
      (sid : ℕ)
      → session_of lib (trim_space (if sid == 0 then "" else lib.uuid_string sid)) ≡ some sid
  session_of-sid sid = elim (Bool-cases (sid == 0)) [
    | inl none_named ↦ rw (none_named, trim_blank) (ground arith)
    | inr named ↦
        rw (named, (lawful.uuid_is_word sid).0, (lawful.uuid_is_word sid).1)
          (lawful.uuid_parses sid)
  ]

  accept-app :
      (now expires user : ℕ) (provider : String) (sid : ℕ)
      → is_empty (trim_space provider) ≡ false
      → accept lib (some (app_claims lib now expires user provider sid))
        ≡ some (user, trim_space provider, sid)
  accept-app now expires user provider sid h =
      rw
        (
          (lawful.uuid_is_word user).0,
          (lawful.uuid_is_word user).1,
          h,
          app_accepted,
          lawful.uuid_parses user,
          session_of-sid sid,
        )
        refl

  accept-web :
      (now expires user : ℕ) (provider : String)
      → is_empty (trim_space provider) ≡ false
      → accept lib (some (web_claims lib now expires user provider))
        ≡ some (user, trim_space provider, 0)
  accept-web now expires user provider h =
      rw
        (
          (lawful.uuid_is_word user).0,
          (lawful.uuid_is_word user).1,
          h,
          web_accepted,
          lawful.uuid_parses user,
          trim_blank,
        )
        refl

  pub issue_access_token-some :
      (t : TokenIssuer) (now user : ℕ) (provider : String) (sid : ℕ) {token : String} {expires : ℕ}
      → issue_access_token lib t now user provider sid ≡ some (token, expires)
      → (lib.signed_string hs256 t.secret
            (app_claims lib now (now + t.access_token_ttl) user provider sid)
          ≡ some token)
        × (expires ≡ now + t.access_token_ttl)
  unfolding issue_access_token
  issue_access_token-some t now user provider sid h = (ground arith, ground arith)

  pub issue_web_access_token-some :
      (t : TokenIssuer) (now user : ℕ) (provider : String) {token : String} {expires : ℕ}
      → issue_web_access_token lib t now user provider ≡ some (token, expires)
      → (lib.signed_string hs256 t.secret
            (web_claims lib now (now + t.access_token_ttl) user provider)
          ≡ some token)
        × (expires ≡ now + t.access_token_ttl)
  unfolding issue_web_access_token
  issue_web_access_token-some t now user provider h = (ground arith, ground arith)

  -- With a library that keeps its word, and a provider that is not blank: until it expires, the
  -- access token of the app is parsed to the user, the provider and the session that it was issued for.
  pub parse-issue_access_token :
      (t : TokenIssuer) (now now' user : ℕ) (provider : String) (sid : ℕ) {token : String}
      {expires : ℕ}
      → is_empty (trim_space provider) ≡ false
      → issue_access_token lib t now user provider sid ≡ some (token, expires)
      → now' < lib.new_numeric_date expires
      → parse_access_token lib t now' token ≡ some (user, trim_space provider, sid)
  unfolding parse_access_token
  parse-issue_access_token t now now' user provider sid {token} {expires} full h early =
      let (signed, at) = issue_access_token-some t now user provider sid h in
      let claims = app_claims lib now (now + t.access_token_ttl) user provider sid in
      let parsed =
        lawful.parses hs256 t.secret claims token now' (secret_for lib t) now
          (now + t.access_token_ttl) refl refl signed refl (rw at at early) in
      rw parsed (accept-app now (now + t.access_token_ttl) user provider sid full)

  -- The same for the access token of the web, which is for no session.
  pub parse-issue_web_access_token :
      (t : TokenIssuer) (now now' user : ℕ) (provider : String) {token : String} {expires : ℕ}
      → is_empty (trim_space provider) ≡ false
      → issue_web_access_token lib t now user provider ≡ some (token, expires)
      → now' < lib.new_numeric_date expires
      → parse_access_token lib t now' token ≡ some (user, trim_space provider, 0)
  unfolding parse_access_token
  parse-issue_web_access_token t now now' user provider {token} {expires} full h early =
      let (signed, at) = issue_web_access_token-some t now user provider h in
      let claims = web_claims lib now (now + t.access_token_ttl) user provider in
      let parsed =
        lawful.parses hs256 t.secret claims token now' (secret_for lib t) now
          (now + t.access_token_ttl) refl refl signed refl (rw at at early) in
      rw parsed (accept-web now (now + t.access_token_ttl) user provider full)

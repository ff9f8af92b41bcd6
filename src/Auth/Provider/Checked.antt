-- ===== src/Auth/Provider/Checked.antt =====
-- What VerifyIdentityToken has checked when it gives claims, and how often it asks for Apple's keys.
use foreignreader_be.Base.{
  ℕ, ◌+◌, ◌≤◌, ◌≡◌, refl, inl, inr, String, str_eq, Bool, true, false, not, ◌&&◌, ◌||◌, is_nil, ltb,
  List, [], Option, none, some, Option-cases, Bool-cases, arith, trim_space, is_empty, ℤ,
}
use foreignreader_be.Auth.User.{MockClaimsInput}
use foreignreader_be.Auth.Provider.{lookup}
use foreignreader_be.Auth.Provider.Apple.{
  AppleLibrary, AppleIdTokenClaims, AppleJwk, RsaPublicKey, TokenHeader, JwksCache, AppleVerifier,
  new_apple_verifier, usable_keys, fetched, cached, keys, key_func, audience_matches, is_nonce_met,
  apple_claims, checked, with_header, verify_with_cache, or_retry, verify_identity_token,
}

module _ (lib : AppleLibrary) where
  -- The keys are those of one of Apple's answers.
  abbrev pub AreApples : List (String × RsaPublicKey) → Type 0
  AreApples ks =
      (n : ℕ) × (jwks : List AppleJwk) × (lib.fetch n ≡ some jwks) × (ks ≡ usable_keys lib jwks [])

  abbrev IsApples : JwksCache → Type 0
  IsApples c = (ks : List (String × RsaPublicKey)) → c.keys_by_kid ≡ some ks → AreApples ks

  fetched-AreApples :
      (now : ℕ) (o : Option (List AppleJwk)) (n : ℕ) (c : JwksCache)
      → lib.fetch n ≡ o
      → IsApples c
      → IsApples (fetched lib now o c).1
        × ((ks : List (String × RsaPublicKey)) → (fetched lib now o c).0 ≡ some ks → AreApples ks)
        × ((fetched lib now o c).1.fetches ≡ c.fetches)
  fetched-AreApples now none n c e old = (old, λ ks h. cc, refl)
  fetched-AreApples now (some jwks) n c e old =
      elim (Bool-cases (is_nil (usable_keys lib jwks []))) [
        | inl empty ↦ rw empty (old, λ ks h. cc, refl)
        | inr full ↦
            rw full
              ((λ ks h. (n, jwks, e, ground arith)), (λ ks h. (n, jwks, e, ground arith)), refl)
      ]

  cached-AreApples :
      (now : ℕ) (force : Bool) (c : JwksCache) (o : Option (List (String × RsaPublicKey)))
      → c.keys_by_kid ≡ o
      → IsApples c
      → IsApples (cached lib now force c o).1
        × ((ks : List (String × RsaPublicKey))
            → (cached lib now force c o).0 ≡ some ks
            → AreApples ks)
        × ((cached lib now force c o).1.fetches ≤ c.fetches + 1)
  cached-AreApples now force c none e old =
      let (a, b, n) =
        fetched-AreApples now (lib.fetch c.fetches) c.fetches (record c { fetches = c.fetches + 1 })
          refl old in
      (a, b, omega arith)
  cached-AreApples now force c (some ks) e old =
      elim (Bool-cases (not force && ltb now c.expires_at)) [
        | inl hit ↦ rw hit (old, (λ ks' h. old ks' (ground arith)), omega arith)
        | inr miss ↦ rw miss (
            let (a, b, n) =
              fetched-AreApples now (lib.fetch c.fetches) c.fetches
                (record c { fetches = c.fetches + 1 }) refl old in
            (a, b, omega arith))
      ]

  -- The claims were checked with a key of Apple's: the token's header names it and RS256, the library
  -- verifies the token with it, the audience is allowed, the subject is not blank and the nonce is met.
  abbrev pub IsChecked : ℕ → List String → String → Option String → MockClaimsInput → Type 0
  IsChecked now audiences token wanted claims =
      (h : TokenHeader) × (ks : List (String × RsaPublicKey)) × (key : RsaPublicKey)
      × (c : AppleIdTokenClaims) × (lib.header token ≡ some h)
      × (str_eq h.alg "RS256" ≡ true)
      × AreApples ks
      × (lookup h.kid ks ≡ some key)
      × (lib.verify now key token ≡ some c)
      × (audience_matches c.audience audiences ≡ true)
      × (is_empty (trim_space c.subject) ≡ false)
      × (is_nonce_met lib wanted c.nonce ≡ true)
      × (claims ≡ apple_claims lib c)

  key_func-AreApples :
      (now : ℕ) (force : Bool) (h : TokenHeader) (c : JwksCache)
      → IsApples c
      → IsApples (key_func lib now force h c).1
        × ((key : RsaPublicKey)
            → (key_func lib now force h c).0 ≡ some key
            → (str_eq h.alg "RS256" ≡ true)
              × ((ks : List (String × RsaPublicKey)) × AreApples ks × (lookup h.kid ks ≡ some key)))
        × ((key_func lib now force h c).1.fetches ≤ c.fetches + 1)
  unfolding key_func keys
  key_func-AreApples now force h c old =
      elim (Bool-cases (not (str_eq h.alg "RS256") || is_empty (trim_space h.kid))) [
        | inl bad ↦ rw bad (old, (λ key e. cc), omega arith)
        | inr good ↦ rw good (
            let (a, b, n) = cached-AreApples now force c c.keys_by_kid refl old in
            (
              a,
              (λ key e. elim (Option-cases (cached lib now force c c.keys_by_kid).0) [
                | inl lost ↦ cc
                | inr (ks, found) ↦ (ground arith, (ks, b ks found, rw found at e))
              ]),
              n,
            ))
      ]

  checked-IsChecked :
      (audiences : List String) (wanted : Option String) (c : AppleIdTokenClaims)
      {claims : MockClaimsInput}
      → checked lib audiences wanted (some c) ≡ some claims
      → (audience_matches c.audience audiences ≡ true)
        × (is_empty (trim_space c.subject) ≡ false)
        × (is_nonce_met lib wanted c.nonce ≡ true)
        × (claims ≡ apple_claims lib c)
  checked-IsChecked audiences wanted c h = (ground arith, ground arith, ground arith, ground arith)

  with_header-IsChecked :
      (now : ℕ) (audiences : List String) (token : String) (wanted : Option String) (force : Bool)
      (o : Option TokenHeader) (c : JwksCache)
      → lib.header token ≡ o
      → IsApples c
      → let (answer, c') = with_header lib now audiences token wanted force o c in
        IsApples c'
        × ((claims : MockClaimsInput)
            → answer ≡ some claims
            → IsChecked now audiences token wanted claims)
        × (c'.fetches ≤ c.fetches + 1)
  with_header-IsChecked now audiences token wanted force none c e old =
      (old, (λ claims h. cc), omega arith)
  with_header-IsChecked now audiences token wanted force (some h) c e old =
      let (a, b, n) = key_func-AreApples now force h c old in
      (
        a,
        (λ claims g. elim (Option-cases (key_func lib now force h c).0) [
          | inl no_key ↦ absurd_claims audiences wanted (rw no_key at g)
          | inr (key, found) ↦ elim (Option-cases (lib.verify now key token)) [
            | inl bad ↦ absurd_claims audiences wanted (rw (found, bad) at g)
            | inr (ic, good) ↦
                let (rs256, (ks, apples, named)) = b key found in
                let (aud, sub, nonce, same) =
                  checked-IsChecked audiences wanted ic (rw (found, good) at g) in
                (h, ks, key, ic, e, rs256, apples, named, good, aud, sub, nonce, same)
          ]
        ]),
        n,
      )
    where
      absurd_claims :
          {X : Type 0} (audiences : List String) (wanted : Option String) {claims : MockClaimsInput}
          → checked lib audiences wanted none ≡ some claims
          → X
      absurd_claims audiences wanted h = cc

  or_retry-IsChecked :
      (now : ℕ) (audiences : List String) (token : String) (wanted : Option String)
      (o : Option MockClaimsInput) (c : JwksCache)
      → IsApples c
      → ((claims : MockClaimsInput) → o ≡ some claims → IsChecked now audiences token wanted claims)
      → let (answer, c') = or_retry lib now audiences token wanted (o, c) in
        ((claims : MockClaimsInput)
          → answer ≡ some claims
          → IsChecked now audiences token wanted claims)
        × (c'.fetches ≤ c.fetches + 1)
  unfolding verify_with_cache
  or_retry-IsChecked now audiences token wanted (some claims) c old first = (first, omega arith)
  or_retry-IsChecked now audiences token wanted none c old first =
      let (_, b, n) =
        with_header-IsChecked now audiences token wanted true (lib.header token) c refl old in
      (b, n)

  -- With a verifier that was just made: the claims that VerifyIdentityToken gives were checked with a
  -- key of one of Apple's answers, which the token's RS256 header names; the library verified the
  -- token with it, the audience is among the configured ones, the subject is not blank and the
  -- nonce, if one was asked for, is the token's. It asks for the keys at most twice.
  pub verify_identity_token-IsChecked :
      (now : ℕ) (audience_csv : String) (ttl : ℤ) (v : AppleVerifier) (token : String)
      (wanted : Option String)
      → new_apple_verifier audience_csv ttl ≡ some v
      → let (answer, c) = verify_identity_token lib now v token wanted in
        ((claims : MockClaimsInput)
          → answer ≡ some claims
          → IsChecked now v.audiences (trim_space token) wanted claims)
        × (c.fetches ≤ 2)
  unfolding verify_identity_token verify_with_cache new_apple_verifier
  verify_identity_token-IsChecked now audience_csv ttl v token wanted h =
      let no_keys : v.jwks_cache.keys_by_kid ≡ none = ground arith in
      let no_fetch : v.jwks_cache.fetches ≡ 0 = ground arith in
      elim (Bool-cases (is_empty (trim_space token))) [
        | inl blank ↦ rw blank ((λ claims e. cc), omega arith)
        | inr full ↦ rw full (
            let (a, b, n) =
              with_header-IsChecked now v.audiences (trim_space token) wanted false
                (lib.header (trim_space token)) v.jwks_cache refl (λ ks e. cc (e, no_keys)) in
            let (answer, c) =
              with_header lib now v.audiences (trim_space token) wanted false
                (lib.header (trim_space token)) v.jwks_cache in
            let (d, m) =
              or_retry-IsChecked now v.audiences (trim_space token) wanted answer c a b in
            (d, omega arith))
      ]

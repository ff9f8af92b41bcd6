-- ===== src/Auth/Provider/Apple.antt =====
-- internal/auth/apple_token.go: the check of Apple's identity tokens, with the cache of Apple's keys.
-- github.com/golang-jwt/jwt, HTTP, base64 and SHA-256 are parameters.
use foreignreader_be.Base.{
  ℕ, ◌+◌, ◌*◌, String, str_eq, Bool, true, false, ◌&&◌, ◌||◌, not, List, [], ◌∷◌, Option, none,
  some, ℤ, is_positive, to_ℕ, ltb, ◌==◌, if◌then◌else◌, any, is_nil, trim_space, is_empty, lower_eq,
  split,
}
use Prim.Native.Nat.{◌%◌}
use foreignreader_be.Auth.User.{MockClaimsInput}
use foreignreader_be.Auth.Provider.{
  ClaimValue, text, bool, other, lookup, Verified, not_initialised, verified_or_refused,
}

-- appleIDTokenClaims.
pub record AppleIdTokenClaims : Type 0 where
  pub audience : List String
  pub subject : String
  pub email : String
  pub email_verified : ClaimValue
  pub nonce : String

-- EmailVerifiedBool. Lowering and trimming commute.
unfoldable pub email_verified_bool : ClaimValue → Option Bool
email_verified_bool (bool b) = some b
email_verified_bool (text s) =
    if lower_eq (trim_space s) "true"
    then some true
    else if lower_eq (trim_space s) "false"
    then some false
    else none
email_verified_bool other = none

-- rsa.PublicKey and appleJWK.
pub record RsaPublicKey : Type 0 where
  pub n : ℕ
  pub e : ℕ

pub record AppleJwk : Type 0 where
  pub kty : String
  pub kid : String
  pub n : String
  pub e : String

-- The header of a token; a value that is not a text is empty.
pub record TokenHeader : Type 0 where
  pub alg : String
  pub kid : String

-- The calls of the libraries: the header of a well-formed token; the check of signature, issuer and
-- times with a key at an instant; base64; the two printings of SHA-256; and the answer to the n-th
-- request for Apple's keys, none if it failed, had another status or was not decoded.
pub record AppleLibrary : Type 0 where
  pub header : String → Option TokenHeader
  pub verify : ℕ → RsaPublicKey → String → Option AppleIdTokenClaims
  pub decode_base64 : String → Option (List ℕ)
  pub sha256_hex : String → String
  pub sha256_base64 : String → String
  pub fetch : ℕ → Option (List AppleJwk)

-- appleJWKSCache; `fetches` counts its requests.
pub record JwksCache : Type 0 where
  pub expires_at : ℕ
  pub keys_by_kid : Option (List (String × RsaPublicKey))
  pub ttl : ℕ
  pub fetches : ℕ

-- AppleVerifier.
pub record AppleVerifier : Type 0 where
  pub audiences : List String
  pub jwks_cache : JwksCache

abbrev pub non_empty : List String → List String
non_empty [] = []
non_empty (p ∷ ps) =
    let rest = non_empty ps in if is_empty (trim_space p) then rest else trim_space p ∷ rest

-- splitCSVNonEmpty.
unfoldable pub split_csv_non_empty : String → List String
split_csv_non_empty s = non_empty (split b',' s)

abbrev pub six_hours : ℕ
six_hours = 21_600_000_000_000

-- NewAppleVerifier.
unfoldable pub new_apple_verifier : String → ℤ → Option AppleVerifier
unfolding split_csv_non_empty
new_apple_verifier audience_csv ttl =
    if is_nil (split_csv_non_empty audience_csv)
    then none
    else some (record {
      audiences = split_csv_non_empty audience_csv;
      jwks_cache = record {
        expires_at = 0;
        keys_by_kid = none;
        ttl = if is_positive ttl then to_ℕ ttl else six_hours;
        fetches = 0;
      };
    })

-- audienceMatches.
unfoldable pub audience_matches : List String → List String → Bool
audience_matches token_aud allowed =
    any (λ ta. not (is_empty (trim_space ta)) && any (λ a. str_eq (trim_space ta) a) allowed)
      token_aud

-- `big.Int.SetBytes`, and the same in a 64-bit integer.
abbrev pub big_endian : ℕ → List ℕ → ℕ
big_endian acc [] = acc
big_endian acc (b ∷ bs) = big_endian (acc * 256 + b) bs

abbrev pub big_endian_64 : ℕ → List ℕ → ℕ
big_endian_64 acc [] = acc
big_endian_64 acc (b ∷ bs) = big_endian_64 ((acc * 256 + b) % 0x10000000000000000) bs

abbrev pub public_key : Option (List ℕ) → Option (List ℕ) → Option RsaPublicKey
public_key (some nb) (some eb) =
    if big_endian_64 0 eb == 0
    then none
    else some (record { n = big_endian 0 nb; e = big_endian_64 0 eb })
public_key _ _ = none

module _ (lib : AppleLibrary) where
  -- rsaPublicKey.
  unfoldable pub rsa_public_key : AppleJwk → Option RsaPublicKey
  rsa_public_key k =
      if str_eq k.kty "RSA"
      then public_key (lib.decode_base64 k.n) (lib.decode_base64 k.e)
      else none

  abbrev pub add_key :
      AppleJwk → Option RsaPublicKey → List (String × RsaPublicKey) → List (String × RsaPublicKey)
  add_key k none out = out
  add_key k (some pub_key) out =
      if is_empty (trim_space k.kid) || not (str_eq k.kty "RSA")
      then out
      else (k.kid, pub_key) ∷ out

  -- The loop of `keys`; a later key replaces an earlier one with its kid.
  unfoldable pub usable_keys :
      List AppleJwk → List (String × RsaPublicKey) → List (String × RsaPublicKey)
  unfolding rsa_public_key
  usable_keys [] out = out
  usable_keys (k ∷ ks) out = usable_keys ks (add_key k (rsa_public_key k) out)

  abbrev pub fetched :
      ℕ → Option (List AppleJwk) → JwksCache → Option (List (String × RsaPublicKey)) × JwksCache
  fetched now none c = (none, c)
  fetched now (some ks) c =
      let out = usable_keys ks [] in
      if is_nil out
      then (none, c)
      else (some out, record c { keys_by_kid = some out; expires_at = now + c.ttl })

  abbrev pub refetched : ℕ → JwksCache → Option (List (String × RsaPublicKey)) × JwksCache
  refetched now c = fetched now (lib.fetch c.fetches) (record c { fetches = c.fetches + 1 })

  abbrev pub cached :
      ℕ
      → Bool
      → JwksCache
      → Option (List (String × RsaPublicKey))
      → Option (List (String × RsaPublicKey)) × JwksCache
  cached now force c none = refetched now c
  cached now force c (some ks) =
      if not force && ltb now c.expires_at then (some ks, c) else refetched now c

  -- `keys` of the cache.
  unfoldable pub keys : ℕ → Bool → JwksCache → Option (List (String × RsaPublicKey)) × JwksCache
  unfolding usable_keys
  keys now force c = cached now force c c.keys_by_kid

  abbrev pub find_key : String → Option (List (String × RsaPublicKey)) → Option RsaPublicKey
  find_key kid none = none
  find_key kid (some ks) = lookup kid ks

  -- The function that gives the parser its key.
  unfoldable pub key_func : ℕ → Bool → TokenHeader → JwksCache → Option RsaPublicKey × JwksCache
  unfolding keys
  key_func now force h c =
      if not (str_eq h.alg "RS256") || is_empty (trim_space h.kid)
      then (none, c)
      else (find_key h.kid (keys now force c).0, (keys now force c).1)

  -- verifyAppleNonce. The folding of EqualFold and of ToLower agree on hexadecimal digits.
  unfoldable pub verify_apple_nonce : String → String → Bool
  verify_apple_nonce raw_or_hashed token_nonce =
      let expected = trim_space token_nonce in
      let got = trim_space raw_or_hashed in
      not (is_empty expected)
      && (not (is_empty got)
          && (str_eq got expected
              || lower_eq expected (lib.sha256_hex got)
              || str_eq (lib.sha256_base64 got) expected))

  abbrev pub is_nonce_met : Option String → String → Bool
  is_nonce_met none token_nonce = true
  is_nonce_met (some raw) token_nonce =
      if is_empty (trim_space raw) then true else verify_apple_nonce raw token_nonce

  abbrev pub apple_claims : AppleIdTokenClaims → MockClaimsInput
  apple_claims c = record {
    sub = trim_space c.subject;
    email = if is_empty (trim_space c.email) then none else some (trim_space c.email);
    email_verified = email_verified_bool c.email_verified;
    display_name = none;
    avatar_url = none;
  }

  abbrev pub checked :
      List String → Option String → Option AppleIdTokenClaims → Option MockClaimsInput
  checked audiences wanted none = none
  checked audiences wanted (some c) =
      if not (audience_matches c.audience audiences)
      then none
      else if is_empty (trim_space c.subject)
      then none
      else if not (is_nonce_met wanted c.nonce)
      then none
      else some (apple_claims c)

  abbrev pub with_key : ℕ → String → Option RsaPublicKey → Option AppleIdTokenClaims
  with_key now token none = none
  with_key now token (some k) = lib.verify now k token

  abbrev pub with_header :
      ℕ
      → List String
      → String
      → Option String
      → Bool
      → Option TokenHeader
      → JwksCache
      → Option MockClaimsInput × JwksCache
  with_header now audiences token wanted force none c = (none, c)
  with_header now audiences token wanted force (some h) c =
      let (key, c') = key_func now force h c in
      (checked audiences wanted (with_key now token key), c')

  -- verifyWithCache.
  unfoldable pub verify_with_cache :
      ℕ
      → List String
      → String
      → Option String
      → Bool
      → JwksCache
      → Option MockClaimsInput × JwksCache
  unfolding key_func verify_apple_nonce audience_matches email_verified_bool
  verify_with_cache now audiences token wanted force c =
      with_header now audiences token wanted force (lib.header token) c

  abbrev pub or_retry :
      ℕ
      → List String
      → String
      → Option String
      → Option MockClaimsInput × JwksCache
      → Option MockClaimsInput × JwksCache
  or_retry now audiences token wanted (some claims, c) = (some claims, c)
  or_retry now audiences token wanted (none, c) =
      verify_with_cache now audiences token wanted true c

  -- VerifyIdentityToken, with the cache that it leaves.
  unfoldable pub verify_identity_token :
      ℕ → AppleVerifier → String → Option String → Option MockClaimsInput × JwksCache
  unfolding verify_with_cache
  verify_identity_token now v identity_token wanted =
      let token = trim_space identity_token in
      if is_empty token
      then (none, v.jwks_cache)
      else or_retry now v.audiences token wanted
          (verify_with_cache now v.audiences token wanted false v.jwks_cache)

abbrev pub verify_apple_with :
    AppleLibrary → ℕ → Option AppleVerifier → String → Option String → Verified
verify_apple_with lib now none token wanted = not_initialised
verify_apple_with lib now (some v) token wanted =
    verified_or_refused (verify_identity_token lib now v token wanted).0

-- NewAppleVerifier and VerifyIdentityToken, as the routes call them for each request.
unfoldable pub verify_apple : AppleLibrary → String → ℤ → ℕ → String → Option String → Verified
unfolding new_apple_verifier verify_identity_token
verify_apple lib audience_csv ttl now token wanted =
    verify_apple_with lib now (new_apple_verifier audience_csv ttl) token wanted

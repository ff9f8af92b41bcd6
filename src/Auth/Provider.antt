-- ===== src/Auth/Provider.antt =====
-- internal/auth/google_token.go: what a provider's identity token says. The validation of Google's
-- tokens is a parameter.
pub mod Apple
pub mod Checked
use foreignreader_be.Base.{
  String, str_eq, Bool, List, [], ◌∷◌, Option, none, some, if◌then◌else◌, trim_space, is_empty,
}
use foreignreader_be.Auth.User.{MockClaimsInput}

-- A decoded JSON value, as far as the code looks at it: null is `other`.
pub data ClaimValue : Type 0 where
  text : String → ClaimValue
  bool : Bool → ClaimValue
  other : ClaimValue

-- idtoken.Payload; the claims are none for a nil map.
pub record Payload : Type 0 where
  pub subject : String
  pub claims : Option (List (String × ClaimValue))

abbrev pub lookup {ℓ} : {A : Type ℓ} → String → List (String × A) → Option A
lookup key [] = none
lookup key ((k, v) ∷ m) = let rest = lookup key m in if str_eq k key then some v else rest

abbrev pub text_of : Option ClaimValue → Option String
text_of (some (text s)) = if is_empty (trim_space s) then none else some (trim_space s)
text_of _ = none

-- claimString.
unfoldable pub claim_string : List (String × ClaimValue) → String → Option String
claim_string m key = text_of (lookup key m)

abbrev pub bool_of : Option ClaimValue → Option Bool
bool_of (some (bool b)) = some b
bool_of _ = none

-- claimBool.
unfoldable pub claim_bool : List (String × ClaimValue) → String → Option Bool
claim_bool m key = bool_of (lookup key m)

abbrev pub only_sub : String → MockClaimsInput
only_sub sub = record {
  sub = sub;
  email = none;
  email_verified = none;
  display_name = none;
  avatar_url = none;
}

abbrev pub google_claims : String → Option (List (String × ClaimValue)) → MockClaimsInput
google_claims sub none = only_sub sub
google_claims sub (some m) = record {
  sub = sub;
  email = claim_string m "email";
  email_verified = claim_bool m "email_verified";
  display_name = claim_string m "name";
  avatar_url = claim_string m "picture";
}

-- GoogleIDTokenClaims.
unfoldable pub google_id_token_claims : Option Payload → Option MockClaimsInput
unfolding claim_string claim_bool
google_id_token_claims none = none
google_id_token_claims (some p) =
    if is_empty (trim_space p.subject)
    then none
    else some (google_claims (trim_space p.subject) p.claims)

-- What a login route goes on with: the claims, or one of its two errors.
pub data Verified : Type 0 where
  verified : MockClaimsInput → Verified
  not_initialised refused : Verified

abbrev pub verified_or_refused : Option MockClaimsInput → Verified
verified_or_refused none = refused
verified_or_refused (some c) = verified c

-- `idtoken.Validate` and GoogleIDTokenClaims.
unfoldable pub verify_google : (String → Option Payload) → String → Verified
unfolding google_id_token_claims
verify_google validate token = verified_or_refused (google_id_token_claims (validate token))

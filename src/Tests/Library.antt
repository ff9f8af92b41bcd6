-- ===== src/Tests/Library.antt =====
-- A library of tokens that keeps its word: it signs one token, and prints a uuid in unary.
use foreignreader_be.Base.{
  ℕ, suc, ◌<◌, ◌≡◌, refl, ap, ◌∙◌, String, str_eq, eq_iff, Bool, true, false, ◌&&◌, Bool-cases, inl,
  inr, Option, none, some, arith, ltb, ◌==◌, if◌then◌else◌, append, trim_space, trim_left,
  trim_right, trim_right-append, is_empty,
}
use foreignreader_be.Auth.Token.{
  AccessClaims, Method, hs256, other_method, TokenLibrary, IsTokenLibrary, TokenIssuer,
}

abbrev pub digits : ℕ → String
digits ℕ.zero = "1"
digits (suc n) = append "1" (digits n)

abbrev pub value : String → Option ℕ
value String.[] = none
value (String.◌∷◌ c String.[]) = some 0
value (String.◌∷◌ c (String.◌∷◌ d s)) = elim (value (String.◌∷◌ d s)) [
  | none ↦ none
  | some n ↦ some (suc n)
]

trim_right-digits : (n : ℕ) → (trim_right (digits n) ≡ digits n) × (is_empty (digits n) ≡ false)
unfolding foreignreader_be.Base.trim_right
trim_right-digits ℕ.zero = (refl, refl)
trim_right-digits (suc n) =
    let (ends, full) = trim_right-digits n in trim_right-append "1" (digits n) ends full

trim_left-digits : (n : ℕ) → trim_left (digits n) ≡ digits n
unfolding foreignreader_be.Base.trim_left
trim_left-digits ℕ.zero = refl
trim_left-digits (suc n) = refl

digits-is_word : (n : ℕ) → (trim_space (digits n) ≡ digits n) × (is_empty (digits n) ≡ false)
unfolding foreignreader_be.Base.trim_space
digits-is_word n =
    let (ends, full) = trim_right-digits n in (ap trim_right (trim_left-digits n) ∙ ends, full)

value-more :
    (n : ℕ)
    → value (append "1" (digits n))
      ≡ elim (value (digits n)) [ none ↦ none | some m ↦ some (suc m) ]
value-more ℕ.zero = refl
value-more (suc n) = refl

value-digits : (n : ℕ) → value (digits n) ≡ some n
value-digits ℕ.zero = refl
value-digits (suc n) = rw (value-more n, value-digits n) refl

-- The claims of the token: the user 7, in the session 2, for ten instants from 100 on.
abbrev pub claims : AccessClaims
claims = record {
  provider = "apple";
  token_type = "";
  channel = "";
  sid = digits 2;
  subject = digits 7;
  issued_at = 100;
  expires_at = 110;
}

-- `c` is `claims`, and the method and the key are the right ones.
abbrev is_signed : Method → String → AccessClaims → Bool
is_signed other_method key c = false
is_signed hs256 key c =
    str_eq key "secret"
    && (str_eq c.provider claims.provider
        && (str_eq c.token_type claims.token_type
            && (str_eq c.channel claims.channel
                && (str_eq c.sid claims.sid
                    && (str_eq c.subject claims.subject
                        && (c.issued_at == claims.issued_at
                            && c.expires_at == claims.expires_at))))))

is_signed-claims :
    (method : Method) (key : String) (c : AccessClaims)
    → is_signed method key c ≡ true
    → (method ≡ hs256) × (key ≡ "secret") × (c ≡ claims)
is_signed-claims other_method key c h = cc
is_signed-claims hs256 key c h = (
  refl,
  (eq_iff key "secret").0 (ground arith),
  ground (
    arith,
    (eq_iff c.provider claims.provider).0,
    (eq_iff c.token_type claims.token_type).0,
    (eq_iff c.channel claims.channel).0,
    (eq_iff c.sid claims.sid).0,
    (eq_iff c.subject claims.subject).0,
  ),
)

abbrev sign : Bool → Option String
sign b = if b then some "access" else none

abbrev with_key : ℕ → Option String → Option AccessClaims
with_key now none = none
with_key now (some key) =
    if str_eq key "secret" && ltb now claims.expires_at then some claims else none

abbrev parse : ℕ → (Method → Option String) → String → Option AccessClaims
parse now key_of token = if str_eq token "access" then with_key now (key_of hs256) else none

abbrev pub library : TokenLibrary
library = record {
  signed_string = λ method key c. sign (is_signed method key c);
  parse_with_claims = parse;
  new_numeric_date = λ t. t;
  uuid_string = digits;
  uuid_parse = value;
}

sign-some : (b : Bool) {token : String} → sign b ≡ some token → (b ≡ true) × (token ≡ "access")
sign-some true h = (refl, ground arith)
sign-some false h = cc

parse-access :
    (now : ℕ) (key_of : Method → Option String)
    → key_of hs256 ≡ some "secret"
    → now < claims.expires_at
    → parse now key_of "access" ≡ some claims
parse-access now key_of h early = rw h (ground arith)

pub library-IsTokenLibrary : IsTokenLibrary library
unfolding foreignreader_be.Base.trim_space
library-IsTokenLibrary = record {
  parses = λ method key c token now key_of issued expires at until signed known early.
      let (good, text) = sign-some (is_signed method key c) signed in
      let (right_method, right_key, same) = is_signed-claims method key c good in
      rw (text, same)
        (parse-access now key_of (rw (right_method, right_key) at known) (rw same at early));
  token_is_word = λ method key c token signed.
      let (good, text) = sign-some (is_signed method key c) signed in rw text access_is_word;
  uuid_is_word = digits-is_word;
  uuid_parses = value-digits;
}
  where
    access_is_word : (trim_space "access" ≡ "access") × (is_empty "access" ≡ false)
    access_is_word = (refl, refl)

abbrev pub issuer : TokenIssuer
issuer = record { secret = "secret"; access_token_ttl = 10 }

-- ===== src/Base/Text.antt =====
-- Go's `strings` package, as far as the program uses it. A text is a native `String`.
use Prim.Native.Nat.{ℕ, ◌+◌, ◌-◌}
use Prim.Native.Char.{Char, code}
use Prim.Native.String.{String}
use mathlib.Core.Path.{◌≡◌, refl}
use mathlib.Core.Bool.{Bool, true, false, ◌&&◌, ◌||◌}
use mathlib.Core.List.{List, [], ◌∷◌}
use mathlib.Core.Logic.{inl, inr}
use foreignreader_be.Base.Tests.{Bool-cases, leb, ◌==◌, if◌then◌else◌}

abbrev pub is_empty : String → Bool
is_empty String.[] = true
is_empty (String.◌∷◌ c s) = false

-- `unicode.IsSpace`: the code points with the property White_Space.
unfoldable pub is_space : ℕ → Bool
is_space c =
    leb 9 c && leb c 13
    || c == 32
    || c == 0x85
    || c == 0xa0
    || c == 0x1680
    || leb 0x2000 c && leb c 0x200a
    || c == 0x2028
    || c == 0x2029
    || c == 0x202f
    || c == 0x205f
    || c == 0x3000

unfoldable pub trim_left : String → String
unfolding is_space
trim_left String.[] = String.[]
trim_left (String.◌∷◌ c s) =
    let rest = trim_left s in if is_space (code c) then rest else String.◌∷◌ c s

abbrev pub cons_unless_blank : Char → String → String
unfolding is_space
cons_unless_blank c String.[] = if is_space (code c) then String.[] else String.◌∷◌ c String.[]
cons_unless_blank c (String.◌∷◌ d s) = String.◌∷◌ c (String.◌∷◌ d s)

unfoldable pub trim_right : String → String
unfolding is_space
trim_right String.[] = String.[]
trim_right (String.◌∷◌ c s) = cons_unless_blank c (trim_right s)

-- `strings.TrimSpace`.
unfoldable pub trim_space : String → String
unfolding trim_left trim_right
trim_space s = trim_right (trim_left s)

abbrev pub codes : String → List ℕ
codes String.[] = []
codes (String.◌∷◌ c s) = code c ∷ codes s

-- `unicode.ToUpper` at the characters whose image is an ASCII letter, which are all that a
-- comparison with an ASCII constant can tell apart.
unfoldable pub upper_code : ℕ → ℕ
upper_code c =
    if leb b'a' c && leb c b'z'
    then c - 32
    else if c == 0x131
    then b'I'
    else if c == 0x17f
    then b'S'
    else c

-- `unicode.ToLower`, in the same sense.
unfoldable pub lower_code : ℕ → ℕ
lower_code c =
    if leb b'A' c && leb c b'Z'
    then c + 32
    else if c == 0x130
    then b'i'
    else if c == 0x212a
    then b'k'
    else c

abbrev pub folded_eq : (ℕ → ℕ) → String → List ℕ → Bool
folded_eq f String.[] [] = true
folded_eq f String.[] (d ∷ ds) = false
folded_eq f (String.◌∷◌ c s) [] = false
folded_eq f (String.◌∷◌ c s) (d ∷ ds) = f (code c) == d && folded_eq f s ds

-- `strings.ToUpper(s) == t`, for an ASCII text `t`.
unfoldable pub upper_eq : String → String → Bool
unfolding upper_code
upper_eq s t = folded_eq upper_code s (codes t)

-- `strings.ToLower(s) == t`, for an ASCII text `t`.
unfoldable pub lower_eq : String → String → Bool
unfolding lower_code
lower_eq s t = folded_eq lower_code s (codes t)

abbrev push_front : Char → List String → List String
push_front c [] = String.◌∷◌ c String.[] ∷ []
push_front c (part ∷ parts) = String.◌∷◌ c part ∷ parts

-- `strings.Split(s, sep)` for a separator of one character.
unfoldable pub split : ℕ → String → List String
split sep String.[] = String.[] ∷ []
split sep (String.◌∷◌ c s) =
    let parts = split sep s in if code c == sep then String.[] ∷ parts else push_front c parts

-- `s + t`.
abbrev pub append : String → String → String
append String.[] t = t
append (String.◌∷◌ c s) t = String.◌∷◌ c (append s t)

cons_unless_blank-keeps :
    (c : Char) (s : String) → is_empty s ≡ false → cons_unless_blank c s ≡ String.◌∷◌ c s
unfolding cons_unless_blank
cons_unless_blank-keeps c String.[] h = cc
cons_unless_blank-keeps c (String.◌∷◌ d s) h = refl

trim_right-cons_unless_blank :
    (c : Char) (s : String)
    → trim_right s ≡ s
    → trim_right (cons_unless_blank c s) ≡ cons_unless_blank c s
unfolding trim_right cons_unless_blank
trim_right-cons_unless_blank c String.[] h = elim (Bool-cases (is_space (code c))) [
  | inl space ↦ rw space refl
  | inr ink ↦ rw (ink, ink) refl
]
trim_right-cons_unless_blank c (String.◌∷◌ d s) h = rw h refl

pub trim_right-trim_right : (s : String) → trim_right (trim_right s) ≡ trim_right s
unfolding trim_right
trim_right-trim_right String.[] = refl
trim_right-trim_right (String.◌∷◌ c s) =
    trim_right-cons_unless_blank c (trim_right s) (trim_right-trim_right s)

-- A text that ends in no space still does with something before it.
pub trim_right-append :
    (p s : String)
    → trim_right s ≡ s
    → is_empty s ≡ false
    → (trim_right (append p s) ≡ append p s) × (is_empty (append p s) ≡ false)
unfolding trim_right
trim_right-append String.[] s h ne = (h, ne)
trim_right-append (String.◌∷◌ c p) s h ne =
    let (ends, full) = trim_right-append p s h ne in
    (rw ends (cons_unless_blank-keeps c (append p s) full), refl)

pub trim_space-word : (s : String) → trim_space s ≡ s → trim_right s ≡ s
unfolding trim_space
trim_space-word s h = rw h at (trim_right-trim_right (trim_left s))

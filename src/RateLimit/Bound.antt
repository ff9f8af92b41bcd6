-- ===== src/RateLimit/Bound.antt =====
-- How many calls a window lets through.
use foreignreader_be.Base.{
  ℕ, suc, ◌+◌, ◌≤◌, ◌<◌, ◌≡◌, refl, String, str_eq, eq_iff, ◌&&◌, true, false, some, List, [], ◌∷◌,
  ltb, All, if◌then◌else◌, arith, inl, inr, ◌⊎◌, Bool-cases, Option-cases, ap, sym, ◌∙◌, pos, ℤ,
}
use foreignreader_be.RateLimit.{WindowEntry, Window, store, allow}

-- Calls one after another, of a key at an instant each: how many of the ones of `key` are let
-- through.
abbrev pub allowed : String → ℤ → ℕ → List (String × ℕ) → Window → ℕ
allowed key limit window [] m = 0
allowed key limit window ((caller, now) ∷ rest) m =
    let more = allowed key limit window rest (allow caller limit window now m).1 in
    if str_eq caller key && (allow caller limit window now m).0 then more + 1 else more

ltb-cases : (a b : ℕ) → (a < b) ⊎ (b ≤ a)
ltb-cases a b = elim (Bool-cases (ltb a b)) [
  | inl e ↦ inl (ground arith)
  | inr e ↦ inr (ground arith)
]

inside :
    (key : String) (k window now : ℕ) (e : WindowEntry) (m : Window)
    → m key ≡ some e
    → now ≤ e.reset
    → (suc k ≤ e.count → allow key (pos (suc k)) window now m ≡ (false, m))
      × (e.count < suc k
          → allow key (pos (suc k)) window now m
            ≡ (true, store key (record e { count = e.count + 1 }) m))
unfolding allow
inside key k window now e m found early =
    (λ full. rw found (ground arith), λ room. rw found (ground arith))

store_self : (key : String) (e : WindowEntry) (m : Window) → store key e m key ≡ some e
store_self key e m = ground (arith, (eq_iff key key).1 refl)

-- A call leaves the entries of the other keys alone.
allow-other :
    (key caller : String) (limit : ℤ) (window now : ℕ) (m : Window)
    → str_eq caller key ≡ false
    → (allow caller limit window now m).1 key ≡ m key
unfolding allow
allow-other key caller limit window now m ne =
    let flipped : str_eq key caller ≡ false = grind (arith, eq_iff) in ground arith

-- While an entry is not past its reset, only what is missing to the limit is let through.
allowed-entry :
    (key : String) (k window : ℕ) (calls : List (String × ℕ)) (e : WindowEntry) (m : Window)
    → m key ≡ some e
    → e.count ≤ suc k
    → All (λ c. c.1 ≤ e.reset) calls
    → allowed key (pos (suc k)) window calls m + e.count ≤ suc k
allowed-entry key k window [] e m found le within = ground arith
allowed-entry key k window ((caller, now) ∷ rest) e m found le (early, within) =
    elim (Bool-cases (str_eq caller key)) [
      | inr other ↦
          let m' = (allow caller (pos (suc k)) window now m).1 in
          rw other (
            allowed-entry key k window rest e m'
              (allow-other key caller (pos (suc k)) window now m other ∙ found) le within)
      | inl mine ↦
          let (full, room) =
            inside caller k window now e m (ap m ((eq_iff caller key).0 mine) ∙ found) early in
          elim (ltb-cases e.count (suc k)) [
            | inl lt ↦
                let e' = record e { count = e.count + 1 } in
                let m' = store caller e' m in
                let stored = ap m' (sym ((eq_iff caller key).0 mine)) ∙ store_self caller e' m in
                rw (mine, room lt)
                  (ground
                    (arith, allowed-entry key k window rest e' m' stored (ground arith) within))
            | inr ge ↦ rw (mine, full ge) (allowed-entry key k window rest e m found le within)
          ]
    ]

starting :
    (key : String) (k window now : ℕ) (m : Window)
    → ((e : WindowEntry) → m key ≡ some e → e.reset < now)
    → allow key (pos (suc k)) window now m
      ≡ (true, store key (record { count = 1; reset = now + window }) m)
unfolding allow
starting key k window now m over = elim (Option-cases (m key)) [
  | inl new ↦ rw new refl
  | inr (e, found) ↦ let past = over e found in rw found (ground arith)
]

-- From a call that starts a window, no more calls of its key than the limit are let through within
-- the duration of the window, that call included, whatever the other keys do meanwhile.
pub allow-bound :
    (key : String) (k window now : ℕ) (calls : List (String × ℕ)) (m : Window)
    → ((e : WindowEntry) → m key ≡ some e → e.reset < now)
    → All (λ c. c.1 ≤ now + window) calls
    → allowed key (pos (suc k)) window ((key, now) ∷ calls) m ≤ suc k
allow-bound key k window now calls m over within =
    let e : WindowEntry = record { count = 1; reset = now + window } in
    let rest =
      allowed-entry key k window calls e (store key e m) (store_self key e m) (ground arith)
        within in
    rw (starting key k window now m over) (ground (arith, rest))

-- ===== src/RateLimit.antt =====
-- internal/ratelimit/window.go: a counter per key in a fixed window, under a mutex, so that calls
-- come one after another. The map is a function; instants and durations are in nanoseconds.
pub mod Bound
use foreignreader_be.Base.{
  ℕ, ◌+◌, String, str_eq, Bool, true, false, Option, none, some, leb, ltb, if◌then◌else◌, ℤ,
  is_positive, to_ℕ,
}

pub record WindowEntry : Type 0 where
  pub count : ℕ
  pub reset : ℕ

abbrev pub Window : Type 0
Window = String → Option WindowEntry

-- NewWindow.
abbrev pub new_window : Window
new_window key = none

abbrev pub store : String → WindowEntry → Window → Window
store key e m other = if str_eq other key then some e else m other

abbrev pub counted : String → ℕ → ℕ → ℕ → Window → Option WindowEntry → Bool × Window
counted key limit window now m none =
    (true, store key (record { count = 1; reset = now + window }) m)
counted key limit window now m (some e) =
    if ltb e.reset now
    then (true, store key (record { count = 1; reset = now + window }) m)
    else if leb limit e.count
    then (false, m)
    else (true, store key (record e { count = e.count + 1 }) m)

-- Allow, at the instant `now`.
unfoldable pub allow : String → ℤ → ℕ → ℕ → Window → Bool × Window
allow key limit window now m =
    if is_positive limit then counted key (to_ℕ limit) window now m (m key) else (true, m)

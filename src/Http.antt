-- ===== src/Http.antt =====
-- What a handler of internal/server answers: `writeAPIError` with its status and error code (the
-- message is left out), or a success with the value that is encoded.
use foreignreader_be.Base.{ℕ, String, Bool, if◌then◌else◌}
use foreignreader_be.Db.{World}

pub data Response {ℓ} (A : Type ℓ) : Type ℓ where
  success : A → Response A
  api_error : ℕ → String → Response A

abbrev pub Handler {ℓ} : Type ℓ → Type ℓ
Handler A = World → Response A × World

-- `writeAPIError(w, status, code, …); return`.
abbrev pub reject {ℓ} : {A : Type ℓ} → ℕ → String → Handler A
reject status code w = (api_error status code, w)

-- `if cond { writeAPIError(w, status, code, …); return }`.
abbrev pub reject_if {ℓ} : {A : Type ℓ} → Bool → ℕ → String → Handler A → Handler A
reject_if b status code next w = if b then (api_error status code, w) else next w

-- ===== src/Auth/Session/Route.antt =====
-- handleAuthRefresh of internal/server/routes_auth.go.
use foreignreader_be.Base.{
  ℕ, ◌≡◌, String, Bool, true, not, Option, none, some, arith, trim_space, is_empty,
}
use mathlib.Core.Path.{subst}
use foreignreader_be.Db.{Error, Result, ok, err, World}
use foreignreader_be.Db.Atomic.{transaction-err}
use foreignreader_be.Http.{Response, success, api_error, Handler, reject, reject_if}
use foreignreader_be.Auth.Session.{
  RefreshRotationResult, rotate_body, rotate_refresh_token, refresh_error_http,
}
use foreignreader_be.Auth.Session.Refresh.{Renewed, DrawsNewId, rotate_refresh_token-Renewed}

module _ (hash : String → String) (issue : ℕ → String → ℕ → Option (String × ℕ)) where
  abbrev refreshed : Result RefreshRotationResult × World → Response RefreshRotationResult × World
  refreshed (ok out, w) = (success out, w)
  refreshed (err e, w) = (api_error (refresh_error_http e).0 (refresh_error_http e).1, w)

  abbrev refresh_decoded : ℕ → Option String → Handler RefreshRotationResult
  refresh_decoded ttl none = reject 400 "invalid_request"
  refresh_decoded ttl (some token) =
      reject_if (is_empty (trim_space token)) 400 "missing_refresh_token"
        (λ w. refreshed (rotate_refresh_token hash issue true (trim_space token) ttl w))

  -- handleAuthRefresh; `body` is the refreshToken of the body, or none if reading or decoding that
  -- failed. What `http.Error` writes for another method is a text, not an error code.
  unfoldable pub handle_auth_refresh :
      ℕ → Bool → Bool → Option String → Handler RefreshRotationResult
  handle_auth_refresh ttl is_post is_json body =
      reject_if (not is_post) 405 "Method Not Allowed"
        (reject_if (not is_json) 415 "invalid_request" (refresh_decoded ttl body))

  rotate_refresh_token-err :
      (incoming : String) (ttl : ℕ) (w : World) {e : Error}
      → (rotate_refresh_token hash issue true incoming ttl w).0 ≡ err e
      → (rotate_refresh_token hash issue true incoming ttl w).1.tables ≡ w.tables
  unfolding rotate_refresh_token
  rotate_refresh_token-err incoming ttl w {e} h =
      ground (arith, transaction-err (rotate_body hash issue incoming ttl) w {e = e})

  refreshed-ok :
      (ttl : ℕ) (is_post is_json : Bool) (token : String) (w : World) {r : RefreshRotationResult}
      → (handle_auth_refresh ttl is_post is_json (some token) w).0 ≡ success r
      → ((rotate_refresh_token hash issue true (trim_space token) ttl w).0 ≡ ok r)
        × ((rotate_refresh_token hash issue true (trim_space token) ttl w).1.tables
            ≡ (handle_auth_refresh ttl is_post is_json (some token) w).1.tables)
  unfolding handle_auth_refresh
  refreshed-ok ttl is_post is_json token w h = (ground arith, ground arith)

  -- Provided that the id drawn for the new row is not that of the token's row: a refresh request that
  -- is answered with an error, whichever, leaves the tables as they were. One that is answered with
  -- success was made with the token of a live, unexpired session, gets the tokens of a new session
  -- of the same user and provider, and leaves the old one replaced by it.
  pub handle_auth_refresh-Renewed :
      (ttl : ℕ) (is_post is_json : Bool) (token : String) (w : World)
      → DrawsNewId hash issue (trim_space token) w.env w.tables
      → let (answer, w') = handle_auth_refresh ttl is_post is_json (some token) w in
        ((status : ℕ) (code : String) → answer ≡ api_error status code → w'.tables ≡ w.tables)
        × ((r : RefreshRotationResult)
            → answer ≡ success r
            → Renewed hash issue (trim_space token) ttl r w.env w.tables w'.tables)
  unfolding handle_auth_refresh
  handle_auth_refresh-Renewed ttl is_post is_json token w new = (
    (λ status code h. grind (arith, rotate_refresh_token-err (trim_space token) ttl w)),
    (λ r h.
        let (rotated, tables) = refreshed-ok ttl is_post is_json token w h in
        subst (Renewed hash issue (trim_space token) ttl r w.env w.tables) tables
          (rotate_refresh_token-Renewed hash issue (trim_space token) ttl w new rotated)),
  )

-- ===== src/Tests/Sessions.antt =====
-- Sessions refreshed and ended in a concrete world.
use foreignreader_be.Base.{
  ℕ, ◌≡◌, ◌⊎◌, refl, String, true, false, Option, some, [], ◌∷◌, any, select, arith,
}
use foreignreader_be.Schema.{Session}
use foreignreader_be.Db.{World, Env, ok, err, failed, refresh_reuse, refresh_revoked}
use foreignreader_be.Auth.Session.{
  RefreshRotationResult, new_session, rotate_refresh_token, handle_auth_logout, is_live_session,
}
use foreignreader_be.Auth.Session.Refresh.{Renewed, rotate_refresh_token_again}
use foreignreader_be.Auth.Session.Logout.{refresh_after_logout}
use foreignreader_be.Auth.Session.Route.{handle_auth_refresh, handle_auth_refresh-Renewed}
use foreignreader_be.Http.{success, api_error}
use foreignreader_be.Tests.{start, no_rows_yet}

-- The user 7 is logged in; the hash is the token itself.
abbrev hash : String → String
hash s = s

abbrev issue : ℕ → String → ℕ → Option (String × ℕ)
issue user provider sid = some ("access", 110)

abbrev session : Session
session = new_session 1 7 "apple" "token" 500 50

abbrev logged_in : World
logged_in = record start { tables = record no_rows_yet { sessions = session ∷ [] } }

abbrev renewed : RefreshRotationResult
renewed = record { access_token = "access"; access_token_expires_at = 110; refresh_token = "fresh" }

rotate_refresh_token_again_example :
    let w' = (rotate_refresh_token hash issue true "token" 900 logged_in).1 in
    let (answer, w'') = rotate_refresh_token hash issue true "token" 900 w' in
    ((answer ≡ err refresh_reuse) ⊎ (answer ≡ err failed)) × (w''.tables ≡ w'.tables)
unfolding rotate_refresh_token foreignreader_be.Db.transaction foreignreader_be.Db.tx_query
    foreignreader_be.Auth.Session.generate_refresh_token foreignreader_be.Db.draw_random
    foreignreader_be.Auth.Session.insert_session foreignreader_be.Auth.Session.mark_rotated
rotate_refresh_token_again_example =
    rotate_refresh_token_again hash issue "token" 900 900 logged_in
      (rotate_refresh_token hash issue true "token" 900 logged_in).1 {r = renewed} (ground arith)
      refl refl

refresh_after_logout_example :
    let w' = (handle_auth_logout true 7 (some 1) logged_in).1 in
    let (answer, w'') = rotate_refresh_token hash issue true "token" 900 w' in
    ((answer ≡ err refresh_revoked) ⊎ (answer ≡ err failed)) × (w''.tables ≡ w'.tables)
unfolding handle_auth_logout foreignreader_be.Db.query
refresh_after_logout_example =
    refresh_after_logout hash issue 7 1 900 "token" session logged_in
      (handle_auth_logout true 7 (some 1) logged_in).1 refl refl refl refl refl refl

handle_auth_refresh-Renewed_example :
    let (answer, w') = handle_auth_refresh hash issue 900 true true (some "token") logged_in in
    ((status : ℕ) (code : String) → answer ≡ api_error status code → w'.tables ≡ logged_in.tables)
    × ((r : RefreshRotationResult)
        → answer ≡ success r
        → Renewed hash issue "token" 900 r logged_in.env logged_in.tables w'.tables)
unfolding foreignreader_be.Base.trim_space
handle_auth_refresh-Renewed_example =
    handle_auth_refresh-Renewed hash issue 900 true true "token" logged_in (ground arith)

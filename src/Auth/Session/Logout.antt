-- ===== src/Auth/Session/Logout.antt =====
-- What handleAuthLogout does to the sessions.
use foreignreader_be.Base.{
  ℕ, ◌≡◌, refl, String, Bool, true, false, ◌&&◌, ◌⊎◌, not, List, [], ◌∷◌, Option, none, some, arith,
  any, select, is_empty, find?, update, str_eq,
}
use foreignreader_be.Schema.{Session}
use foreignreader_be.Db.{refresh_revoked, failed, err, World, query, tx_query, transaction}
use foreignreader_be.Http.{success}
use foreignreader_be.Auth.Session.{
  is_live, is_live_session, logged_out, handle_auth_logout, rotate_refresh_token,
}
use foreignreader_be.Auth.Session.Rotation.{by_hash}

-- A live session other than the one that `id` and `user` name.
abbrev pub is_other_live : ℕ → ℕ → Session → Bool
is_other_live user id s = is_live s.revoked_at && not (is_live_session user id s)

select-logged_out :
    (user id now : ℕ) (ss : List Session)
    → (any (is_live_session user id) (update (is_live_session user id) (logged_out now) ss) ≡ false)
      × (select (is_other_live user id) (update (is_live_session user id) (logged_out now) ss)
          ≡ select (is_other_live user id) ss)
select-logged_out user id now [] = (refl, refl)
select-logged_out user id now (s ∷ ss) = (
  ground (arith, select-logged_out user id now ss),
  ground (arith, select-logged_out user id now ss),
)

find?-logged_out :
    (user id now : ℕ) (hash : String) (s : Session) (ss : List Session)
    → find? (λ s. str_eq s.refresh_token_hash hash) ss ≡ some s
    → is_live_session user id s ≡ true
    → find?
        (λ s. str_eq s.refresh_token_hash hash)
        (update (is_live_session user id) (logged_out now) ss)
      ≡ some (logged_out now s)
find?-logged_out user id now hash s [] h live = cc
find?-logged_out user id now hash s (x ∷ xs) h live =
    ground (arith, find?-logged_out user id now hash s xs)

-- After a logout that is answered with success the session is not live, and the other live
-- sessions, of any user, are the same rows as before.
pub handle_auth_logout-live :
    (user sid : ℕ) (w : World)
    → (handle_auth_logout true user (some sid) w).0 ≡ success tt
    → let t = (handle_auth_logout true user (some sid) w).1.tables in
      (any (is_live_session user sid) t.sessions ≡ false)
      × (select (is_other_live user sid) t.sessions
          ≡ select (is_other_live user sid) w.tables.sessions)
unfolding handle_auth_logout query
handle_auth_logout-live user sid w h = (
  ground (arith, select-logged_out user sid w.env.now w.tables.sessions),
  ground (arith, select-logged_out user sid w.env.now w.tables.sessions),
)

by_hash-logout :
    (user sid : ℕ) (hash : String) (s : Session) (w : World)
    → by_hash hash w.tables ≡ some s
    → is_live_session user sid s ≡ true
    → (handle_auth_logout true user (some sid) w).0 ≡ success tt
    → by_hash hash (handle_auth_logout true user (some sid) w).1.tables
      ≡ some (logged_out w.env.now s)
unfolding handle_auth_logout query
by_hash-logout user sid hash s w hs live h =
    ground (arith, find?-logged_out user sid w.env.now hash s w.tables.sessions hs live)

module _ (hash : String → String) (issue : ℕ → String → ℕ → Option (String × ℕ)) where
  refused_if_revoked :
      (incoming : String) (ttl at : ℕ) (s : Session) (w : World)
      → is_empty incoming ≡ false
      → by_hash (hash incoming) w.tables ≡ some s
      → s.revoked_at ≡ some at
      → s.replaced_by_session_id ≡ none
      → let (answer, w') = rotate_refresh_token hash issue true incoming ttl w in
        ((answer ≡ err refresh_revoked) ⊎ (answer ≡ err failed)) × (w'.tables ≡ w.tables)
  unfolding rotate_refresh_token tx_query transaction
  refused_if_revoked incoming ttl at s w full hs hr hp = (ground arith, ground arith)

  -- If a refresh token is not empty, and the row of its hash is a live session of the user that has
  -- not been replaced: after the user's logout from it, answered with success, the token is refused
  -- as revoked in every world with the tables that the logout left, or the database fails, and the
  -- tables stay as they are.
  pub refresh_after_logout :
      (user sid ttl : ℕ) (incoming : String) (s : Session) (w w' : World)
      → is_empty incoming ≡ false
      → by_hash (hash incoming) w.tables ≡ some s
      → is_live_session user sid s ≡ true
      → s.replaced_by_session_id ≡ none
      → (handle_auth_logout true user (some sid) w).0 ≡ success tt
      → w'.tables ≡ (handle_auth_logout true user (some sid) w).1.tables
      → let (answer, w'') = rotate_refresh_token hash issue true incoming ttl w' in
        ((answer ≡ err refresh_revoked) ⊎ (answer ≡ err failed)) × (w''.tables ≡ w'.tables)
  refresh_after_logout user sid ttl incoming s w w' full hs live alone h same =
      refused_if_revoked incoming ttl w.env.now (logged_out w.env.now s) w' full
        (rw same (by_hash-logout user sid (hash incoming) s w hs live h)) refl alone

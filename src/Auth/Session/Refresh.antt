-- ===== src/Auth/Session/Refresh.antt =====
-- What RotateRefreshToken does to the sessions, once and again.
use foreignreader_be.Base.{
  ℕ, ◌+◌, ◌<◌, ◌≡◌, ◌≢◌, ap, sym, refl, String, true, false, ◌⊎◌, inl, inr, Option, none, some,
  arith, Bool-cases, is_empty,
}
use mathlib.Core.Path.{subst, subst₃}
use foreignreader_be.Schema.{Session, Tables}
use foreignreader_be.Db.{failed, refresh_reuse, ok, err, Env, World, tx_query, transaction}
use foreignreader_be.Db.Inversion.{>>=-ok, transaction-ok}
use foreignreader_be.Auth.Session.{
  rotated_row, RefreshRotationResult, session_by_hash, exchange, rotate_row, rotate_body,
  rotate_refresh_token,
}
use foreignreader_be.Auth.Session.Rotation.{by_hash, Exchanged, exchange-Exchanged}

module _ (hash : String → String) (issue : ℕ → String → ℕ → Option (String × ℕ)) where
  -- From the tables `t` to `t'` the session of the token `incoming`, live and unexpired, was
  -- replaced by one for the tokens of `r`.
  abbrev pub Renewed : String → ℕ → RefreshRotationResult → Env → Tables → Tables → Type 0
  Renewed incoming ttl r env t t' =
      (s : Session) × (by_hash (hash incoming) t ≡ some s)
      × (s.revoked_at ≡ none)
      × (env.now < s.expires_at)
      × Exchanged hash issue incoming ttl env.now s r (env.uuid t.drawn) t'

  -- The id that is drawn for the new row is not the id of the token's row.
  abbrev pub DrawsNewId : String → Env → Tables → Type 0
  DrawsNewId incoming env t =
      (s : Session) → by_hash (hash incoming) t ≡ some s → s.id ≢ env.uuid t.drawn

  rotate_row-ok :
      (ttl : ℕ) (s : Session) (w : World) {r : RefreshRotationResult}
      → (rotate_row hash issue ttl (some s) w).0 ≡ ok r
      → (s.revoked_at ≡ none)
        × (w.env.now < s.expires_at)
        × (rotate_row hash issue ttl (some s) w ≡ exchange hash issue ttl w.env.now s w)
  rotate_row-ok ttl s w h = (ground arith, ground arith, ground arith)

  rotate_row-Renewed :
      (incoming : String) (ttl : ℕ) (w : World) {r : RefreshRotationResult} (o : Option Session)
      → by_hash (hash incoming) w.tables ≡ o
      → DrawsNewId incoming w.env w.tables
      → (rotate_row hash issue ttl o w).0 ≡ ok r
      → Renewed incoming ttl r w.env w.tables (rotate_row hash issue ttl o w).1.tables
  rotate_row-Renewed incoming ttl w none ho new h = cc
  rotate_row-Renewed incoming ttl w (some s) ho new h =
      let (live, unexpired, same) = rotate_row-ok ttl s w h in
      (
        s,
        ho,
        live,
        unexpired,
        rw same
            (exchange-Exchanged hash issue incoming ttl w.env.now s w ho (new s ho) (rw same at h)),
      )

  session_by_hash-ok :
      (h : String) (w : World) {o : Option Session}
      → (tx_query (session_by_hash h) w).0 ≡ ok o
      → (by_hash h w.tables ≡ o)
        × ((tx_query (session_by_hash h) w).1.tables ≡ w.tables)
        × ((tx_query (session_by_hash h) w).1.env ≡ w.env)
  unfolding tx_query
  session_by_hash-ok h w e = (ground arith, ground arith, ground arith)

  rotate_body-Renewed :
      (incoming : String) (ttl : ℕ) (w : World) {r : RefreshRotationResult}
      → DrawsNewId incoming w.env w.tables
      → (rotate_body hash issue incoming ttl w).0 ≡ ok r
      → Renewed incoming ttl r w.env w.tables (rotate_body hash issue incoming ttl w).1.tables
  rotate_body-Renewed incoming ttl w {r} new h =
      let (o, e, k, h') = >>=-ok (tx_query (session_by_hash (hash incoming))) _ w h in
      let w' = (tx_query (session_by_hash (hash incoming)) w).1 in
      let (found, tables, env) = session_by_hash-ok (hash incoming) w e in
      subst₃ (λ e t t'. Renewed incoming ttl r e t t') env tables (ap (λ p. p.1.tables) (sym k))
        (rotate_row-Renewed incoming ttl w' o (rw tables found) (rw (tables, env) new) h')

  -- Provided that the id drawn for the new row is not that of the token's row: a refresh that
  -- succeeds was asked for with the token of a live, unexpired session. It answers with the tokens of
  -- a new session of the same user and provider, which lives for `ttl`, and marks the old one as
  -- replaced by it.
  pub rotate_refresh_token-Renewed :
      (incoming : String) (ttl : ℕ) (w : World) {r : RefreshRotationResult}
      → DrawsNewId incoming w.env w.tables
      → (rotate_refresh_token hash issue true incoming ttl w).0 ≡ ok r
      → Renewed incoming ttl r w.env w.tables
          (rotate_refresh_token hash issue true incoming ttl w).1.tables
  unfolding rotate_refresh_token
  rotate_refresh_token-Renewed incoming ttl w {r} new h = elim (Bool-cases (is_empty incoming)) [
    | inl empty ↦ cc
    | inr full ↦ rw full (
        let (h', tables) = transaction-ok (rotate_body hash issue incoming ttl) w (rw full at h) in
        subst (Renewed incoming ttl r w.env w.tables) tables (
          rotate_body-Renewed incoming ttl (record w { calls = w.calls + 1; poisoned = false }) new
            h'))
  ]

  refused_if_empty :
      (incoming : String) (ttl : ℕ) (w : World) {r : RefreshRotationResult}
      → (rotate_refresh_token hash issue true incoming ttl w).0 ≡ ok r
      → is_empty incoming ≡ false
  unfolding rotate_refresh_token
  refused_if_empty incoming ttl w h = ground arith

  refused_if_replaced :
      (incoming : String) (ttl at id : ℕ) (s : Session) (w : World)
      → is_empty incoming ≡ false
      → by_hash (hash incoming) w.tables ≡ some s
      → s.revoked_at ≡ some at
      → s.replaced_by_session_id ≡ some id
      → let (answer, w') = rotate_refresh_token hash issue true incoming ttl w in
        ((answer ≡ err refresh_reuse) ⊎ (answer ≡ err failed)) × (w'.tables ≡ w.tables)
  unfolding rotate_refresh_token tx_query transaction
  refused_if_replaced incoming ttl at id s w full hs hr hp = (ground arith, ground arith)

  -- Provided that the id drawn for the new row was not that of the token's row: a token that has been
  -- exchanged is refused as reused in every world with the tables that the exchange left, or the
  -- database fails; the tables stay as they are.
  pub rotate_refresh_token_again :
      (incoming : String) (ttl ttl' : ℕ) (w w' : World) {r : RefreshRotationResult}
      → DrawsNewId incoming w.env w.tables
      → (rotate_refresh_token hash issue true incoming ttl w).0 ≡ ok r
      → w'.tables ≡ (rotate_refresh_token hash issue true incoming ttl w).1.tables
      → let (answer, w'') = rotate_refresh_token hash issue true incoming ttl' w' in
        ((answer ≡ err refresh_reuse) ⊎ (answer ≡ err failed)) × (w''.tables ≡ w'.tables)
  rotate_refresh_token_again incoming ttl ttl' w w' new h same =
      let (s, _, _, _, exchanged) = rotate_refresh_token-Renewed incoming ttl w new h in
      refused_if_replaced incoming ttl' w.env.now (w.env.uuid w.tables.drawn)
        (rotated_row w.env.now (w.env.uuid w.tables.drawn) s) w' (refused_if_empty incoming ttl w h)
        (rw same exchanged.1) refl refl

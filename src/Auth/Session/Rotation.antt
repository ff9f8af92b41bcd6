-- ===== src/Auth/Session/Rotation.antt =====
-- The exchange of a refresh token, statement by statement.
use foreignreader_be.Base.{
  ℕ, ◌+◌, ◌≡◌, ◌≢◌, refl, sym, ◌∙◌, String, str_eq, eq_iff, false, List, [], ◌∷◌, Option, some,
  ◌==◌, arith, any, find?, update,
}
use foreignreader_be.Schema.{Session, Tables}
use foreignreader_be.Db.{ok, Env, World, tx_query, draw_random}
use foreignreader_be.Db.Inversion.{>>=-ok, tx_query-ok}
use foreignreader_be.Auth.Session.{
  new_session, rotated_row, RefreshRotationResult, insert_session, mark_rotated,
  generate_refresh_token, exchange, issue_access_token,
}

-- The row of a token's hash.
abbrev pub by_hash : String → Tables → Option Session
by_hash hash t = find? (λ s. str_eq s.refresh_token_hash hash) t.sessions

-- Marking rows leaves their hashes, so the row of a hash is the same one, marked or not.
find?-rotated :
    (hash : String) (id now new_id : ℕ) (s : Session) (ss : List Session)
    → find? (λ s. str_eq s.refresh_token_hash hash) ss ≡ some s
    → s.id ≡ id
    → find?
        (λ s. str_eq s.refresh_token_hash hash)
        (update (λ s. s.id == id) (rotated_row now new_id) ss)
      ≡ some (rotated_row now new_id s)
find?-rotated hash id now new_id s [] h same = cc
find?-rotated hash id now new_id s (x ∷ xs) h same =
    ground (arith, find?-rotated hash id now new_id s xs)

find?-other :
    (hash : String) (id now new_id : ℕ) (s : Session) (ss : List Session)
    → find? (λ s. str_eq s.refresh_token_hash hash) ss ≡ some s
    → s.id ≢ id
    → find?
        (λ s. str_eq s.refresh_token_hash hash)
        (update (λ s. s.id == id) (rotated_row now new_id) ss)
      ≡ some s
find?-other hash id now new_id s [] h ne = cc
find?-other hash id now new_id s (x ∷ xs) h ne = ground (arith, find?-other hash id now new_id s xs)

-- A hash that no row has is not the hash of a row that is there.
hash_differs :
    (fresh hash : String) (s : Session) (ss : List Session)
    → any (λ s. str_eq s.refresh_token_hash fresh) ss ≡ false
    → find? (λ s. str_eq s.refresh_token_hash hash) ss ≡ some s
    → str_eq fresh hash ≡ false
hash_differs fresh hash s [] h k = cc
hash_differs fresh hash s (x ∷ xs) h k = ground (
  arith,
  eq_iff x.refresh_token_hash fresh,
  eq_iff x.refresh_token_hash hash,
  eq_iff fresh hash,
  hash_differs fresh hash s xs,
)

-- After the insertion the old token's row is still found, and the new token's row is the new one.
insert_session-by_hash :
    (user : ℕ) (provider fresh incoming : String) (expires now : ℕ) (env : Env) (t t' : Tables)
    → (id : ℕ) (s : Session) → by_hash incoming t ≡ some s
    → insert_session user provider fresh expires now env t ≡ ok (id, t')
    → (by_hash incoming t' ≡ some s)
      × (by_hash fresh t' ≡ some (new_session id user provider fresh expires now))
      × (id ≡ env.uuid t.drawn)
unfolding insert_session
insert_session-by_hash user provider fresh incoming expires now env t t' id s hs h =
    let differs : str_eq fresh incoming ≡ false =
      hash_differs fresh incoming s t.sessions (ground arith) hs in
    (ground arith, ground (arith, (eq_iff fresh fresh).1 refl), ground arith)

mark_rotated-by_hash :
    (id now new_id : ℕ) (hash : String) (env : Env) (t t' : Tables) (s : Session)
    → by_hash hash t ≡ some s
    → s.id ≡ id
    → mark_rotated id now new_id env t ≡ ok (tt, t')
    → by_hash hash t' ≡ some (rotated_row now new_id s)
unfolding mark_rotated
mark_rotated-by_hash id now new_id hash env t t' s hs same h =
    ground (arith, find?-rotated hash id now new_id s t.sessions hs same)

-- Marking another row leaves a session's row alone.
mark_rotated-other :
    (id now new_id : ℕ) (hash : String) (env : Env) (t t' : Tables) (s : Session)
    → by_hash hash t ≡ some s
    → s.id ≢ id
    → mark_rotated id now new_id env t ≡ ok (tt, t')
    → by_hash hash t' ≡ some s
unfolding mark_rotated
mark_rotated-other id now new_id hash env t t' s hs ne h =
    ground (arith, find?-other hash id now new_id s t.sessions hs ne)

module _ (hash : String → String) (issue : ℕ → String → ℕ → Option (String × ℕ)) where
  pub generate_refresh_token-ok :
      (w : World) {p : String × String}
      → (generate_refresh_token hash issue w).0 ≡ ok p
      → ((generate_refresh_token hash issue w).1.tables ≡ w.tables)
        × ((generate_refresh_token hash issue w).1.env ≡ w.env)
        × (p.1 ≡ hash p.0)
  unfolding generate_refresh_token draw_random
  generate_refresh_token-ok w h = (ground arith, ground arith, ground arith)

  issue_access_token-ok :
      (user : ℕ) (provider : String) (sid : ℕ) (w : World) {token : String × ℕ}
      → (issue_access_token hash issue user provider sid w).0 ≡ ok token
      → ((issue_access_token hash issue user provider sid w).1.tables ≡ w.tables)
        × (issue user provider sid ≡ some token)
  issue_access_token-ok user provider sid w h = (ground arith, ground arith)

  -- The tokens of `r` stand for a new session `id` of the user of `s`, whose row now names it.
  abbrev pub Exchanged : String → ℕ → ℕ → Session → RefreshRotationResult → ℕ → Tables → Type 0
  Exchanged incoming ttl now s r id t =
      (issue s.user_id s.provider id ≡ some (r.access_token, r.access_token_expires_at))
      × (by_hash (hash incoming) t ≡ some (rotated_row now id s))
      × (by_hash (hash r.refresh_token) t
          ≡ some (new_session id s.user_id s.provider (hash r.refresh_token) (now + ttl) now))

  pub exchange-Exchanged :
      (incoming : String) (ttl now : ℕ) (s : Session) (w : World) {r : RefreshRotationResult}
      → by_hash (hash incoming) w.tables ≡ some s
      → s.id ≢ w.env.uuid w.tables.drawn
      → (exchange hash issue ttl now s w).0 ≡ ok r
      → Exchanged incoming ttl now s r
          (w.env.uuid w.tables.drawn)
          (exchange hash issue ttl now s w).1.tables
  unfolding exchange
  exchange-Exchanged incoming ttl now s w {r} hs ne h =
      let (fresh, e1, k1, h1) = >>=-ok (generate_refresh_token hash issue) _ w h in
      let w1 = (generate_refresh_token hash issue w).1 in
      let insert = insert_session s.user_id s.provider fresh.1 (now + ttl) now in
      let (id, e2, k2, h2) = >>=-ok (tx_query insert) _ w1 h1 in
      let w2 = (tx_query insert w1).1 in
      let mark = mark_rotated s.id now id in
      let (_, e3, k3, h3) = >>=-ok (tx_query mark) _ w2 h2 in
      let w3 = (tx_query mark w2).1 in
      let (token, e4, k4, h4) =
        >>=-ok (issue_access_token hash issue s.user_id s.provider id) _ w3 h3 in
      let made = generate_refresh_token-ok w e1 in
      let inserted =
        insert_session-by_hash s.user_id s.provider fresh.1 (hash incoming) (now + ttl) now w1.env
          w1.tables w2.tables id s (rw made.0 hs) (tx_query-ok insert w1 e2).0 in
      let new : id ≡ w.env.uuid w.tables.drawn = cc (inserted.2, made.0, made.1) in
      let marked =
        mark_rotated-by_hash s.id now id (hash incoming) w2.env w2.tables w3.tables s inserted.0
          refl (tx_query-ok mark w2 e3).0 in
      let kept =
        mark_rotated-other s.id now id fresh.1 w2.env w2.tables w3.tables _ inserted.1
          (λ same. ne (sym same ∙ new)) (tx_query-ok mark w2 e3).0 in
      let signed = issue_access_token-ok s.user_id s.provider id w3 e4 in
      let answer : r ≡ record {
        access_token = token.0;
        access_token_expires_at = token.1;
        refresh_token = fresh.0;
      } =
        ground arith in
      rw (k1, k2, k3, k4, signed.0, answer, ← made.2, ← new) (signed.1, marked, kept)

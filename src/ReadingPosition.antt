-- ===== src/ReadingPosition.antt =====
-- internal/readingposition/repository.go and service.go: the latest reading position of a user in a
-- book, and which of two devices' positions wins. The repository's DB is not nil.
pub mod Routes
pub mod Sync
pub mod Resolve
use foreignreader_be.Base.{
  ℕ, ℤ, is_negative, pos_part, String, str_eq, Bool, true, false, ◌&&◌, ◌||◌, not, Option, none,
  some, ◌∷◌, ◌==◌, leb, ltb, if◌then◌else◌, is_empty, find?, update,
}
use foreignreader_be.Schema.{Position, Tables}
use foreignreader_be.Db.{
  Result, ok, err, Db, Stmt, fail, pure, query, no_rows, violation, unauthenticated,
  invalid_argument, ◌>>=◌,
}

-- LocalPosition.
pub record LocalPosition : Type 0 where
  pub chapter_id : Option String
  pub character_offset : Option ℤ
  pub progress_fraction : Option ℕ
  pub device_id : String
  pub updated_at : ℕ

-- ResolveResult; the remote position goes with the decision to use it, and only with it.
pub data ResolveResult : Type 0 where
  use_local : ResolveResult
  use_remote : Position → ResolveResult

-- `user_id = $1 AND book_fingerprint = $2`.
abbrev pub is_key : ℕ → String → Position → Bool
is_key user book p = p.user_id == user && str_eq p.book_fingerprint book

-- LatestByUserAndBookFingerprint, with ErrNotFound as none.
abbrev pub latest_stmt : ℕ → String → Stmt (Option Position)
latest_stmt user book env t = ok (find? (is_key user book) t.positions, t)

unfoldable pub latest_position : ℕ → String → Db (Option Position)
latest_position user book = query (latest_stmt user book)

-- The columns refuse a negative offset (a CHECK) and one that is no 32-bit INTEGER.
abbrev pub is_storable : Position → Bool
is_storable p = not (is_negative p.character_offset) && ltb (pos_part p.character_offset) 0x80000000

abbrev pub stored : Position → Tables → Option Position → Bool × Tables
stored row t none = (true, record t { positions = row ∷ t.positions })
stored row t (some old) =
    if leb old.updated_at row.updated_at
    then (
      true,
      record t {
        positions = update (is_key row.user_id row.book_fingerprint) (λ p. row) t.positions;
      },
    )
    else (false, t)

-- UpsertLatestByUserAndBookFingerprint: whether a row was affected.
unfoldable pub upsert_latest : Position → Stmt Bool
upsert_latest row env t =
    if is_storable row
    then ok (stored row t (find? (is_key row.user_id row.book_fingerprint) t.positions))
    else err violation

abbrev pub decide : Option LocalPosition → Option Position → ResolveResult
decide local none = use_local
decide none (some remote) = use_remote remote
decide (some l) (some remote) =
    if not (l.updated_at == 0) && leb remote.updated_at l.updated_at
    then use_local
    else use_remote remote

-- ResolvePosition; uuid.Nil is 0.
unfoldable pub resolve_position : ℕ → String → Option LocalPosition → Db ResolveResult
resolve_position user book local =
    if user == 0
    then fail unauthenticated
    else if is_empty book
    then fail invalid_argument
    else (do remote ← latest_position user book; pure (decide local remote))

abbrev pub is_invalid : Position → Bool
is_invalid p =
    is_empty p.book_fingerprint
    || is_empty p.chapter_id
    || is_empty p.device_id
    || p.updated_at == 0
    || is_negative p.character_offset

-- SavePosition; the arguments are those of the row.
unfoldable pub save_position : Position → Db Bool
save_position p =
    if p.user_id == 0
    then fail unauthenticated
    else if is_invalid p
    then fail invalid_argument
    else query (upsert_latest p)

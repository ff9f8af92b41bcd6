-- ===== src/ReadingPosition/Sync.antt =====
-- What handleReadingPositionSave does to the stored positions.
use foreignreader_be.Base.{
  ℕ, ◌≤◌, ◌<◌, ◌≡◌, refl, String, eq_iff, Bool, true, false, inl, inr, Option, none, some, List, [],
  ◌∷◌, find?, update, arith, Bool-cases, ap, sym, ◌⊎◌, trim_space,
}
use foreignreader_be.Schema.{Position, Tables}
use foreignreader_be.Db.{ok, World, query}
use foreignreader_be.Http.{success}
use foreignreader_be.ReadingPosition.{is_key, stored, upsert_latest, save_position}
use foreignreader_be.ReadingPosition.Routes.{
  SavedFields, SaveRequest, requested, handle_reading_position_save,
}

-- What is stored for a user and a book.
abbrev pub latest : ℕ → String → Tables → Option Position
latest user book t = find? (is_key user book) t.positions

is_key_refl : (p : Position) → is_key p.user_id p.book_fingerprint p ≡ true
is_key_refl p = ground (arith, (eq_iff p.book_fingerprint p.book_fingerprint).1 refl)

-- Writing a row over the ones with its key.
find?-update :
    (row old : Position) (ps : List Position)
    → find? (is_key row.user_id row.book_fingerprint) ps ≡ some old
    → find?
        (is_key row.user_id row.book_fingerprint)
        (update (is_key row.user_id row.book_fingerprint) (λ p. row) ps)
      ≡ some row
find?-update row old [] h = cc
find?-update row old (p ∷ ps) h = ground (arith, find?-update row old ps, is_key_refl row)

-- Rows of two keys are not the same.
is_key-ne :
    (user : ℕ) (book : String) (row p : Position)
    → is_key user book row ≡ false
    → is_key row.user_id row.book_fingerprint p ≡ true
    → is_key user book p ≡ false
is_key-ne user book row p h e = grind (arith, eq_iff)

find?-update_ne :
    (user : ℕ) (book : String) (row : Position) (ps : List Position)
    → is_key user book row ≡ false
    → find? (is_key user book) (update (is_key row.user_id row.book_fingerprint) (λ p. row) ps)
      ≡ find? (is_key user book) ps
find?-update_ne user book row [] ne = refl
find?-update_ne user book row (p ∷ ps) ne =
    ground (arith, find?-update_ne user book row ps ne, is_key-ne user book row p ne)

-- What a save makes of the tables, with its answer.
abbrev pub Saved : Position → Tables → Bool → Tables → Type 0
Saved p t applied t' =
    (applied ≡ true → latest p.user_id p.book_fingerprint t' ≡ some p)
    × (applied ≡ false
        → (t' ≡ t)
          × ((old : Position) × (latest p.user_id p.book_fingerprint t ≡ some old)
              × (p.updated_at < old.updated_at)))
    × ((user : ℕ) (book : String)
        → is_key user book p ≡ false
        → latest user book t' ≡ latest user book t)

stored-Saved :
    (p : Position) (t : Tables) (o : Option Position)
    → latest p.user_id p.book_fingerprint t ≡ o
    → Saved p t (stored p t o).0 (stored p t o).1
stored-Saved p t none h =
    (λ e. ground (arith, is_key_refl p), λ e. cc, λ user book ne. ground arith)
stored-Saved p t (some old) h = (
  λ e. ground (arith, find?-update p old t.positions h),
  λ e. (ground arith, (old, h, ground arith)),
  λ user book ne. ground (arith, find?-update_ne user book p t.positions ne),
)

save_position-ok :
    (p : Position) (w : World) {applied : Bool}
    → (save_position p w).0 ≡ ok applied
    → let end = stored p w.tables (latest p.user_id p.book_fingerprint w.tables) in
      (end.0 ≡ applied) × (end.1 ≡ (save_position p w).1.tables)
unfolding save_position query upsert_latest
save_position-ok p w h = (ground arith, ground arith)

handled-ok :
    (user : ℕ) (req : SaveRequest) (w : World) {applied : Bool}
    → (handle_reading_position_save (some user) true (some req) w).0 ≡ success applied
    → let p = requested user req in
      ((save_position p w).0 ≡ ok applied)
      × ((save_position p w).1.tables
          ≡ (handle_reading_position_save (some user) true (some req) w).1.tables)
unfolding handle_reading_position_save
handled-ok user req w h = (ground arith, ground arith)

save_requested-Saved :
    (user : ℕ) (req : SaveRequest) (w : World) {applied : Bool}
    → (handle_reading_position_save (some user) true (some req) w).0 ≡ success applied
    → Saved
        (requested user req)
        w.tables
        applied
        (handle_reading_position_save (some user) true (some req) w).1.tables
save_requested-Saved user req w {applied} h =
    let p = requested user req in
    let (answered, tables) = handled-ok user req w h in
    let (e0, e1) = save_position-ok p w answered in
    rw (← tables, ← e0, ← e1)
      (stored-Saved p w.tables (latest p.user_id p.book_fingerprint w.tables) refl)

-- The fields that the body gives: those of `position`, or else those at its root.
abbrev pub Gives : SaveRequest → SavedFields → Type 0
Gives req f = (req.position ≡ some f) ⊎ ((req.position ≡ none) × (f ≡ req.root))

-- The position has the user, the book and the fields of the request, its texts trimmed.
pub record IsAsked (user : ℕ) (req : SaveRequest) (f : SavedFields) (p : Position) : Type 0 where
  pub same_user : p.user_id ≡ user
  pub same_book : p.book_fingerprint ≡ trim_space req.book_fingerprint
  pub same_chapter : p.chapter_id ≡ trim_space f.chapter_id
  pub same_offset : p.character_offset ≡ f.character_offset
  pub same_progress : p.progress_fraction ≡ f.progress_fraction
  pub same_device : p.device_id ≡ trim_space f.device_id
  pub same_instant : p.updated_at ≡ f.updated_at

requested-IsAsked :
    (user : ℕ) (req : SaveRequest) (f : SavedFields)
    → Gives req f
    → IsAsked user req f (requested user req)
requested-IsAsked user req f (inl nested) = record {
  same_user = refl;
  same_book = refl;
  same_chapter = rw nested refl;
  same_offset = rw nested refl;
  same_progress = rw nested refl;
  same_device = rw nested refl;
  same_instant = rw nested refl;
}
requested-IsAsked user req f (inr (absent, root)) = record {
  same_user = refl;
  same_book = refl;
  same_chapter = rw (absent, root) refl;
  same_offset = rw (absent, root) refl;
  same_progress = rw (absent, root) refl;
  same_device = rw (absent, root) refl;
  same_instant = rw (absent, root) refl;
}

-- A save that is answered says whether it was applied: then what is stored for the user and the book
-- is the position with the fields of the body, those of `position` or else those at its root, its
-- texts trimmed; otherwise nothing changed, because the stored one is newer. The other positions
-- stay as they are.
pub handle_reading_position_save-Saved :
    (user : ℕ) (req : SaveRequest) (f : SavedFields) (w : World) {applied : Bool}
    → Gives req f
    → (handle_reading_position_save (some user) true (some req) w).0 ≡ success applied
    → (p : Position) × IsAsked user req f p
      × Saved p w.tables applied
          (handle_reading_position_save (some user) true (some req) w).1.tables
handle_reading_position_save-Saved user req f w given h =
    (requested user req, requested-IsAsked user req f given, save_requested-Saved user req w h)

-- The instant of the stored position; 0, which no stored position has, if there is none.
abbrev pub instant_of : Option Position → ℕ
instant_of none = 0
instant_of (some p) = p.updated_at

abbrev pub newest_at : ℕ → String → Tables → ℕ
newest_at user book t = instant_of (latest user book t)

-- Saves one after another, with their users, whatever they answer.
abbrev pub saves : List (ℕ × SaveRequest) → World → World
saves [] w = w
saves ((user, req) ∷ rest) w =
    saves rest (handle_reading_position_save (some user) true (some req) w).1

is_key-eq :
    (user : ℕ) (book : String) (p : Position)
    → is_key user book p ≡ true
    → (user ≡ p.user_id) × (book ≡ p.book_fingerprint)
is_key-eq user book p h = (ground arith, sym ((eq_iff p.book_fingerprint book).0 (ground arith)))

stored-newest_at_self :
    (p : Position) (t : Tables) (o : Option Position)
    → latest p.user_id p.book_fingerprint t ≡ o
    → newest_at p.user_id p.book_fingerprint t
      ≤ newest_at p.user_id p.book_fingerprint (stored p t o).1
stored-newest_at_self p t none h = ground arith
stored-newest_at_self p t (some old) h = ground (arith, find?-update p old t.positions h)

stored-newest_at :
    (user : ℕ) (book : String) (p : Position) (t : Tables) (o : Option Position)
    → latest p.user_id p.book_fingerprint t ≡ o
    → newest_at user book t ≤ newest_at user book (stored p t o).1
stored-newest_at user book p t o h = elim (Bool-cases (is_key user book p)) [
  | inl mine ↦
      let (eu, eb) = is_key-eq user book p mine in rw (eu, eb) (stored-newest_at_self p t o h)
  | inr theirs ↦
      let same = (stored-Saved p t o h).2 user book theirs in ground (arith, ap instant_of same)
]

save_position-newest_at :
    (user : ℕ) (book : String) (p : Position) (w : World)
    → newest_at user book w.tables ≤ newest_at user book (save_position p w).1.tables
unfolding save_position query upsert_latest
save_position-newest_at user book p w =
    let lemma =
      stored-newest_at user book p w.tables (latest p.user_id p.book_fingerprint w.tables) refl in
    ground (arith, lemma)

handle_reading_position_save-newest_at :
    (user : ℕ) (book : String) (author : ℕ) (req : SaveRequest) (w : World)
    → newest_at user book w.tables
      ≤ newest_at user book (handle_reading_position_save (some author) true (some req) w).1.tables
unfolding handle_reading_position_save
handle_reading_position_save-newest_at user book author req w =
    ground (arith, save_position-newest_at user book (requested author req) w)

saves-newest_at :
    (user : ℕ) (book : String) (rest : List (ℕ × SaveRequest)) (w : World)
    → newest_at user book w.tables ≤ newest_at user book (saves rest w).tables
saves-newest_at user book [] w = ground arith
saves-newest_at user book ((author, req) ∷ rest) w = ground (
  arith,
  handle_reading_position_save-newest_at user book author req w,
  saves-newest_at user book rest (handle_reading_position_save (some author) true (some req) w).1,
)

Saved-newest_at :
    (p : Position) (t t' : Tables) (applied : Bool)
    → Saved p t applied t'
    → p.updated_at ≤ newest_at p.user_id p.book_fingerprint t'
Saved-newest_at p t t' true (now, _, _) = ground (arith, now refl)
Saved-newest_at p t t' false (_, before, _) =
    let (same, (old, found, older)) = before refl in ground arith

-- What a successful save has reported, applied or not, is never undone: after any further saves, of
-- any users and whatever they answer, the position stored for its user and book is not older.
pub handle_reading_position_save-lasts :
    (user : ℕ) (req : SaveRequest) (rest : List (ℕ × SaveRequest)) (w : World) {applied : Bool}
    → (handle_reading_position_save (some user) true (some req) w).0 ≡ success applied
    → let p = requested user req in
      let w' = (handle_reading_position_save (some user) true (some req) w).1 in
      p.updated_at ≤ newest_at user p.book_fingerprint (saves rest w').tables
handle_reading_position_save-lasts user req rest w {applied} h =
    let p = requested user req in
    let w' = (handle_reading_position_save (some user) true (some req) w).1 in
    let reached =
      Saved-newest_at p w.tables w'.tables applied (save_requested-Saved user req w h) in
    ground (arith, reached, saves-newest_at user p.book_fingerprint rest w')

-- ===== src/ReadingPosition/Routes.antt =====
-- internal/server/routes_reading_position.go: the handlers behind the bearer authentication and the
-- check for Pro. A body is none if it does not decode.
use foreignreader_be.Base.{
  ℕ, ℤ, is_negative, String, Bool, false, ◌||◌, not, Option, none, some, ◌==◌, trim_space, is_empty,
}
use foreignreader_be.Schema.{Position}
use foreignreader_be.Db.{Error, Result, ok, err, World, invalid_argument}
use foreignreader_be.Http.{Response, success, api_error, Handler, reject, reject_if}
use foreignreader_be.ReadingPosition.{LocalPosition, ResolveResult, resolve_position, save_position}

-- resolveReadingPositionRequest; resolveLocalPosition has the fields of LocalPosition.
pub record ResolveRequest : Type 0 where
  pub book_fingerprint : String
  pub local_position : Option LocalPosition

abbrev negative_offset : Option ℤ → Bool
negative_offset none = false
negative_offset (some z) = is_negative z

abbrev pub rejects_local : Option LocalPosition → Bool
rejects_local none = false
rejects_local (some lp) =
    is_empty (trim_space lp.device_id) || lp.updated_at == 0 || negative_offset lp.character_offset

abbrev trim_option : Option String → Option String
trim_option none = none
trim_option (some s) = some (trim_space s)

abbrev pub to_local : Option LocalPosition → Option LocalPosition
to_local none = none
to_local (some lp) =
    some record lp { chapter_id = trim_option lp.chapter_id; device_id = trim_space lp.device_id }

abbrev resolved : Result ResolveResult × World → Response ResolveResult × World
resolved (ok res, w) = (success res, w)
resolved (err e, w) = (api_error 500 "internal_error", w)

abbrev resolve_decoded : ℕ → Option ResolveRequest → Handler ResolveResult
resolve_decoded user none = reject 400 "invalid_request"
resolve_decoded user (some req) =
    reject_if (is_empty (trim_space req.book_fingerprint)) 400 "invalid_request" (
      reject_if (rejects_local req.local_position) 400 "invalid_request" (λ w.
        resolved (
          resolve_position user (trim_space req.book_fingerprint) (to_local req.local_position) w)))

abbrev resolve_authenticated : Bool → Option ResolveRequest → Option ℕ → Handler ResolveResult
resolve_authenticated is_json body none = reject 401 "unauthorized"
resolve_authenticated is_json body (some user) =
    reject_if (not is_json) 415 "invalid_request" (resolve_decoded user body)

-- handleReadingPositionResolve; `user` is UserFromContext.
unfoldable pub handle_reading_position_resolve :
    Option ℕ → Bool → Option ResolveRequest → Handler ResolveResult
handle_reading_position_resolve user is_json body = resolve_authenticated is_json body user

-- The fields of a position in saveReadingPositionRequest, at the root or in `position`.
pub record SavedFields : Type 0 where
  pub chapter_id : String
  pub character_offset : ℤ
  pub progress_fraction : Option ℕ
  pub device_id : String
  pub updated_at : ℕ

pub record SaveRequest : Type 0 where
  pub book_fingerprint : String
  pub position : Option SavedFields
  pub root : SavedFields

abbrev fields_of : SavedFields → Option SavedFields → SavedFields
fields_of root none = root
fields_of root (some position) = position

-- The position that a request asks to save.
abbrev pub requested : ℕ → SaveRequest → Position
requested user req =
    let f = fields_of req.root req.position in
    record {
      user_id = user;
      book_fingerprint = trim_space req.book_fingerprint;
      chapter_id = trim_space f.chapter_id;
      character_offset = f.character_offset;
      progress_fraction = f.progress_fraction;
      device_id = trim_space f.device_id;
      updated_at = f.updated_at;
    }

abbrev save_failed : Error → Response Bool
save_failed invalid_argument = api_error 400 "invalid_request"
save_failed e = api_error 500 "internal_error"

abbrev saved : Result Bool × World → Response Bool × World
saved (ok applied, w) = (success applied, w)
saved (err e, w) = (save_failed e, w)

abbrev save_requested : Position → Handler Bool
save_requested p = reject_if (is_empty p.book_fingerprint) 400 "invalid_request" (
    reject_if (is_empty p.chapter_id) 400 "invalid_request" (
      reject_if (is_negative p.character_offset) 400 "invalid_request" (
        reject_if (is_empty p.device_id) 400 "invalid_request"
          (reject_if (p.updated_at == 0) 400 "invalid_request" (λ w. saved (save_position p w))))))

abbrev save_decoded : ℕ → Option SaveRequest → Handler Bool
save_decoded user none = reject 400 "invalid_request"
save_decoded user (some req) = save_requested (requested user req)

abbrev save_authenticated : Bool → Option SaveRequest → Option ℕ → Handler Bool
save_authenticated is_json body none = reject 401 "unauthorized"
save_authenticated is_json body (some user) =
    reject_if (not is_json) 415 "invalid_request" (save_decoded user body)

-- handleReadingPositionSave.
unfoldable pub handle_reading_position_save : Option ℕ → Bool → Option SaveRequest → Handler Bool
handle_reading_position_save user is_json body = save_authenticated is_json body user

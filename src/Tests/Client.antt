-- ===== src/Tests/Client.antt =====
-- What the app asks for, in a concrete world.
use foreignreader_be.Base.{
  ◌≡◌, ◌≤◌, ◌<◌, inl, refl, String, true, Option, none, some, [], ◌∷◌, pos, arith, trim_space,
}
use foreignreader_be.Schema.{Entitlement, Position}
use foreignreader_be.Db.{World, Env, ok}
use foreignreader_be.Entitlement.{grants_pro, has_active_pro, access_of, pro_row}
use foreignreader_be.Entitlement.Access.{IsNewest, is_some, active_pro_access-IsNewest}
use foreignreader_be.Quota.{used_once_more}
use foreignreader_be.Translate.{
  TranslateRequest, TranslationOutput, Translated, translated, cancelled, TranslateResponse, public,
  authenticated_translate_handler,
}
use foreignreader_be.Translate.Charge.{
  quota_of, authenticated_translate_handler-success, authenticated_translate_handler-err,
}
use foreignreader_be.ReadingPosition.{LocalPosition, ResolveResult, use_local}
use foreignreader_be.ReadingPosition.Routes.{
  SavedFields, SaveRequest, ResolveRequest, requested, handle_reading_position_save,
  handle_reading_position_resolve,
}
use foreignreader_be.ReadingPosition.Sync.{
  latest, newest_at, saves, IsAsked, Saved, handle_reading_position_save-Saved,
  handle_reading_position_save-lasts,
}
use foreignreader_be.ReadingPosition.Resolve.{Resolved, handle_reading_position_resolve-Resolved}
use foreignreader_be.RateLimit.{new_window}
use foreignreader_be.RateLimit.Bound.{allowed, allow-bound}
use foreignreader_be.Schema.{stripe}
use foreignreader_be.Tests.{start, calm, no_rows_yet}

abbrev pub output : TranslationOutput
output = record {
  word_translation = "a";
  sentence_translation = "b";
  lemma = "c";
  lemma_translation = "d";
  part_of_speech = "e";
  grammar_form = "f";
  source_expression = "";
}

abbrev pub word : TranslateRequest
word = record {
  source_language = "de";
  target_language = "en";
  sentence = "x";
  selected_word = "x";
}

abbrev pub client : String → String → String → String → Translated
client source target sentence selected = translated output

abbrev broken : String → String → String → String → Translated
broken source target sentence selected = cancelled

abbrev charged_once : TranslateResponse
charged_once = record {
  output = output;
  context_quota = some (public (used_once_more (quota_of 5 7 3 no_rows_yet)));
}

-- The user 7 has bought Pro for ever.
abbrev with_pro : World
with_pro = record start {
  tables = record no_rows_yet { entitlements = pro_row calm no_rows_yet stripe 7 none ∷ [] };
}

authenticated_translate_handler-success_example :
    let q = quota_of 5 7 3 start.tables in
    let t = (authenticated_translate_handler client 5 (some 7) true (some word) start).1.tables in
    (q.used_count < q.monthly_limit)
    × (charged_once.context_quota ≡ some (public (used_once_more q)))
    × (quota_of 5 7 3 t ≡ used_once_more q)
unfolding authenticated_translate_handler has_active_pro foreignreader_be.Db.query
    foreignreader_be.Quota.ensure_current_month_row foreignreader_be.Quota.ensure_row
    foreignreader_be.Translate.translate_context_run trim_space
    foreignreader_be.Quota.increment_used_count foreignreader_be.Quota.increment_row
authenticated_translate_handler-success_example =
    authenticated_translate_handler-success client 5 7 true (some word) start {r = charged_once}
      refl refl

authenticated_translate_handler-err_example :
    quota_of 5 7 3
      (authenticated_translate_handler broken 5 (some 7) true (some word) start).1.tables
    ≡ quota_of 5 7 3 start.tables
unfolding authenticated_translate_handler has_active_pro foreignreader_be.Db.query
    foreignreader_be.Quota.ensure_current_month_row foreignreader_be.Quota.ensure_row
    foreignreader_be.Translate.translate_context_run trim_space
authenticated_translate_handler-err_example =
    authenticated_translate_handler-err broken 5 7 true (some word) start {status = 502}
      {code = "translation_failed"} refl

active_pro_access-IsNewest_example :
    (e : Option Entitlement) × IsNewest (grants_pro 100 7) with_pro.tables.entitlements e
    × (some (stripe, none) ≡ access_of e)
    × (true ≡ is_some e)
unfolding foreignreader_be.Entitlement.active_pro_access foreignreader_be.Db.query has_active_pro
active_pro_access-IsNewest_example =
    active_pro_access-IsNewest 7 with_pro {o = some (stripe, none)} {b = true} refl refl

abbrev fields : SavedFields
fields = record {
  chapter_id = "ch1";
  character_offset = pos 12;
  progress_fraction = none;
  device_id = "phone";
  updated_at = 90;
}

abbrev save_request : SaveRequest
save_request = record {
  book_fingerprint = " book";
  position = some fields;
  root = record fields { chapter_id = "ch9"; updated_at = 99 };
}

abbrev resolve_request : ResolveRequest
resolve_request = record {
  book_fingerprint = "book";
  local_position = some (record {
    chapter_id = none;
    character_offset = none;
    progress_fraction = none;
    device_id = "phone";
    updated_at = 95;
  });
}

handle_reading_position_save-Saved_example :
    (p : Position) × IsAsked 7 save_request fields p
    × Saved p start.tables true
        (handle_reading_position_save (some 7) true (some save_request) start).1.tables
unfolding handle_reading_position_save trim_space foreignreader_be.ReadingPosition.save_position
    foreignreader_be.Db.query foreignreader_be.ReadingPosition.upsert_latest
handle_reading_position_save-Saved_example =
    handle_reading_position_save-Saved 7 save_request fields start {applied = true} (inl refl) refl

handle_reading_position_save-lasts_example :
    let w' = (handle_reading_position_save (some 7) true (some save_request) start).1 in
    (requested 7 save_request).updated_at
    ≤ newest_at 7
        (requested 7 save_request).book_fingerprint
        (saves ((7, save_request) ∷ (8, save_request) ∷ []) w').tables
unfolding handle_reading_position_save trim_space foreignreader_be.ReadingPosition.save_position
    foreignreader_be.Db.query foreignreader_be.ReadingPosition.upsert_latest
handle_reading_position_save-lasts_example =
    handle_reading_position_save-lasts 7 save_request ((7, save_request) ∷ (8, save_request) ∷ [])
      start {applied = true} refl

-- The position is saved, and asked for by the same device, which has read on since.
abbrev synced : World
synced = record start { tables = record no_rows_yet { positions = requested 7 save_request ∷ [] } }

handle_reading_position_resolve-Resolved_example :
    Resolved resolve_request.local_position
      (latest 7 (trim_space resolve_request.book_fingerprint) synced.tables)
      use_local
unfolding handle_reading_position_resolve trim_space
    foreignreader_be.ReadingPosition.resolve_position
    foreignreader_be.ReadingPosition.latest_position foreignreader_be.Db.query
handle_reading_position_resolve-Resolved_example =
    handle_reading_position_resolve-Resolved 7 resolve_request synced {res = use_local} refl

allow-bound_example :
    allowed "ip"
      (pos 2)
      60
      (("ip", 100) ∷ ("ip", 110) ∷ ("other", 111) ∷ ("ip", 120) ∷ [])
      new_window
    ≤ 2
allow-bound_example =
    allow-bound "ip" 1 60 100 (("ip", 110) ∷ ("other", 111) ∷ ("ip", 120) ∷ []) new_window
      (λ e h. cc) (ground arith)

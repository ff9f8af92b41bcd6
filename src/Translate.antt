-- ===== src/Translate.antt =====
-- internal/server/routes_api_v1.go: translating a word in its context, for an authenticated user.
pub mod Charge
use foreignreader_be.Base.{
  ℕ, ◌-◌, String, Bool, true, false, ◌&&◌, ◌||◌, not, Option, none, some, ◌==◌, leb, if◌then◌else◌,
  trim_space, is_empty,
}
use foreignreader_be.Schema.{Quota}
use foreignreader_be.Db.{Error, Result, ok, err, World}
use foreignreader_be.Http.{Response, success, api_error, Handler, reject, reject_if}
use foreignreader_be.Entitlement.{has_active_pro}
use foreignreader_be.Quota.{ensure_current_month_row, increment_used_count}

-- translateContextRequest.
pub record TranslateRequest : Type 0 where
  pub source_language : String
  pub target_language : String
  pub sentence : String
  pub selected_word : String

-- TranslationOutput.
pub record TranslationOutput : Type 0 where
  pub word_translation : String
  pub sentence_translation : String
  pub lemma : String
  pub lemma_translation : String
  pub part_of_speech : String
  pub grammar_form : String
  pub source_expression : String

-- What translate.Client.TranslateContext returns: an output, or the errors that the code tells
-- apart. An `openai` error has the status of OpenAI's answer.
pub data Translated : Type 0 where
  translated : TranslationOutput → Translated
  invalid_model_output cancelled upstream : Translated
  openai : ℕ → Translated

-- contextQuotaPublic.
pub record QuotaPublic : Type 0 where
  pub monthly_limit : ℕ
  pub used_count : ℕ
  pub remaining : ℕ
  pub period_key : ℕ

-- translateContextResponse.
pub record TranslateResponse : Type 0 where
  pub output : TranslationOutput
  pub context_quota : Option QuotaPublic

-- mapOpenAIHTTPStatusToClient.
unfoldable pub map_openai_http_status_to_client : ℕ → ℕ
map_openai_http_status_to_client code =
    if code == 429
    then 429
    else if leb 400 code && leb code 499
    then 400
    else if leb 500 code && leb code 599
    then 502
    else 502

-- translateClientErrorCodeAndMessage, the code.
unfoldable pub translate_client_error_code : ℕ → String
translate_client_error_code status = if status == 429 then "rate_limited" else "translation_failed"

abbrev ran : Translated → Response TranslationOutput
ran (translated out) = success out
ran invalid_model_output = api_error 500 "invalid_model_output"
ran cancelled = api_error 502 "translation_failed"
ran upstream = api_error 502 "translation_failed"
ran (openai code) =
    let status = map_openai_http_status_to_client code in
    api_error status (translate_client_error_code status)

-- `ml - uc`, raised to 0.
abbrev pub remaining_of : Quota → ℕ
remaining_of q = q.monthly_limit - q.used_count

abbrev pub public : Quota → QuotaPublic
public q = record {
  monthly_limit = q.monthly_limit;
  used_count = q.used_count;
  remaining = remaining_of q;
  period_key = q.period_key;
}

-- The client of the translation provider, and cfg.FreeContextTranslationsPerMonth.
module _ (client : String → String → String → String → Translated) (free : ℕ) where
  -- translateContextRun.
  unfoldable pub translate_context_run : TranslateRequest → Response TranslationOutput
  translate_context_run req =
      if is_empty (trim_space req.source_language)
        || is_empty (trim_space req.target_language)
        || is_empty (trim_space req.sentence)
        || is_empty (trim_space req.selected_word)
      then api_error 400 "invalid_request"
      else ran (
          client (trim_space req.source_language) (trim_space req.target_language)
            (trim_space req.sentence) (trim_space req.selected_word))

  abbrev charged : TranslationOutput → Result Quota × World → Response TranslateResponse × World
  charged out (err e, w) = (api_error 500 "internal_error", w)
  charged out (ok q, w) = (success (record { output = out; context_quota = some (public q) }), w)

  abbrev answer_free : ℕ → Quota → Response TranslationOutput → Handler TranslateResponse
  answer_free user q (api_error status code) = reject status code
  answer_free user q (success out) = λ w. charged out (increment_used_count user q.period_key w)

  abbrev answer_pro : Response TranslationOutput → Handler TranslateResponse
  answer_pro (api_error status code) = reject status code
  answer_pro (success out) = λ w. (success (record { output = out; context_quota = none }), w)

  abbrev with_quota :
      ℕ → TranslateRequest → Result Quota × World → Response TranslateResponse × World
  with_quota user req (err e, w) = (api_error 500 "internal_error", w)
  with_quota user req (ok q, w) =
      reject_if (remaining_of q == 0) 403 "context_translation_quota_exhausted"
        (answer_free user q (translate_context_run req)) w

  abbrev with_plan : ℕ → TranslateRequest → Result Bool × World → Response TranslateResponse × World
  with_plan user req (err e, w) = (api_error 500 "internal_error", w)
  with_plan user req (ok true, w) = answer_pro (translate_context_run req) w
  with_plan user req (ok false, w) = with_quota user req (ensure_current_month_row user free w)

  abbrev decoded : ℕ → Option TranslateRequest → Handler TranslateResponse
  decoded user none = reject 400 "invalid_request"
  decoded user (some req) = λ w. with_plan user req (has_active_pro user w)

  abbrev for_user : Bool → Option TranslateRequest → Option ℕ → Handler TranslateResponse
  for_user is_json body none = reject 401 "unauthorized"
  for_user is_json body (some user) =
      reject_if (not is_json) 415 "invalid_request" (decoded user body)

  -- authenticatedTranslateHandler; `user` is UserFromContext, a body that does not decode is none.
  unfoldable pub authenticated_translate_handler :
      Option ℕ → Bool → Option TranslateRequest → Handler TranslateResponse
  authenticated_translate_handler user is_json body = for_user is_json body user

  abbrev served : Response TranslationOutput → Response TranslateResponse
  served (api_error status code) = api_error status code
  served (success out) = success (record { output = out; context_quota = none })

  -- serveTranslateContext, for onboarding.
  unfoldable pub serve_translate_context : TranslateRequest → Response TranslateResponse
  serve_translate_context req = served (translate_context_run req)

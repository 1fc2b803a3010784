-- ===== src/Adapter/Callback.antt =====
-- `updateContextCallback` of ngsi_adapter/lib/adapter.js: the report of a response of ContextBroker.
pub mod Levels
use fiware_monitoring.Adapter.Effect.{
  Effect, Level, Reply, debug, error, failed, info, log, replied, uncaught,
}
use fiware_monitoring.Adapter.Update.{compact}
use fiware_monitoring.Base.{
  Bool, List, Option, Result, [], err, false, if◌then◌else◌, none, not, ok, some, true, ℕ, ◌&&◌,
  ◌++◌, ◌==◌, ◌∷◌,
}
use fiware_monitoring.Config.{Config, broker_api_v2}
use fiware_monitoring.Domain.{Error}
use fiware_monitoring.Js.Integer.{show_nat}
use fiware_monitoring.Js.Json.{Json, arr, boolean, end, member, null, num, obj, str, member_of}
use fiware_monitoring.Js.Json.Parse.{json_parse}
use fiware_monitoring.Js.Text.{JsString, codes, equal, is_truthy}
use fiware_monitoring.Platform.{Platform}

-- A JavaScript value that may be undefined.
abbrev pub Maybe : Type 0
Maybe = Option Json

-- `v[name]` for a value that is not null; the names that are read here are inherited by no value.
pub property : JsString → Json → Maybe
unfolding member_of
property name (obj members) = member_of name members
property name _ = none

-- `success`
abbrev pub success : Config → ℕ
success config = if equal config.broker_api broker_api_v2 then 204 else 200

module _ (platform : Platform) where
  -- ToBoolean
  unfoldable pub is_truthy_value : Maybe → Bool
  unfolding equal
  is_truthy_value none = false
  is_truthy_value (some null) = false
  is_truthy_value (some (boolean b)) = b
  is_truthy_value (some (num n)) = not (equal (platform.print_number n) (codes "0"))
  is_truthy_value (some (str s)) = is_truthy s
  is_truthy_value (some (arr items)) = true
  is_truthy_value (some (obj members)) = true

  -- `responseStatus`, or `response.orionError.code`.
  pub data Status : Type 0 where
    http : ℕ → Status
    orion : Maybe → Status

  pub code_of : Maybe → Maybe
  code_of none = none
  code_of (some v) = property (codes "code") v

  pub status_of : ℕ → Json → Status
  unfolding property is_truthy_value code_of
  status_of status response =
      let error_ = property (codes "orionError") response in
      if is_truthy_value error_ then orion (code_of error_) else http status

  -- `status === success`
  pub is_status : ℕ → Status → Bool
  unfolding equal show_nat
  is_status success (http status) = status == success
  is_status success (orion (some (num n))) = equal (platform.print_number n) (show_nat success)
  is_status success (orion _) = false

  abbrev pub value_or_error : JsString → Option Json → Result Error Json
  value_or_error body none = err (platform.json_error body)
  value_or_error body (some v) = ok v

  -- `response`
  pub response_of : JsString → JsString → Result Error Json
  unfolding equal
  response_of body content_type =
      if is_truthy body && equal content_type (codes "application/json")
      then value_or_error body (json_parse body)
      else ok (obj end)

  module _ (config : Config) where
    abbrev pub trace : Status → JsString
    trace (http status) =
        codes "Response status " ++ (show_nat status ++ (codes " " ++ platform.status_text status))
    trace (orion v) = platform.trace_status v

    abbrev pub level_of : Status → Level
    level_of status = if is_status (success config) status then debug else error

    unfoldable pub report_response : ℕ → JsString → Result Error Json → List Effect
    unfolding status_of is_status
    report_response status body (err e) = uncaught e ∷ []
    report_response status body (ok null) =
        uncaught (codes "Cannot read property 'orionError' of null") ∷ []
    report_response status body (ok response) =
        log info (trace (status_of status response))
        ∷ log (level_of (status_of status response)) (compact body)
        ∷ []

    unfoldable pub update_context_callback : Reply → List Effect
    unfolding report_response response_of
    update_context_callback (failed e) = log error e ∷ []
    update_context_callback (replied status body content_type) =
        report_response status body (response_of body content_type)

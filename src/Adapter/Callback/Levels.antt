-- ===== src/Adapter/Callback/Levels.antt =====
-- At which level a response is reported.
use fiware_monitoring.Js.Json.Parse.{json_parse}
use fiware_monitoring.Adapter.Callback.{
  Maybe, is_status, is_truthy_value, orion, property, report_response, response_of, status_of,
  success, update_context_callback, code_of, level_of,
}
use fiware_monitoring.Adapter.Effect.{Effect, Level, debug, error, info, log, replied, uncaught}
use fiware_monitoring.Base.{
  Bool-cases, List, [], false, if◌then◌else◌, inl, inr, none, refl, some, ℕ, ◌==◌, ◌∷◌, ◌≡◌, ap,
  true, Bool, sym,
}
use fiware_monitoring.Config.{Config}
use fiware_monitoring.Js.Json.{
  Members, arr, boolean, end, member, member_of, null, num, obj, or_earlier, str, Json,
}
use fiware_monitoring.Js.Json.Parse.Fuel.{HavePlain, IsPlain}
use fiware_monitoring.Js.Text.{JsString, codes, equal, is_truthy}
use fiware_monitoring.Platform.{Platform}

-- The levels of the traces among effects.
unfoldable pub levels : List Effect → List Level
levels [] = []
levels (log level s ∷ es) = level ∷ levels es
levels (_ ∷ es) = levels es

-- No numbers, if there is a value.
abbrev pub IsPlainMaybe : Maybe → Type 0
IsPlainMaybe none = Unit
IsPlainMaybe (some v) = IsPlain v

or_earlier-IsPlainMaybe :
    (v w : Maybe) → IsPlainMaybe v → IsPlainMaybe w → IsPlainMaybe (or_earlier v w)
or_earlier-IsPlainMaybe none w h k = k
or_earlier-IsPlainMaybe (some v) w h k = h

member_of-IsPlainMaybe :
    (name : JsString) (members : Members)
    → HavePlain members
    → IsPlainMaybe (member_of name members)
unfolding member_of IsPlain
member_of-IsPlainMaybe name end h = tt
member_of-IsPlainMaybe name (member key v members) h =
    or_earlier-IsPlainMaybe (member_of name members) (if equal key name then some v else none)
      (member_of-IsPlainMaybe name members h.1)
      (elim (Bool-cases (equal key name)) [ inl e ↦ rw e h.0 | inr e ↦ rw e tt ])

module _ (platform : Platform) (config : Config) where
  is_status-orion :
      (n : ℕ) (error_ : Maybe)
      → IsPlainMaybe error_
      → is_status platform n (orion (code_of platform error_)) ≡ false
  unfolding is_status code_of property IsPlain
  is_status-orion n none h = refl
  is_status-orion n (some null) h = refl
  is_status-orion n (some (boolean b)) h = refl
  is_status-orion n (some (num m)) h = refl
  is_status-orion n (some (str s)) h = refl
  is_status-orion n (some (arr items)) h = refl
  is_status-orion n (some (obj members)) h =
      plain (member_of (codes "code") members) (member_of-IsPlainMaybe (codes "code") members h)
    where
      plain : (v : Maybe) → IsPlainMaybe v → is_status platform n (orion v) ≡ false
      plain none k = refl
      plain (some null) k = refl
      plain (some (boolean b)) k = refl
      plain (some (num m)) k = absurd k
      plain (some (str s)) k = refl
      plain (some (arr items)) k = refl
      plain (some (obj parts)) k = refl

  -- 204 in version 2 of the API, and 200 in the others.
  abbrev pub is_expected : ℕ → Bool
  is_expected status = if equal config.broker_api (codes "v2") then status == 204 else status == 200

  is_expected-success : (status : ℕ) → (status == success config) ≡ is_expected status
  is_expected-success status = elim (Bool-cases (equal config.broker_api (codes "v2"))) [
    | inl e ↦ rw e refl
    | inr e ↦ rw e refl
  ]

  abbrev level_for : ℕ → Maybe → Level
  level_for status error_ =
      if is_truthy_value platform error_ then error else if is_expected status then debug else error

  level_of-status_of :
      (status : ℕ) (members : Members)
      → HavePlain members
      → level_of platform config (status_of platform status (obj members))
        ≡ level_for status (member_of (codes "orionError") members)
  unfolding status_of property
  level_of-status_of status members h =
      let error_ = member_of (codes "orionError") members in
      elim (Bool-cases (is_truthy_value platform error_)) [
        | inl e ↦
            rw
              (
                e,
                is_status-orion (success config) error_
                    (member_of-IsPlainMaybe (codes "orionError") members h),
              )
              refl
        | inr e ↦ rw (e, sym (is_expected-success status)) (unfold is_status in refl)
      ]

  json-is_truthy : (body : JsString) (v : Json) → json_parse body ≡ some v → is_truthy body ≡ true
  unfolding json_parse
  json-is_truthy [] v h = absurd (cc h)
  json-is_truthy (c ∷ body) v h = refl

  -- A body of a response that is the JSON text of an object without numbers is reported, after one
  -- trace of its status, as an error if the object has a truthy member orionError, and else as an
  -- error exactly when the status is not 204 in version 2 of the API or not 200 in another.
  pub update_context_callback-levels :
      (status : ℕ) (body : JsString) (members : Members)
      → json_parse body ≡ some (obj members)
      → HavePlain members
      → levels
          (update_context_callback platform config (replied status body (codes "application/json")))
        ≡ info
          ∷ (if is_truthy_value platform (member_of (codes "orionError") members)
              then error
              else if if equal config.broker_api (codes "v2") then status == 204 else status == 200
              then debug
              else error)
          ∷ []
  unfolding update_context_callback levels response_of report_response equal
  update_context_callback-levels status body members parses h =
      rw (json-is_truthy body (obj members) parses, parses)
        (ap (λ l. info ∷ l ∷ []) (level_of-status_of status members h))

  -- A body that is not JSON makes the callback throw.
  pub update_context_callback-bad_json :
      (status : ℕ) (body content_type : JsString)
      → is_truthy body ≡ true
      → json_parse body ≡ none
      → content_type ≡ codes "application/json"
      → update_context_callback platform config (replied status body content_type)
        ≡ uncaught (platform.json_error body) ∷ []
  unfolding update_context_callback response_of report_response equal
  update_context_callback-bad_json status body content_type given_ bad json =
      rw (json, given_, bad) refl

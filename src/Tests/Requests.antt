-- ===== src/Tests/Requests.antt =====
-- The theorems about the requests to ContextBroker and the reports of its responses, at concrete
-- inputs.
use fiware_monitoring.Adapter.Callback.{is_truthy_value, update_context_callback}
use fiware_monitoring.Adapter.Callback.Levels.{levels, update_context_callback-levels}
use fiware_monitoring.Adapter.Effect.{error, info, replied}
use fiware_monitoring.Adapter.Update.Attempts.{parsing}
use fiware_monitoring.Base.{[], refl, some, ◌↔◌, ◌∷◌, ◌≡◌, ◌≤◌}
use fiware_monitoring.Config.{defaults}
use fiware_monitoring.Js.Json.{Members, end, member, member_of, obj, str}
use fiware_monitoring.Js.Json.Parse.{json_parse}
use fiware_monitoring.Js.Json.Parse.Fuel.{HavePlain}
use fiware_monitoring.Js.Text.{JsString, codes, equal}
use fiware_monitoring.Js.Text.Utf8.{IsAscii, utf8_length}
use fiware_monitoring.Parsers.BaseParser.{timestamped}
use fiware_monitoring.Parsers.BaseParser.Attributes.{
  attributes, get_update_request-attributes, texts,
}
use fiware_monitoring.Parsers.BaseParser.ContentLength.{get_update_request-content_length}
use fiware_monitoring.Parsers.BaseParser.Requests.{IsUpdate}
use fiware_monitoring.Parsers.Bundled.{check_load}
use fiware_monitoring.Tests.Sample.{load_request_built, load_update, node, waiting}

get_update_request-attributes_example :
    (i : IsUpdate node defaults check_load (parsing waiting) load_update) × (attributes defaults
        load_update.body
      ≡ some (texts node (timestamped i.reqdomain i.attrs)))
get_update_request-attributes_example =
    get_update_request-attributes node defaults check_load (parsing waiting) load_update
      load_request_built

get_update_request-content_length_example :
    (load_update.options.headers.content_length ≤ utf8_length load_update.body)
    × ((load_update.options.headers.content_length ≡ utf8_length load_update.body)
        ↔ IsAscii load_update.body)
get_update_request-content_length_example =
    get_update_request-content_length node defaults check_load (parsing waiting) load_update
      load_request_built

-- A response to a wrong request, as ContextBroker v1 writes it.
abbrev bad_request_members : Members
bad_request_members =
    member (codes "orionError")
      (obj (
        member (codes "code") (str (codes "400"))
          (member (codes "reasonPhrase") (str (codes "Bad Request")) end)))
      end

abbrev bad_request : JsString
bad_request = codes "{\n \"orionError\" : {\"code\":\"400\", \"reasonPhrase\":\"Bad Request\"}\n}"

bad_request_parses : json_parse bad_request ≡ some (obj bad_request_members)
unfolding json_parse
bad_request_parses = refl

update_context_callback-levels_example :
    levels
      (update_context_callback node defaults (replied 200 bad_request (codes "application/json")))
    ≡ info ∷ error ∷ []
unfolding HavePlain member_of equal is_truthy_value
update_context_callback-levels_example =
    update_context_callback-levels node defaults 200 bad_request bad_request_members
      bad_request_parses ((tt, (tt, tt)), tt)

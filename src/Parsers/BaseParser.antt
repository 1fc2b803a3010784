-- ===== src/Parsers/BaseParser.antt =====
-- ngsi_adapter/lib/parsers/common/base.js: the base parser, which builds the requests to ContextBroker.
pub mod Requests
pub mod Payload
pub mod ContentLength
pub mod Attributes
use fiware_monitoring.Parsers.CheckUsers.{get_context_attrs}
use fiware_monitoring.Parsers.Nagios.Lines.{accept}
use fiware_monitoring.Config.{Config, broker_api_v2, timestamp_attr_name}
use fiware_monitoring.Base.{
  Bool, List, Option, Result, [], err, false, true, ℕ, ◌∷◌, if◌then◌else◌, length, not, ok, ◌++◌,
  ◌>>=◌, ◌||◌,
}
use fiware_monitoring.Domain.{Domain, Error, Param, absent, many, one}
use fiware_monitoring.Js.Integer.{show_nat}
use fiware_monitoring.Js.Json.{
  Items, Json, Members, arr, end, member, null, obj, str, stringify, cons, nil,
}
use fiware_monitoring.Js.Object.{Attrs, Value, integer, nullish, number, string, insert}
use fiware_monitoring.Js.Text.{JsString, codes, is_truthy, join, equal}
use fiware_monitoring.Parsers.Nagios.{EntityData, parse_request}
use fiware_monitoring.Platform.{Platform}

-- The two methods that a parser overrides; the first may also set the entity of the domain.
pub record Parser : Type 0 where
  pub parse_request : Domain → Result Error (EntityData × Domain)
  pub get_context_attrs : EntityData → Result Error Attrs

-- `baseParser`, whose two methods are abstract.
abbrev pub base_parser : Parser
base_parser = record {
  parse_request = λ reqdomain. err (codes "Must implement");
  get_context_attrs = λ data_. err (codes "Must implement");
}

pub record Headers : Type 0 where
  pub content_length : ℕ
  pub content_type : JsString
  pub accept : JsString
  pub correlator : JsString

-- `reqdomain.options`
pub record RequestOptions : Type 0 where
  pub hostname : Option JsString
  pub port : Option JsString
  pub path : JsString
  pub method : JsString
  pub headers : Headers

-- What `getUpdateRequest` returns and leaves in the domain.
pub record UpdateRequest : Type 0 where
  pub body : JsString
  pub options : RequestOptions
  pub reqdomain : Domain

abbrev pub get_content_type : JsString
get_content_type = codes "application/json"

abbrev pub is_given : Param → Bool
is_given absent = false
is_given (one s) = is_truthy s
is_given (many l) = true

-- A query argument under `%s`, where an array is joined by commas.
pub format_param : Param → JsString
unfolding join
format_param absent = codes "undefined"
format_param (one s) = s
format_param (many l) = join (codes ",") l

pub items_of : List JsString → Items
items_of [] = nil
items_of (s ∷ l) = cons (str s) (items_of l)

-- A query argument as a member of the payload.
pub param_json : Param → Json
unfolding items_of
param_json absent = null
param_json (one s) = str s
param_json (many l) = arr (items_of l)

-- `brokerPath`
unfoldable pub broker_path : Config → Param → Param → JsString
unfolding format_param equal
broker_path config id type =
    if equal config.broker_api broker_api_v2
    then codes "/"
      ++ (config.broker_api
          ++ (codes "/entities/"
              ++ (format_param id
                  ++ (codes "/attrs?type=" ++ (format_param type ++ codes "&options=append")))))
    else codes "/" ++ (config.broker_api ++ codes "/updateContext")

-- `entityAttrs` with the timestamp of the request.
unfoldable pub timestamped : Domain → Attrs → Attrs
unfolding insert
timestamped reqdomain attrs = insert timestamp_attr_name (integer reqdomain.timestamp) attrs

-- The two checks on what the methods of the parser returned.
unfoldable pub check_update : Domain → Attrs → Result Error (Unit {0})
check_update reqdomain [] = err (codes "Missing entity context attributes")
check_update reqdomain (a ∷ attrs) =
    if not (is_given reqdomain.entity_id) || not (is_given reqdomain.entity_type)
    then err (codes "Missing entityId and/or entityType")
    else ok tt

-- The exception of `attrs[name].toString()`, in the order of the loops that build the payload.
unfoldable pub check_values : Attrs → Result Error (Unit {0})
check_values [] = ok tt
check_values ((name, nullish s) ∷ attrs) = err (codes "Cannot read property 'toString' of " ++ s)
check_values ((name, v) ∷ attrs) = check_values attrs

module _ (platform : Platform) where
  -- `value.toString()`; undefined and null, which have no such method, do not get here, since
  -- `check_values` stands for the exception.
  pub value_text : Value → JsString
  unfolding show_nat
  value_text (number n) = platform.print_number n
  value_text (integer n) = show_nat n
  value_text (string s) = s
  value_text (nullish s) = s

  -- The loop of `getUpdateRequestJSON`.
  pub attribute_items : Attrs → Items
  unfolding value_text
  attribute_items [] = nil
  attribute_items ((name, v) ∷ attrs) =
      cons
        (obj (
          member (codes "name") (str name) (
            member (codes "type") (str (codes "string"))
              (member (codes "value") (str (value_text v)) end))))
        (attribute_items attrs)

  -- The payload of `getUpdateRequestJSON`.
  pub payload : Param → Param → Attrs → Json
  unfolding attribute_items param_json
  payload id type attrs = obj (
      member (codes "contextElements")
        (arr (
          cons
            (obj (
              member (codes "type") (param_json type) (
                member (codes "isPattern") (str (codes "false")) (
                  member (codes "id") (param_json id)
                    (member (codes "attributes") (arr (attribute_items attrs)) end)))))
            nil))
        (member (codes "updateAction") (str (codes "APPEND")) end))

  -- The loop of `getUpdateRequestJSONv2`.
  pub attribute_members : Attrs → Members
  unfolding value_text
  attribute_members [] = end
  attribute_members ((name, v) ∷ attrs) =
      member name (obj (member (codes "value") (str (value_text v)) end)) (attribute_members attrs)

  -- The payload of `getUpdateRequestJSONv2`.
  pub payload_v2 : Param → Param → Attrs → Json
  unfolding attribute_members
  payload_v2 id type attrs = obj (attribute_members attrs)

  unfoldable pub get_update_request_json : Param → Param → Attrs → JsString
  unfolding payload stringify
  get_update_request_json id type attrs = stringify platform.print_number (payload id type attrs)

  unfoldable pub get_update_request_json_v2 : Param → Param → Attrs → JsString
  unfolding payload_v2 stringify
  get_update_request_json_v2 id type attrs =
      stringify platform.print_number (payload_v2 id type attrs)

  -- `json(entityId, entityType, entityAttrs)`
  pub request_body : Config → Param → Param → Attrs → JsString
  unfolding get_update_request_json get_update_request_json_v2 equal
  request_body config id type attrs =
      if equal config.broker_api broker_api_v2
      then get_update_request_json_v2 id type attrs
      else get_update_request_json id type attrs

  -- `requestOptions`
  pub request_options : Config → Domain → JsString → RequestOptions
  unfolding broker_path
  request_options config reqdomain body = record {
    hostname = (platform.parse_url config.broker_url).hostname;
    port = (platform.parse_url config.broker_url).port;
    path = broker_path config reqdomain.entity_id reqdomain.entity_type;
    method = codes "POST";
    headers = record {
      content_length = length body;
      content_type = get_content_type;
      accept = get_content_type;
      correlator = reqdomain.context.corr;
    };
  }

  -- The rest of `getUpdateRequest`, for attributes that all have a text.
  pub build_update : Config → Domain → Attrs → UpdateRequest
  unfolding request_body request_options timestamped
  build_update config reqdomain attrs =
      let body =
        request_body config reqdomain.entity_id reqdomain.entity_type
          (timestamped reqdomain attrs) in
      record { body = body; options = request_options config reqdomain body; reqdomain = reqdomain }

  -- `baseParser.getUpdateRequest`
  unfoldable pub get_update_request : Config → Parser → Domain → Result Error UpdateRequest
  unfolding build_update
  get_update_request config p reqdomain = do
    parsed ← p.parse_request reqdomain
    attrs ← p.get_context_attrs parsed.0
    checked ← check_update parsed.1 attrs
    texts ← check_values (timestamped parsed.1 attrs)
    ok (build_update config parsed.1 attrs)

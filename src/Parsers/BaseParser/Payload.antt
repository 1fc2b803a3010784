-- ===== src/Parsers/BaseParser/Payload.antt =====
-- The body that `getUpdateRequest` sends, as a JSON text.
use fiware_monitoring.Parsers.BaseParser.Requests.{IsUpdate, get_update_request-IsUpdate}
use fiware_monitoring.Base.{
  Bool-cases, List, [], if◌then◌else◌, inl, inr, some, ◌∷◌, ◌≡◌, length, ok, ap, sym, ◌∙◌,
}
use fiware_monitoring.Config.{Config, broker_api_v2}
use fiware_monitoring.Domain.{Param, absent, many, one, Domain}
use fiware_monitoring.Js.Json.{Json}
use fiware_monitoring.Js.Json.Parse.{json_parse}
use fiware_monitoring.Js.Json.Parse.Fuel.{ArePlain, HavePlain, IsPlain}
use fiware_monitoring.Js.Json.Parse.Values.{json_parse-stringify}
use fiware_monitoring.Js.Object.{Attrs}
use fiware_monitoring.Js.Text.{JsString, equal, codes}
use fiware_monitoring.Parsers.BaseParser.{
  attribute_items, attribute_members, get_update_request_json, get_update_request_json_v2, items_of,
  param_json, payload, payload_v2, request_body, Parser, UpdateRequest, build_update,
  get_update_request, request_options, timestamped,
}
use fiware_monitoring.Platform.{Platform}

items_of-ArePlain : (l : List JsString) → ArePlain (items_of l)
unfolding items_of ArePlain IsPlain
items_of-ArePlain [] = tt
items_of-ArePlain (s ∷ l) = (tt, items_of-ArePlain l)

param_json-IsPlain : (p : Param) → IsPlain (param_json p)
unfolding param_json IsPlain
param_json-IsPlain absent = tt
param_json-IsPlain (one s) = tt
param_json-IsPlain (many l) = items_of-ArePlain l

module _ (platform : Platform) where
  attribute_items-ArePlain : (attrs : Attrs) → ArePlain (attribute_items platform attrs)
  unfolding attribute_items IsPlain
  attribute_items-ArePlain [] = tt
  attribute_items-ArePlain ((name, v) ∷ attrs) =
      ((tt, (tt, (tt, tt))), attribute_items-ArePlain attrs)

  attribute_members-HavePlain : (attrs : Attrs) → HavePlain (attribute_members platform attrs)
  unfolding attribute_members IsPlain
  attribute_members-HavePlain [] = tt
  attribute_members-HavePlain ((name, v) ∷ attrs) = ((tt, tt), attribute_members-HavePlain attrs)

  payload-IsPlain : (id type : Param) (attrs : Attrs) → IsPlain (payload platform id type attrs)
  unfolding payload IsPlain
  payload-IsPlain id type attrs = (
    (
      (
        param_json-IsPlain type,
        (tt, (param_json-IsPlain id, (attribute_items-ArePlain attrs, tt))),
      ),
      tt,
    ),
    (tt, tt),
  )

  payload_v2-IsPlain :
      (id type : Param) (attrs : Attrs) → IsPlain (payload_v2 platform id type attrs)
  unfolding payload_v2 IsPlain
  payload_v2-IsPlain id type attrs = attribute_members-HavePlain attrs

  -- The payload for the version of the API in use.
  abbrev pub payload_for : Config → Param → Param → Attrs → Json
  payload_for config id type attrs =
      if equal config.broker_api broker_api_v2
      then payload_v2 platform id type attrs
      else payload platform id type attrs

  pub json_parse-request_body :
      (config : Config) (id type : Param) (attrs : Attrs)
      → json_parse (request_body platform config id type attrs)
        ≡ some (payload_for config id type attrs)
  unfolding request_body get_update_request_json get_update_request_json_v2
  json_parse-request_body config id type attrs =
      elim (Bool-cases (equal config.broker_api broker_api_v2)) [
        | inl e ↦ rw e (
            json_parse-stringify platform.print_number (payload_v2 platform id type attrs)
              (payload_v2-IsPlain id type attrs))
        | inr e ↦ rw e (
            json_parse-stringify platform.print_number (payload platform id type attrs)
              (payload-IsPlain id type attrs))
      ]

  -- A request that getUpdateRequest builds has as its body the JSON text of the payload for the
  -- entity and its attributes with the timestamp, as its length the number of code units of that
  -- body, and as its correlator that of the request.
  pub get_update_request-json_parse :
      (config : Config) (p : Parser) (d : Domain) (u : UpdateRequest)
      → get_update_request platform config p d ≡ ok u
      → (i : IsUpdate platform config p d u) × (json_parse u.body
          ≡ some (
              payload_for config i.reqdomain.entity_id i.reqdomain.entity_type
                (timestamped i.reqdomain i.attrs)))
        × (u.options.headers.content_length ≡ length u.body)
        × (u.options.headers.correlator ≡ i.reqdomain.context.corr)
  unfolding build_update request_options
  get_update_request-json_parse config p d u h =
      let i = (get_update_request-IsUpdate platform config p d u).0 h in
      (
        i,
        ap (λ (x : UpdateRequest). json_parse x.body) i.built
            ∙ json_parse-request_body config i.reqdomain.entity_id i.reqdomain.entity_type
                (timestamped i.reqdomain i.attrs),
        ap (λ (x : UpdateRequest). x.options.headers.content_length) i.built
            ∙ sym (ap (λ (x : UpdateRequest). length x.body) i.built),
        ap (λ (x : UpdateRequest). x.options.headers.correlator) i.built,
      )

  pub get_update_request-accept :
      (config : Config) (p : Parser) (d : Domain) (u : UpdateRequest)
      → get_update_request platform config p d ≡ ok u
      → u.options.headers.accept ≡ codes "application/json"
  unfolding build_update request_options
  get_update_request-accept config p d u h =
      ap (λ (x : UpdateRequest). x.options.headers.accept)
        ((get_update_request-IsUpdate platform config p d u).0 h).built

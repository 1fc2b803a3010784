-- ===== src/Parsers/BaseParser/Attributes.antt =====
-- What ContextBroker reads of the body of an update: the attributes, in both versions of its API.
use fiware_monitoring.Base.{
  Bool-cases, List, Option, [], ap, if◌then◌else◌, inl, inr, none, ok, refl, some, ◌∙◌, ◌∷◌, ◌≡◌,
}
use fiware_monitoring.Config.{Config, broker_api_v2}
use fiware_monitoring.Domain.{Domain, Param}
use fiware_monitoring.Js.Json.{
  Items, Json, Members, arr, cons, end, member, nil, obj, str, member_of,
}
use fiware_monitoring.Js.Json.Parse.{json_parse}
use fiware_monitoring.Js.Object.{Attrs}
use fiware_monitoring.Js.Text.{JsString, codes, equal, first}
use fiware_monitoring.Parsers.BaseParser.{
  Parser, UpdateRequest, attribute_items, attribute_members, build_update, get_update_request,
  payload, payload_v2, request_body, timestamped, value_text,
}
use fiware_monitoring.Parsers.BaseParser.Payload.{json_parse-request_body}
use fiware_monitoring.Parsers.BaseParser.Requests.{IsUpdate, get_update_request-IsUpdate}
use fiware_monitoring.Platform.{Platform}

abbrev pub text_of : Option Json → Option JsString
text_of (some (str s)) = some s
text_of _ = none

abbrev pub members_of : Option Json → Option Members
members_of (some (obj members)) = some members
members_of _ = none

abbrev pub list_of : Option Json → Option Items
list_of (some (arr items)) = some items
list_of _ = none

abbrev pub first_of : Items → Option Json
first_of nil = none
first_of (cons v items) = some v

infixl 5 ◌>>=◌
abbrev ◌>>=◌ {ℓ κ} : {A : Type ℓ} {B : Type κ} → Option A → (A → Option B) → Option B
none >>= next = none
some value >>= next = next value

abbrev pub Pairs : Type 0
Pairs = List (JsString × JsString)

-- A list of objects with the members `name` and `value`.
pub named_values : Items → Option Pairs
unfolding member_of
named_values nil = some []
named_values (cons v items) = do
  members ← members_of (some v)
  name ← text_of (member_of (codes "name") members)
  value ← text_of (member_of (codes "value") members)
  rest ← named_values items
  some ((name, value) ∷ rest)

-- The members of an object, each an object with the member `value`.
pub member_values : Members → Option Pairs
unfolding member_of
member_values end = some []
member_values (member name v members) = do
  parts ← members_of (some v)
  value ← text_of (member_of (codes "value") parts)
  rest ← member_values members
  some ((name, value) ∷ rest)

-- `contextElements[0].attributes`
pub attributes_v1 : Json → Option Pairs
unfolding member_of named_values
attributes_v1 v = do
  top ← members_of (some v)
  elements ← list_of (member_of (codes "contextElements") top)
  first ← first_of elements
  element ← members_of (some first)
  attributes ← list_of (member_of (codes "attributes") element)
  named_values attributes

pub attributes_v2 : Json → Option Pairs
unfolding member_values
attributes_v2 v = do members ← members_of (some v); member_values members

-- The attributes that a body gives to ContextBroker.
pub attributes : Config → JsString → Option Pairs
attributes config body = do
  v ← json_parse body
  if equal config.broker_api broker_api_v2 then attributes_v2 v else attributes_v1 v

module _ (platform : Platform) where
  -- Names with the texts of their values.
  abbrev pub texts : Attrs → Pairs
  texts [] = []
  texts ((name, v) ∷ attrs) = (name, value_text platform v) ∷ texts attrs

  named_values-attribute_items :
      (attrs : Attrs) → named_values (attribute_items platform attrs) ≡ some (texts attrs)
  unfolding named_values attribute_items equal
  named_values-attribute_items [] = refl
  named_values-attribute_items ((name, v) ∷ attrs) = rw (named_values-attribute_items attrs) refl

  member_values-attribute_members :
      (attrs : Attrs) → member_values (attribute_members platform attrs) ≡ some (texts attrs)
  unfolding member_values attribute_members equal
  member_values-attribute_members [] = refl
  member_values-attribute_members ((name, v) ∷ attrs) =
      rw (member_values-attribute_members attrs) refl

  attributes_v1-payload :
      (id type : Param) (attrs : Attrs)
      → attributes_v1 (payload platform id type attrs) ≡ some (texts attrs)
  unfolding attributes_v1 payload equal
  attributes_v1-payload id type attrs = named_values-attribute_items attrs

  attributes_v2-payload :
      (id type : Param) (attrs : Attrs)
      → attributes_v2 (payload_v2 platform id type attrs) ≡ some (texts attrs)
  unfolding attributes_v2 payload_v2
  attributes_v2-payload id type attrs = member_values-attribute_members attrs

  attributes-request_body :
      (config : Config) (id type : Param) (attrs : Attrs)
      → attributes config (request_body platform config id type attrs) ≡ some (texts attrs)
  unfolding attributes
  attributes-request_body config id type attrs =
      elim (Bool-cases (equal config.broker_api broker_api_v2)) [
        | inl e ↦
            rw (json_parse-request_body platform config id type attrs, e)
              (attributes_v2-payload id type attrs)
        | inr e ↦
            rw (json_parse-request_body platform config id type attrs, e)
              (attributes_v1-payload id type attrs)
      ]

  pub attributes-build_update :
      (config : Config) (d : Domain) (attrs : Attrs)
      → attributes config (build_update platform config d attrs).body
        ≡ some (texts (timestamped d attrs))
  unfolding build_update
  attributes-build_update config d attrs =
      attributes-request_body config d.entity_id d.entity_type (timestamped d attrs)

  -- From the body of a request that getUpdateRequest builds, ContextBroker reads in either version
  -- of its API exactly the attributes that the parser read, with the timestamp, each with the text
  -- of its value and in their order.
  pub get_update_request-attributes :
      (config : Config) (p : Parser) (d : Domain) (u : UpdateRequest)
      → get_update_request platform config p d ≡ ok u
      → (i : IsUpdate platform config p d u) × (attributes config u.body
          ≡ some (texts (timestamped i.reqdomain i.attrs)))
  get_update_request-attributes config p d u h =
      let i = (get_update_request-IsUpdate platform config p d u).0 h in
      (
        i,
        ap (λ (x : UpdateRequest). attributes config x.body) i.built
            ∙ attributes-build_update config i.reqdomain i.attrs,
      )

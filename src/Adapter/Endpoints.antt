-- ===== src/Adapter/Endpoints.antt =====
-- The UDP endpoints that `main` of ngsi_adapter/lib/adapter.js binds.
pub mod Reads
use fiware_monitoring.Base.{
  Bool, List, Option, [], get_elem?, if◌then◌else◌, map, none, some, ℕ, ◌∷◌,
}
use fiware_monitoring.Config.{Config}
use fiware_monitoring.Js.Integer.{value_from}
use fiware_monitoring.Js.Number.{read_sign, span_digits}
use fiware_monitoring.Js.Text.{JsString, is_truthy, split, trim_start}

-- What is done for one item of the option: a socket for a parser, where `none` is the port NaN, or
-- a warning.
pub data Endpoint : Type 0 where
  bind : JsString → Option (Bool × ℕ) → JsString → Endpoint
  ignored : JsString → Endpoint

-- `parseInt(s, 10)`: a sign and a natural number, or NaN.
abbrev pub int_of : Bool → JsString → Option (Bool × ℕ)
int_of minus [] = none
int_of minus (d ∷ ds) = some (minus, value_from 0 (d ∷ ds))

pub parse_int : JsString → Option (Bool × ℕ)
unfolding trim_start read_sign span_digits
parse_int s = int_of (read_sign (trim_start s)).0 (span_digits (read_sign (trim_start s)).1).0

-- `element || fallback`, for an element that may be undefined.
abbrev pub or_fallback : Option JsString → JsString → JsString
or_fallback none fallback = fallback
or_fallback (some s) fallback = if is_truthy s then s else fallback

module _ (config : Config) where
  abbrev pub with_parser_name : JsString → List JsString → Option JsString → Endpoint
  with_parser_name item elements none = ignored item
  with_parser_name item elements (some name) =
      if is_truthy name
      then bind (or_fallback (get_elem? elements 0) config.listen_host)
          (parse_int (or_fallback (get_elem? elements 1) config.listen_port)) name
      else ignored item

  -- One item, with its elements.
  unfoldable pub endpoint_of : JsString → Endpoint
  unfolding parse_int
  endpoint_of item =
      let elements = split b':' item in with_parser_name item elements (get_elem? elements 2)

  abbrev pub items_in : Option JsString → List JsString
  items_in none = []
  items_in (some s) = if is_truthy s then split b',' s else []

  -- `config.udpEndpoints && config.udpEndpoints.split(',').map(…)`
  unfoldable pub endpoints : List Endpoint
  unfolding endpoint_of
  endpoints = map endpoint_of (items_in config.udp_endpoints)

-- ===== src/Adapter/Endpoints/Reads.antt =====
-- Which endpoints an option names.
use fiware_monitoring.Adapter.Endpoints.{Endpoint, bind, endpoint_of, endpoints, parse_int}
use fiware_monitoring.Base.{
  All, List, [], arith, false, map, refl, some, true, ◌++◌, ◌∷◌, ◌≡◌, ◌≢◌, ap, append-ne, sym, ◌∙◌,
}
use fiware_monitoring.Config.{Config}
use fiware_monitoring.Js.Integer.{value_from}
use fiware_monitoring.Js.Number.{is_digit, span_digits}
use fiware_monitoring.Js.Number.Decimal.{IsDigits, digit_starts_numeral}
use fiware_monitoring.Js.Text.{JsString, is_truthy, join, split}
use fiware_monitoring.Js.Text.Split.{Free, Free-append, split-Free, split-append, split-join}
use fiware_monitoring.Js.Text.Trim.{trim_start-StartsSolid}
use fiware_monitoring.Parsers.Probe.Fields.{IsDigits-Free}

-- The parts of an item: a host, a port in digits and the name of a parser.
pub record Parts : Type 0 where
  pub host : JsString
  pub port : JsString
  pub name : JsString

abbrev pub render : Parts → JsString
render parts = parts.host ++ (b':' ∷ (parts.port ++ (b':' ∷ parts.name)))

-- None is empty, and the texts are free of the characters that separate them.
pub record IsEndpoint (parts : Parts) : Type 0 where
  pub host_ne : parts.host ≢ []
  pub host_free : Free b':' parts.host × Free b',' parts.host
  pub port_digits : IsDigits parts.port
  pub port_ne : parts.port ≢ []
  pub name_ne : parts.name ≢ []
  pub name_free : Free b':' parts.name × Free b',' parts.name

abbrev pub bound : Parts → Endpoint
bound parts = bind parts.host (some (false, value_from 0 parts.port)) parts.name

span_digits-IsDigits : (s : JsString) → IsDigits s → span_digits s ≡ (s, [])
unfolding span_digits
span_digits-IsDigits [] h = refl
span_digits-IsDigits (c ∷ s) (p, h) = rw (span_digits-IsDigits s h, p) refl

parse_int-IsDigits :
    (s : JsString) → IsDigits s → s ≢ [] → parse_int s ≡ some (false, value_from 0 s)
unfolding parse_int
parse_int-IsDigits [] h ne = absurd (ne refl)
parse_int-IsDigits (c ∷ s) h ne =
    rw
      (
        trim_start-StartsSolid (c ∷ s) (digit_starts_numeral c s h.0).0,
        (digit_starts_numeral c s h.0).1,
        span_digits-IsDigits (c ∷ s) h,
      )
      refl

is_truthy_ne : (s : JsString) → s ≢ [] → is_truthy s ≡ true
is_truthy_ne [] ne = absurd (ne refl)
is_truthy_ne (c ∷ s) ne = refl

module _ (config : Config) where
  endpoint_of-render :
      (parts : Parts) → IsEndpoint parts → endpoint_of config (render parts) ≡ bound parts
  unfolding endpoint_of
  endpoint_of-render parts i =
      rw
        (
          split-append b':' parts.host (parts.port ++ (b':' ∷ parts.name)) i.host_free.0,
          split-append b':' parts.port parts.name
              (IsDigits-Free b':' parts.port (unfold is_digit in refl) i.port_digits),
          split-Free b':' parts.name i.name_free.0,
          is_truthy_ne parts.name i.name_ne,
          is_truthy_ne parts.host i.host_ne,
          is_truthy_ne parts.port i.port_ne,
          parse_int-IsDigits parts.port i.port_digits i.port_ne,
        )
        refl

  render-Free : (parts : Parts) → IsEndpoint parts → Free b',' (render parts)
  render-Free parts i = Free-append b',' parts.host _ i.host_free.1 (
    omega arith,
    Free-append b',' parts.port _
        (IsDigits-Free b',' parts.port (unfold is_digit in refl) i.port_digits)
        (omega arith, i.name_free.1),
  )

  All-render-Free : (list : List Parts) → All IsEndpoint list → All (Free b',') (map render list)
  All-render-Free [] h = tt
  All-render-Free (parts ∷ list) (i, h) = (render-Free parts i, All-render-Free list h)

  map-endpoint_of :
      (list : List Parts)
      → All IsEndpoint list
      → map (endpoint_of config) (map render list) ≡ map bound list
  map-endpoint_of [] h = refl
  map-endpoint_of (parts ∷ list) (i, h) =
      rw (endpoint_of-render parts i, map-endpoint_of list h) refl

  join-ne :
      (parts : Parts) (list : List Parts)
      → All IsEndpoint (parts ∷ list)
      → join (b',' ∷ []) (map render (parts ∷ list)) ≢ []
  join-ne parts list h e = append-ne parts.host _ h.0.host_ne (
      head_eq (
        sym (split-join b',' (render parts) (map render list) (All-render-Free (parts ∷ list) h))
        ∙ ap (split b',') e
        ∙ unfold split in refl))
    where
      head_eq : {t : JsString} {l : List JsString} → t ∷ l ≡ [] ∷ [] → t ≡ []
      head_eq e' = cc e'

  -- An option that lists hosts, ports and parsers, separated by colons and the items by commas,
  -- none of them empty, the ports in digits, and the others without colons and commas, binds one
  -- socket for each of them, at that host and port and for that parser.
  pub endpoints-render :
      (parts : Parts) (list : List Parts)
      → config.udp_endpoints ≡ some (join (b',' ∷ []) (map render (parts ∷ list)))
      → All IsEndpoint (parts ∷ list)
      → endpoints config ≡ map bound (parts ∷ list)
  unfolding endpoints
  endpoints-render parts list option h =
      rw
        (
          option,
          is_truthy_ne (join (b',' ∷ []) (map render (parts ∷ list))) (join-ne parts list h),
          split-join b',' (render parts) (map render list) (All-render-Free (parts ∷ list) h),
        )
        (map-endpoint_of (parts ∷ list) h)

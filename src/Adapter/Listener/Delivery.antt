-- ===== src/Adapter/Listener/Delivery.antt =====
-- From the request of a probe to the attributes that ContextBroker gets.
use fiware_monitoring.Adapter.Effect.{Attempt, CountsRetries, RetryModule, requests}
use fiware_monitoring.Adapter.Listener.{Fresh, Request, entity_id, entity_type, serve}
use fiware_monitoring.Adapter.Listener.Exchange.{full_domain, serve_accepted}
use fiware_monitoring.Adapter.Listener.Status.{
  StatusOf, accepted, bad_request, found, not_allowed, not_found,
}
use fiware_monitoring.Adapter.Update.{update_request}
use fiware_monitoring.Adapter.Update.Attempts.{parsing, replicate, sent, update_context-report}
use fiware_monitoring.Base.{
  All, List, Result, [], arith, map, ok, refl, some, true, ℕ, ◌∙◌, ◌≡◌, ◌≢◌,
}
use fiware_monitoring.Config.{Config, timestamp_attr_name}
use fiware_monitoring.Domain.{Domain, Error, text}
use fiware_monitoring.Js.Object.{Attrs, insert, integer}
use fiware_monitoring.Js.Text.{JsString, join}
use fiware_monitoring.Parsers.BaseParser.{UpdateRequest, build_update, is_given, timestamped}
use fiware_monitoring.Parsers.BaseParser.Attributes.{attributes, texts, attributes-build_update}
use fiware_monitoring.Parsers.BaseParser.Requests.{
  HasText, IsUpdate, get_update_request-IsUpdate, timestamped-HasText,
}
use fiware_monitoring.Parsers.Bundled.{nagios_parser}
use fiware_monitoring.Parsers.Factory.{Cache, Module, parser}
use fiware_monitoring.Parsers.Nagios.{EntityData, parse_body, parse_request}
use fiware_monitoring.Platform.{Platform}

module _ (platform : Platform) (require : JsString → Module) (r : RetryModule)
    (counts : CountsRetries r) (config : Config) (cache : Cache) (fresh : Fresh) (req : Request)
    (chunks : List (List ℕ)) (outcomes : List Attempt) where
  abbrev whole : Domain
  whole = full_domain platform require r config cache fresh req chunks outcomes

  StatusOf-given :
      StatusOf platform require config fresh req cache 200
      → (is_given (entity_id platform req) ≡ true) × (is_given (entity_type platform req) ≡ true)
  StatusOf-given (not_allowed n e) = absurd (omega arith)
  StatusOf-given (bad_request m g e) = absurd (omega arith)
  StatusOf-given (not_found x m g h e) = absurd (omega arith)
  StatusOf-given (accepted object_ m g h e) = ground arith

  -- The update for the attributes that a Nagios parser reads.
  abbrev update_for : Attrs → UpdateRequest
  update_for attrs = build_update platform config (parsing whole) attrs

  update_for-IsUpdate :
      (attrs_of : EntityData → Result Error Attrs) (e : EntityData) (attrs : Attrs)
      → StatusOf platform require config fresh req cache 200
      → parse_body whole.body ≡ ok e
      → attrs_of e ≡ ok attrs
      → attrs ≢ []
      → All HasText attrs
      → IsUpdate platform config (nagios_parser attrs_of) (parsing whole) (update_for attrs)
  update_for-IsUpdate attrs_of e attrs status parsed read ne filled = record {
    entity_data = e;
    reqdomain = parsing whole;
    attrs = attrs;
    parsed = unfold parse_request in rw parsed refl;
    read = read;
    attrs_ne = ne;
    have_text = timestamped-HasText (parsing whole) attrs filled;
    has_id = (StatusOf-given status).0;
    has_type = (StatusOf-given status).1;
    built = refl;
  }

  -- If a request is answered by 200 with a Nagios parser, its whole body is a probe's output, and
  -- the parser reads attributes from that output, none of them undefined or null, then all that is sent to ContextBroker is one
  -- request, once and once more after each error event while retries are left, from whose body
  -- ContextBroker reads exactly those attributes with the time of the request.
  pub serve_delivers :
      (attrs_of : EntityData → Result Error Attrs) (e : EntityData) (attrs : Attrs)
      → StatusOf platform require config fresh req cache 200
      → found platform require config fresh req cache ≡ ok (parser (nagios_parser attrs_of))
      → parse_body (text (join [] (map platform.decode chunks))) ≡ ok e
      → attrs_of e ≡ ok attrs
      → attrs ≢ []
      → All HasText attrs
      → (u : UpdateRequest) × (requests
            (serve platform require r config cache fresh req chunks outcomes)
          ≡ replicate (sent config.retries outcomes) (u.options, u.body))
        × (attributes config u.body
            ≡ some (texts platform (insert timestamp_attr_name (integer fresh.now) attrs)))
  unfolding timestamped
  serve_delivers attrs_of e attrs status found_ parsed read ne filled =
      let object_ = parser (nagios_parser attrs_of) in
      let update = update_for attrs in
      let built =
        (get_update_request-IsUpdate platform config (nagios_parser attrs_of) (parsing whole)
            update).1
          (update_for-IsUpdate attrs_of e attrs status parsed read ne filled) in
      (
        update,
        (serve_accepted platform require r config cache fresh req chunks outcomes object_ status
              found_).0
            ∙ (update_context-report platform r counts config object_ whole outcomes update
                (unfold update_request in built)).0,
        attributes-build_update platform config (parsing whole) attrs,
      )

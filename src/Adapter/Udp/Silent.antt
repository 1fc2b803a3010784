-- ===== src/Adapter/Udp/Silent.antt =====
-- Which datagrams lead to a request to ContextBroker.
use fiware_monitoring.Adapter.Update.Attempts.{
  update_context_failed, parsing, update_context_no_request,
}
use fiware_monitoring.Js.Text.{JsString, codes}
use fiware_monitoring.Parsers.BaseParser.Requests.{get_update_request-IsUpdate}
use fiware_monitoring.Parsers.Bundled.{nagios_parser}
use fiware_monitoring.Adapter.Effect.{
  Effect, request, requests, uncaught, Attempt, RetryModule, failed, replies, callback,
}
use fiware_monitoring.Adapter.Listener.{Fresh}
use fiware_monitoring.Adapter.Udp.{log_uncaught, udp_request_listener, udp_domain, udp_update}
use fiware_monitoring.Adapter.Update.{update_request, update_context}
use fiware_monitoring.Base.{
  List, Result, [], ap, err, ok, refl, ◌∷◌, ◌≡◌, true, ℕ, ◌≢◌, ◌∙◌, >>=-eq-ok, sym,
}
use fiware_monitoring.Config.{Config}
use fiware_monitoring.Domain.{Domain, Error, absent}
use fiware_monitoring.Js.Object.{Attrs}
use fiware_monitoring.Parsers.BaseParser.{Parser, get_update_request, UpdateRequest, is_given}
use fiware_monitoring.Parsers.Factory.{ParserObject, parser, Cache, Module, get_parser_by_name}
use fiware_monitoring.Parsers.Nagios.{EntityData, parse_request}
use fiware_monitoring.Platform.{Platform}

pub requests-log_uncaught : (es : List Effect) → requests (log_uncaught es) ≡ requests es
unfolding requests log_uncaught
requests-log_uncaught [] = refl
requests-log_uncaught (request options body ∷ es) =
    ap (◌∷◌ (options, body)) (requests-log_uncaught es)
requests-log_uncaught (uncaught e ∷ es) = requests-log_uncaught es
requests-log_uncaught (e ∷ es) = requests-log_uncaught es

replies-log_uncaught : (es : List Effect) → replies (log_uncaught es) ≡ replies es
unfolding replies log_uncaught
replies-log_uncaught [] = refl
replies-log_uncaught (callback reply ∷ es) = ap (◌∷◌ reply) (replies-log_uncaught es)
replies-log_uncaught (uncaught e ∷ es) = replies-log_uncaught es
replies-log_uncaught (e ∷ es) = replies-log_uncaught es

-- The effects once the parser is known.
udp_update-effects :
    (platform : Platform) (r : RetryModule) (config : Config) (fresh : Fresh) (message : List ℕ)
    (outcomes : List Attempt) (found : Cache × Result Error ParserObject) (object : ParserObject)
    → found.1 ≡ ok object
    → (udp_update platform r config fresh message outcomes found).1
      ≡ log_uncaught
          (update_context platform r config object (udp_domain fresh message) outcomes).effects
unfolding udp_update
udp_update-effects platform r config fresh message outcomes (cache, ok object') object h =
    let same : object' ≡ object = cc h in rw same refl
udp_update-effects platform r config fresh message outcomes (cache, err e) object h = absurd (cc h)

-- A parser whose `parseRequest` does not set the entity's identifier.
abbrev pub LeavesEntity : Parser → Type 0
LeavesEntity p =
    (d d' : Domain) (e : EntityData) → p.parse_request d ≡ ok (e, d') → d'.entity_id ≡ d.entity_id

-- Those of the Nagios probes do not.
pub nagios_parser-LeavesEntity :
    (attrs_of : EntityData → Result Error Attrs) → LeavesEntity (nagios_parser attrs_of)
nagios_parser-LeavesEntity attrs_of d d' e h =
    let (a, _, kept) = >>=-eq-ok (parse_request d) (λ data_. ok (data_, d)) h in
    let same : d ≡ d' = cc kept in ap (λ (x : Domain). x.entity_id) (sym same)

-- Without an identifier no request is built.
update_request-absent :
    (platform : Platform) (config : Config) (p : Parser) (d : Domain) (u : UpdateRequest)
    → LeavesEntity p
    → d.entity_id ≡ absent
    → get_update_request platform config p d ≢ ok u
update_request-absent platform config p d u leaves unnamed h =
    let i = (get_update_request-IsUpdate platform config p d u).0 h in
    let named : is_given absent ≡ true =
      rw (leaves d i.reqdomain i.entity_data i.parsed, unnamed) at i.has_id in
    cc named

-- A datagram for a loaded parser whose parseRequest does not set the identifier of the entity
-- never leads to a request to ContextBroker.
pub udp_request_listener_silent :
    (platform : Platform) (require : JsString → Module) (r : RetryModule) (config : Config)
    (cache : Cache) (fresh : Fresh) (message : List ℕ) (name : JsString) (outcomes : List Attempt)
    (p : Parser)
    → (get_parser_by_name platform require config cache name).1 ≡ ok (parser p)
    → LeavesEntity p
    → requests (udp_request_listener platform require r config cache fresh message name outcomes).1
      ≡ []
unfolding udp_request_listener requests
udp_request_listener_silent platform require r config cache fresh message name outcomes p loads
      leaves =
    let result = get_parser_by_name platform require config cache name in
    ap requests
      (udp_update-effects platform r config fresh message outcomes result (parser p) loads)
    ∙ requests-log_uncaught _
    ∙ update_context_no_request platform r config (parser p) (udp_domain fresh message) outcomes
        (λ u.
          unfold update_request in
          update_request-absent platform config p (parsing (udp_domain fresh message)) u leaves
            refl)

-- When the parser of a datagram is a Nagios parser, whatever attributes it reads, the only report
-- is the error that the body, a Buffer, has no method split.
pub udp_bundled_fails :
    (platform : Platform) (require : JsString → Module) (r : RetryModule) (config : Config)
    (cache : Cache) (fresh : Fresh) (message : List ℕ) (name : JsString) (outcomes : List Attempt)
    (attrs_of : EntityData → Result Error Attrs)
    → (get_parser_by_name platform require config cache name).1
      ≡ ok (parser (nagios_parser attrs_of))
    → replies (udp_request_listener platform require r config cache fresh message name outcomes).1
      ≡ failed (codes "reqdomain.body.split is not a function") ∷ []
unfolding udp_request_listener replies
udp_bundled_fails platform require r config cache fresh message name outcomes attrs_of loads =
    let result = get_parser_by_name platform require config cache name in
    let object = parser (nagios_parser attrs_of) in
    ap replies (udp_update-effects platform r config fresh message outcomes result object loads)
    ∙ replies-log_uncaught _
    ∙ (update_context_failed platform r config object (udp_domain fresh message) outcomes
        (codes "reqdomain.body.split is not a function")
        (unfold update_request get_update_request parse_request in refl)).1

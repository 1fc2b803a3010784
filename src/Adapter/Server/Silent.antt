-- ===== src/Adapter/Server/Silent.antt =====
-- The exchanges of the server over UDP.
use fiware_monitoring.Adapter.Effect.{RetryModule, requests}
use fiware_monitoring.Adapter.Server.{Reach, Server}
use fiware_monitoring.Adapter.Server.Alone.{expected_at, udp_and_report}
use fiware_monitoring.Adapter.Server.Asked.{requests-finish_udp}
use fiware_monitoring.Adapter.Server.Isolation.{Reach-expected}
use fiware_monitoring.Adapter.Udp.Silent.{LeavesEntity, udp_request_listener_silent}
use fiware_monitoring.Base.{List, Memᴰ, [], ap, ok, refl, ℕ, ◌∙◌, ◌≡◌}
use fiware_monitoring.Config.{Config}
use fiware_monitoring.Js.Text.{JsString}
use fiware_monitoring.Parsers.BaseParser.{Parser}
use fiware_monitoring.Parsers.Factory.{Module, get_parser_by_name, parser}
use fiware_monitoring.Platform.{Platform}
use fiware_monitoring.Adapter.Exchange.{closed, Exchange, Stage, over_udp, receiving, waiting}

module _ (platform : Platform) (require : JsString → Module) (r : RetryModule)
    (config : Config) where
  silent_at :
      (stage : Stage r.Operation) (x : Exchange r.Operation) (name : JsString) (message : List ℕ)
      (p : Parser)
      → x.origin ≡ over_udp name message
      → (get_parser_by_name platform require config [] name).1 ≡ ok (parser p)
      → LeavesEntity p
      → requests (expected_at platform require r config stage x) ≡ []
  unfolding udp_and_report
  silent_at (receiving pending_) x name message p asked loads leaves =
      rw asked (unfold requests in refl)
  silent_at (waiting op update context) x name message p asked loads leaves = rw asked (
      requests-finish_udp platform config _
      ∙ udp_request_listener_silent platform require r config [] x.fresh message name x.outcomes p
          loads leaves)
  silent_at closed x name message p asked loads leaves = rw asked (
      requests-finish_udp platform config _
      ∙ udp_request_listener_silent platform require r config [] x.fresh message name x.outcomes p
          loads leaves)

  -- In every state that the server gets into, nothing was sent to ContextBroker for a datagram
  -- when the parser that a look-up of its name from an empty cache gives does not set the
  -- identifier of the entity in parseRequest.
  pub Reach-silent :
      {s : Server platform require r config} {x : Exchange r.Operation} (name : JsString)
      (message : List ℕ) (p : Parser)
      → Reach platform require r config s
      → Memᴰ x s.exchanges
      → x.origin ≡ over_udp name message
      → (get_parser_by_name platform require config [] name).1 ≡ ok (parser p)
      → LeavesEntity p
      → requests x.effects ≡ []
  Reach-silent {s} {x} name message p reach m asked loads leaves =
      ap requests (Reach-expected platform require r config reach m)
      ∙ silent_at x.stage x name message p asked loads leaves

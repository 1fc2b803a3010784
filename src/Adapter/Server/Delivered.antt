-- ===== src/Adapter/Server/Delivered.antt =====
-- What the exchanges of the server send to ContextBroker.
use fiware_monitoring.Adapter.Effect.{CountsRetries, RetryModule, requests}
use fiware_monitoring.Adapter.Listener.{Request, serve}
use fiware_monitoring.Adapter.Listener.Delivery.{serve_delivers}
use fiware_monitoring.Adapter.Listener.Report.{serve_and_report}
use fiware_monitoring.Adapter.Listener.Status.{StatusOf, found}
use fiware_monitoring.Adapter.Server.{Reach, Server}
use fiware_monitoring.Adapter.Server.Alone.{expected_at}
use fiware_monitoring.Adapter.Server.Asked.{requests-finish}
use fiware_monitoring.Adapter.Server.Isolation.{Reach-expected}
use fiware_monitoring.Adapter.Update.Attempts.{replicate, sent}
use fiware_monitoring.Base.{All, Memᴰ, Result, [], ap, map, ok, some, ◌∙◌, ◌≡◌, ◌≢◌}
use fiware_monitoring.Config.{Config, timestamp_attr_name}
use fiware_monitoring.Domain.{Error, text}
use fiware_monitoring.Js.Object.{Attrs, insert, integer}
use fiware_monitoring.Js.Text.{JsString, join}
use fiware_monitoring.Parsers.BaseParser.{UpdateRequest}
use fiware_monitoring.Parsers.BaseParser.Attributes.{attributes, texts}
use fiware_monitoring.Parsers.BaseParser.Requests.{HasText}
use fiware_monitoring.Parsers.Bundled.{nagios_parser}
use fiware_monitoring.Parsers.Factory.{Module, parser}
use fiware_monitoring.Parsers.Nagios.{EntityData, parse_body}
use fiware_monitoring.Platform.{Platform}
use fiware_monitoring.Adapter.Exchange.{closed, Exchange, Stage, over_http, receiving, waiting}

-- The body has ended, or no body is awaited.
abbrev pub IsAfterBody : {O : Type 0} → Stage O → Type 0
IsAfterBody (receiving p) = ⊥
IsAfterBody _ = Unit

module _ (platform : Platform) (require : JsString → Module) (r : RetryModule)
    (counts : CountsRetries r) (config : Config) where
  alone-requests :
      (stage : Stage r.Operation) (x : Exchange r.Operation) (req : Request)
      → x.origin ≡ over_http req
      → IsAfterBody stage
      → requests (expected_at platform require r config stage x)
        ≡ requests (serve platform require r config [] x.fresh req x.chunks x.outcomes)
  unfolding serve_and_report
  alone-requests (receiving p) x req asked h = absurd h
  alone-requests (waiting op update context) x req asked h =
      rw asked (requests-finish platform config _ _)
  alone-requests closed x req asked h = rw asked (requests-finish platform config _ _)

  -- In every state that the server gets into, for an exchange over HTTP that no longer awaits its
  -- body, when the operations of the retries count them, it was answered by 200 with a Nagios
  -- parser, its whole body is a probe's output and the parser reads attributes from that output,
  -- none of them undefined or null, all that was sent to ContextBroker is one request, once and
  -- once more after each error event while retries were left, from whose body ContextBroker reads
  -- exactly those attributes with the time of the request.
  pub Reach-delivers :
      {s : Server platform require r config} {x : Exchange r.Operation} (req : Request)
      (attrs_of : EntityData → Result Error Attrs) (e : EntityData) (attrs : Attrs)
      → Reach platform require r config s
      → Memᴰ x s.exchanges
      → x.origin ≡ over_http req
      → IsAfterBody x.stage
      → StatusOf platform require config x.fresh req [] 200
      → found platform require config x.fresh req [] ≡ ok (parser (nagios_parser attrs_of))
      → parse_body (text (join [] (map platform.decode x.chunks))) ≡ ok e
      → attrs_of e ≡ ok attrs
      → attrs ≢ []
      → All HasText attrs
      → (u : UpdateRequest) × (requests x.effects
          ≡ replicate (sent config.retries x.outcomes) (u.options, u.body))
        × (attributes config u.body
            ≡ some (texts platform (insert timestamp_attr_name (integer x.fresh.now) attrs)))
  Reach-delivers {s} {x} req attrs_of e attrs reach m asked ended_ status found_ parsed read ne
        filled =
      let (u, sends, reads) =
        serve_delivers platform require r counts config [] x.fresh req x.chunks x.outcomes attrs_of
          e attrs status found_ parsed read ne filled in
      (
        u,
        ap requests (Reach-expected platform require r config reach m)
            ∙ alone-requests x.stage x req asked ended_
            ∙ sends,
        reads,
      )

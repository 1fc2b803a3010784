-- ===== src/Adapter/Udp.antt =====
-- `udpRequestListener`: the UDP requests.
pub mod Silent
use fiware_monitoring.Adapter.Effect.{Attempt, Effect, RetryModule, error, info, log, uncaught}
use fiware_monitoring.Adapter.Listener.{Fresh, entity_id, entity_type}
use fiware_monitoring.Adapter.Update.{update_context}
use fiware_monitoring.Base.{List, Result, [], err, ok, ℕ, ◌++◌, ◌∷◌}
use fiware_monitoring.Config.{Config}
use fiware_monitoring.Domain.{Context, Domain, Error, absent, buffer}
use fiware_monitoring.Js.Text.{JsString, codes}
use fiware_monitoring.Parsers.Factory.{Cache, Module, ParserObject, get_parser_by_name}
use fiware_monitoring.Platform.{Platform}

-- The `context` of a datagram.
abbrev pub udp_context : Fresh → Context
udp_context fresh = record { trans = fresh.trans; corr = codes "n/a"; op = codes "UDP" }

-- The domain of a datagram, which names no entity.
abbrev pub udp_domain : Fresh → List ℕ → Domain
udp_domain fresh message = record {
  context = udp_context fresh;
  entity_id = absent;
  entity_type = absent;
  timestamp = fresh.now;
  body = buffer message;
}

-- The event `error` of the domain: nothing is answered.
unfoldable pub log_uncaught : List Effect → List Effect
log_uncaught [] = []
log_uncaught (uncaught e ∷ es) = log error e ∷ log_uncaught es
log_uncaught (e ∷ es) = e ∷ log_uncaught es

module _ (platform : Platform) (retry_module : RetryModule) (config : Config) (fresh : Fresh)
    (message : List ℕ) (outcomes : List Attempt) where
  -- After `parser.getParserByName(parserName)`.
  unfoldable pub udp_update : Cache × Result Error ParserObject → Cache × List Effect
  udp_update (cache, err e) = (cache, log error e ∷ [])
  udp_update (cache, ok object) = (
    cache,
    log_uncaught
        (update_context platform retry_module config object (udp_domain fresh message)
          outcomes).effects,
  )

-- The message of a socket for a parser, with what ContextBroker's side then does.
unfoldable pub udp_request_listener :
    Platform
    → (JsString → Module)
    → RetryModule
    → Config
    → Cache
    → Fresh
    → List ℕ
    → JsString
    → List Attempt
    → Cache × List Effect
unfolding udp_update
udp_request_listener platform require retry_module config cache fresh message parser_name outcomes =
    let (cache', effects) =
      udp_update platform retry_module config fresh message outcomes
        (get_parser_by_name platform require config cache parser_name) in
    (cache', log info (codes "UDP request to adapt data using parser " ++ parser_name) ∷ effects)

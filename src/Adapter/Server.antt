-- ===== src/Adapter/Server.antt =====
-- The server as a step relation: any number of exchanges, over HTTP and UDP, whose events come in any order and
-- which share the cache of the parsers.
pub mod Alone
pub mod Shared
pub mod Follows
pub mod Invariant
pub mod Moves
pub mod Datagrams
pub mod Isolation
pub mod Budget
pub mod Asked
pub mod Ends
pub mod Heads
pub mod Once
pub mod Emitted
pub mod Answered
pub mod Delivered
pub mod Silent
use fiware_monitoring.Adapter.Update.{after}
use fiware_monitoring.Adapter.Effect.{RetryModule}
use fiware_monitoring.Adapter.Exchange.{Exchange, Move, open_http, open_udp}
use fiware_monitoring.Adapter.Listener.{Fresh, Request, on_request}
use fiware_monitoring.Base.{List, Option, [], ℕ, ◌++◌, ◌∷◌, ◌≡◌}
use fiware_monitoring.Config.{Config}
use fiware_monitoring.Domain.{Error}
use fiware_monitoring.Js.Text.{JsString}
use fiware_monitoring.Parsers.Factory.{Cache, Module, get_parser_by_name}
use fiware_monitoring.Platform.{Platform}

module _ (platform : Platform) (require : JsString → Module) (retry_module : RetryModule)
    (config : Config) where
  open retry_module use {Operation}

  pub record Server : Type 0 where
    pub cache : Cache
    pub exchanges : List (Exchange Operation)

  -- A new request or datagram, or an event of one of the exchanges.
  pub data Step (s : Server) : Server → Type 0 where
    requested :
        (fresh : Fresh) (req : Request)
        → Step s (record {
          cache = (on_request platform require config fresh req s.cache).cache;
          exchanges =
              open_http platform retry_module config fresh req
                (on_request platform require config fresh req s.cache)
              ∷ s.exchanges;
        })
    datagram :
        (fresh : Fresh) (name : JsString) (message : List ℕ) (start : Option Error)
        → Step s (record {
          cache = (get_parser_by_name platform require config s.cache name).0;
          exchanges =
              open_udp platform retry_module config fresh name message start
                (get_parser_by_name platform require config s.cache name).1
              ∷ s.exchanges;
        })
    moved :
        (before after : List (Exchange Operation)) (x y : Exchange Operation)
        → s.exchanges ≡ before ++ (x ∷ after)
        → Move platform retry_module config x y
        → Step s (record s { exchanges = before ++ (y ∷ after) })

  -- The states that the server can get into.
  pub data Reach : Server → Type 0 where
    booted : Reach (record { cache = []; exchanges = [] })
    stepped : {s t : Server} → Reach s → Step s t → Reach t

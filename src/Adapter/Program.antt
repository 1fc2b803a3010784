-- ===== src/Adapter/Program.antt =====
-- The whole program after its start: the process that `main` leaves, and the server whose listeners its sockets call.
pub mod Sockets
use fiware_monitoring.Adapter.Effect.{RetryModule}
use fiware_monitoring.Adapter.Endpoints.{endpoints}
use fiware_monitoring.Adapter.Exchange.{open_udp}
use fiware_monitoring.Adapter.Listener.{Fresh}
use fiware_monitoring.Adapter.Main.{
  Process, ProcessEvent, Socket, process_step, running, sockets_of, udp_message,
}
use fiware_monitoring.Adapter.Server.{Server, Step, datagram}
use fiware_monitoring.Base.{List, Option, [], get_elem?, some, true, ℕ, ◌∷◌, ◌≡◌}
use fiware_monitoring.Config.{Config}
use fiware_monitoring.Domain.{Error}
use fiware_monitoring.Js.Text.{JsString}
use fiware_monitoring.Parsers.Factory.{Module, get_parser_by_name}
use fiware_monitoring.Platform.{Platform}

-- Every event of the process but a message of a UDP socket.
abbrev pub IsNoMessage : ProcessEvent → Type 0
IsNoMessage (udp_message n message) = ⊥
IsNoMessage _ = Unit

-- `config` is the configuration that the check leaves.
module _ (platform : Platform) (require : JsString → Module) (retry_module : RetryModule)
    (config : Config) where
  pub record Program : Type 0 where
    pub process : Process
    pub server : Server platform require retry_module config

  -- Every step of the server but a datagram.
  abbrev pub IsNoDatagram :
      {s t : Server platform require retry_module config}
      → Step platform require retry_module config s t
      → Type 0
  IsNoDatagram (datagram fresh name message throw) = ⊥
  IsNoDatagram _ = Unit

  -- An event of the process, a message of an open socket for its parser, or a step of the server;
  -- the last two only while the process runs.
  pub data ProgramStep (p : Program) : Program → Type 0 where
    reacted :
        (event : ProcessEvent)
        → IsNoMessage event
        → ProgramStep p (record p { process = (process_step p.process event).0 })
    message_came :
        (sockets : List Socket) (n : ℕ) (s : Socket) (fresh : Fresh) (message : List ℕ)
        (throw : Option Error)
        → p.process ≡ running sockets
        → get_elem? sockets n ≡ some s
        → s.is_open ≡ true
        → ProgramStep p (record p {
          server = record {
            cache = (get_parser_by_name platform require config p.server.cache s.parser_name).0;
            exchanges =
                open_udp platform retry_module config fresh s.parser_name message throw
                  (get_parser_by_name platform require config p.server.cache s.parser_name).1
                ∷ p.server.exchanges;
          };
        })
    server_went :
        (sockets : List Socket) (t : Server platform require retry_module config)
        (step : Step platform require retry_module config p.server t)
        → p.process ≡ running sockets
        → IsNoDatagram step
        → ProgramStep p (record p { server = t })

  -- The states of the program after a start that serves.
  pub data ProgramReach : Program → Type 0 where
    started : ProgramReach (record {
      process = running (sockets_of (endpoints config));
      server = record { cache = []; exchanges = [] };
    })
    went_on : {p q : Program} → ProgramReach p → ProgramStep p q → ProgramReach q

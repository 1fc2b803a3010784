-- ===== src/Adapter/Program/Sockets.antt =====
-- Which datagrams the program takes.
use fiware_monitoring.Adapter.Server.Alone.{expected_at}
use fiware_monitoring.Adapter.Server.Isolation.{Reach-expected}
use fiware_monitoring.Adapter.Program.{
  IsNoDatagram, Program, ProgramReach, message_came, reacted, server_went, started, went_on,
}
use fiware_monitoring.Adapter.Server.{
  Reach, Server, Step, booted, datagram, moved, requested, stepped,
}
use fiware_monitoring.Adapter.Effect.{RetryModule}
use fiware_monitoring.Adapter.Endpoints.{Endpoint, bind, endpoints, ignored}
use fiware_monitoring.Adapter.Exchange.{
  Exchange, Origin, over_http, over_udp, Move, body_ended, data_came, open_udp, request_failed,
  response_ended,
}
use fiware_monitoring.Adapter.Main.{
  Process, ProcessEvent, Socket, close_at, ended, http_listening, process_step, react, running,
  signalled, sockets_of, thrown_out, udp_failed, udp_listening, udp_message,
}
use fiware_monitoring.Base.{
  All, All-weaken, Bool, List, Memᴰ, Option, [], refl, suc, zero, ℕ, ◌∷◌, All-Memᴰ, All-append,
  All-get_elem?, All-parts, subst, ◌≡◌,
}
use fiware_monitoring.Config.{Config}
use fiware_monitoring.Js.Text.{JsString}
use fiware_monitoring.Parsers.Factory.{Module}
use fiware_monitoring.Platform.{Platform}

module _ (platform : Platform) (require : JsString → Module) (retry_module : RetryModule)
    (config : Config) where
  open retry_module use {Operation}

  -- Some endpoint binds a socket for the parser.
  abbrev pub IsBoundIn : List Endpoint → JsString → Type 0
  IsBoundIn es name = (host : JsString) × (port : Option (Bool × ℕ)) × Memᴰ (bind host port name) es

  sockets_of-IsBoundIn :
      (es : List Endpoint) → All (λ s. IsBoundIn es s.parser_name) (sockets_of es)
  sockets_of-IsBoundIn [] = tt
  sockets_of-IsBoundIn (bind host port name ∷ es) = (
    (host, port, Memᴰ.head refl),
    All-weaken _ _ (sockets_of es) (λ s b. (b.0, b.1, Memᴰ.tail b.2)) (sockets_of-IsBoundIn es),
  )
  sockets_of-IsBoundIn (ignored item ∷ es) =
      All-weaken _ _ (sockets_of es) (λ s b. (b.0, b.1, Memᴰ.tail b.2)) (sockets_of-IsBoundIn es)

  abbrev IsBound : JsString → Type 0
  IsBound name = IsBoundIn (endpoints config) name

  abbrev HasBound : Process → Type 0
  HasBound (running sockets) = All (λ s. IsBound s.parser_name) sockets
  HasBound (ended exit_code) = Unit

  close_at-HasBound :
      (n : ℕ) (sockets : List Socket)
      → HasBound (running sockets)
      → HasBound (running (close_at n sockets))
  close_at-HasBound n [] h = h
  close_at-HasBound zero (s ∷ sockets) h = h
  close_at-HasBound (suc n) (s ∷ sockets) h = (h.0, close_at-HasBound n sockets h.1)

  process_step-HasBound :
      (p : Process) (event : ProcessEvent) → HasBound p → HasBound (process_step p event).0
  unfolding process_step react
  process_step-HasBound (ended exit_code) event h = tt
  process_step-HasBound (running sockets) signalled h = tt
  process_step-HasBound (running sockets) (thrown_out e) h = tt
  process_step-HasBound (running sockets) (http_listening address port) h = h
  process_step-HasBound (running sockets) (udp_listening n address port) h = h
  process_step-HasBound (running sockets) (udp_failed n stack) h = close_at-HasBound n sockets h
  process_step-HasBound (running sockets) (udp_message n message) h = h

  -- An exchange over UDP is for a parser with a socket.
  abbrev IsFrom : Origin → Type 0
  IsFrom (over_http req) = Unit
  IsFrom (over_udp name message) = IsBound name

  abbrev IsFromSocket : Exchange Operation → Type 0
  IsFromSocket x = IsFrom x.origin

  Move-IsFromSocket :
      {x y : Exchange Operation}
      → Move platform retry_module config x y
      → IsFromSocket x
      → IsFromSocket y
  Move-IsFromSocket (data_came p chunk e) h = h
  Move-IsFromSocket (body_ended p throw e) h = h
  Move-IsFromSocket (response_ended op update context status corr parts e) h = h
  Move-IsFromSocket (request_failed op update context problem throw e) h = h

  Step-IsFromSocket :
      {s t : Server platform require retry_module config}
      (step : Step platform require retry_module config s t)
      → IsNoDatagram platform require retry_module config step
      → All IsFromSocket s.exchanges
      → All IsFromSocket t.exchanges
  Step-IsFromSocket (requested fresh req) none_ h = (tt, h)
  Step-IsFromSocket (datagram fresh name message throw) none_ h = absurd none_
  Step-IsFromSocket (moved before rest x y e mv) none_ h =
      let parts = All-parts IsFromSocket before rest x (subst (All IsFromSocket) e h) in
      All-append IsFromSocket before (y ∷ rest) parts.before
        (Move-IsFromSocket mv parts.here, parts.after)

  ProgramReach-IsFromSocket :
      {p : Program platform require retry_module config}
      → ProgramReach platform require retry_module config p
      → HasBound p.process × All IsFromSocket p.server.exchanges
  unfolding open_udp
  ProgramReach-IsFromSocket started = (sockets_of-IsBoundIn (endpoints config), tt)
  ProgramReach-IsFromSocket (went_on {p} reach (reacted event none_)) =
      let (bound_, from) = ProgramReach-IsFromSocket reach in
      (process_step-HasBound p.process event bound_, from)
  ProgramReach-IsFromSocket
        (went_on {p} reach (message_came sockets n s fresh message throw e here_ is_open)) =
      let (bound_, from) = ProgramReach-IsFromSocket reach in
      (bound_, (All-get_elem? _ sockets n (subst HasBound e bound_) here_, from))
  ProgramReach-IsFromSocket (went_on reach (server_went sockets t step e none_)) =
      let (bound_, from) = ProgramReach-IsFromSocket reach in
      (bound_, Step-IsFromSocket step none_ from)

  -- The server of the program is one that the listeners get into.
  ProgramReach-Reach :
      {p : Program platform require retry_module config}
      → ProgramReach platform require retry_module config p
      → Reach platform require retry_module config p.server
  ProgramReach-Reach started = booted
  ProgramReach-Reach (went_on reach (reacted event none_)) = ProgramReach-Reach reach
  ProgramReach-Reach
        (went_on reach (message_came sockets n s fresh message throw e here_ is_open)) =
      stepped (ProgramReach-Reach reach) (datagram fresh s.parser_name message throw)
  ProgramReach-Reach (went_on reach (server_went sockets t step e none_)) =
      stepped (ProgramReach-Reach reach) step

  -- In every state that the program gets into after its start, a datagram that it took is for the
  -- parser of a UDP endpoint of the configuration, and what was done for it is what is done for it
  -- alone with an empty cache, with the outcomes that it had.
  pub ProgramReach-bind :
      {p : Program platform require retry_module config} {x : Exchange Operation} (name : JsString)
      (message : List ℕ)
      → ProgramReach platform require retry_module config p
      → Memᴰ x p.server.exchanges
      → x.origin ≡ over_udp name message
      → (host : JsString) × (port : Option (Bool × ℕ)) × Memᴰ
          (bind host port name)
          (endpoints config)
        × (x.effects ≡ expected_at platform require retry_module config x.stage x)
  ProgramReach-bind {p} {x} name message reach m e =
      let (host, port, listed) =
        subst IsFrom e
          (All-Memᴰ IsFromSocket p.server.exchanges (ProgramReach-IsFromSocket reach).1 m) in
      (
        host,
        port,
        listed,
        Reach-expected platform require retry_module config (ProgramReach-Reach reach) m,
      )

-- ===== src/Adapter/Main.antt =====
-- `main`: the start of the process, its end, and the handlers of its sockets.
pub mod Starts
pub mod Stops
use fiware_monitoring.Adapter.Effect.{Level, error, info, warn}
use fiware_monitoring.Adapter.Endpoints.{Endpoint, bind, endpoints, ignored}
use fiware_monitoring.Base.{
  Bool, List, Option, [], code, false, get_elem?, if◌then◌else◌, map, none, some, suc, true, zero,
  ℕ, ◌++◌, ◌∷◌,
}
use fiware_monitoring.Config.{Config}
use fiware_monitoring.Config.Check.{Arguments, Checked, check, crashes, done, exits}
use fiware_monitoring.Domain.{Error}
use fiware_monitoring.Js.Integer.{show_nat}
use fiware_monitoring.Js.Text.{JsString, codes}
use fiware_monitoring.Platform.{Platform}

-- What the process does.
pub data Act : Type 0 where
  trace_op : Level → JsString → JsString → Act
  show_help : Act
  exits_with : ℕ → Act
  listen_http : JsString → JsString → Act
  bind_udp : JsString → Option (Bool × ℕ) → JsString → Act
  close_udp : ℕ → Act
  handle_datagram : JsString → List ℕ → Act

-- A socket for a parser; it is closed after an error.
pub record Socket : Type 0 where
  pub parser_name : JsString
  pub is_open : Bool

-- The process with its UDP sockets, or its end with the exit code.
pub data Process : Type 0 where
  running : List Socket → Process
  ended : ℕ → Process

-- `process.exit(code)`, with the handler of the event `exit`.
abbrev pub exit_acts : ℕ → List Act
exit_acts code = trace_op info (codes "Exit") (codes "Server stopped") ∷ exits_with code ∷ []

-- The handler of `uncaughtException`.
abbrev pub uncaught_acts : Error → List Act
uncaught_acts e = trace_op error (codes "Exit") e ∷ exit_acts 1

-- The callback that `main` gives to `config.check`.
abbrev pub check_failed : Error → List Act
check_failed e = trace_op error (codes "Init") e ∷ exit_acts 1

-- One item of the UDP endpoints.
abbrev pub endpoint_act : Endpoint → Act
endpoint_act (bind host port name) = bind_udp host port name
endpoint_act (ignored item) =
    trace_op warn (codes "Init")
      (codes "Ignoring UDP endpoint \"" ++ (item ++ codes "\": missing parser name"))

abbrev pub sockets_of : List Endpoint → List Socket
sockets_of [] = []
sockets_of (bind host port name ∷ es) =
    record { parser_name = name; is_open = true } ∷ sockets_of es
sockets_of (ignored item ∷ es) = sockets_of es

-- What follows `config.check`.
unfoldable pub after_check : Checked → Process × List Act
unfolding endpoints
after_check exits = (ended 1, show_help ∷ exit_acts 1)
after_check (crashes e (some failure)) = (ended 1, check_failed failure)
after_check (crashes e none) = (ended 1, uncaught_acts e)
after_check (done config (some failure)) = (ended 1, check_failed failure)
after_check (done config none) = (
  running (sockets_of (endpoints config)),
  listen_http config.listen_port config.listen_host ∷ map endpoint_act (endpoints config),
)

unfoldable pub main :
    Platform → (JsString → Bool) → JsString → Arguments → Config → Process × List Act
unfolding after_check check
main platform can_read user arguments config =
    after_check (check platform can_read user arguments config)

-- What happens to the process: a signal, an exception that nothing catches, a server that listens
-- at an address and a port, and an error or a message of a UDP socket.
pub data ProcessEvent : Type 0 where
  signalled : ProcessEvent
  thrown_out : Error → ProcessEvent
  http_listening : JsString → ℕ → ProcessEvent
  udp_listening : ℕ → JsString → ℕ → ProcessEvent
  udp_failed : ℕ → JsString → ProcessEvent
  udp_message : ℕ → List ℕ → ProcessEvent

abbrev pub close_at : ℕ → List Socket → List Socket
close_at n [] = []
close_at zero (s ∷ sockets) = record s { is_open = false } ∷ sockets
close_at (suc n) (s ∷ sockets) = s ∷ close_at n sockets

-- The handlers of a socket that is open.
abbrev pub when_open : Option Socket → (Socket → List Act) → List Act
when_open none acts = []
when_open (some s) acts = if s.is_open then acts s else []

-- `http://address:port/`
abbrev pub listening_text : JsString → JsString → ℕ → JsString → JsString
listening_text before address port after_port =
    before ++ (address ++ (b':' ∷ (show_nat port ++ after_port)))

unfoldable pub react : List Socket → ProcessEvent → Process × List Act
unfolding show_nat
react sockets signalled = (ended 0, exit_acts 0)
react sockets (thrown_out e) = (ended 1, uncaught_acts e)
react sockets (http_listening address port) = (
  running sockets,
  trace_op info (codes "Init")
        (listening_text (codes "Server listening at http://") address port (codes "/"))
      ∷ [],
)
react sockets (udp_listening n address port) = (
  running sockets,
  when_open (get_elem? sockets n) (λ s.
      trace_op info (codes "Init") (
        listening_text
          (codes "Listening to UDP requests for parser \"" ++ (s.parser_name ++ codes "\" at "))
          address port [])
      ∷ []),
)
react sockets (udp_failed n stack) = (
  running (close_at n sockets),
  when_open (get_elem? sockets n)
      (λ s. trace_op error (codes "UDP") (codes "Server error: " ++ stack) ∷ close_udp n ∷ []),
)
react sockets (udp_message n message) = (
  running sockets,
  when_open (get_elem? sockets n) (λ s. handle_datagram s.parser_name message ∷ []),
)

-- The process after an event; when it has ended, nothing happens.
unfoldable pub process_step : Process → ProcessEvent → Process × List Act
unfolding react
process_step (ended code) event = (ended code, [])
process_step (running sockets) event = react sockets event

unfoldable pub process_run : Process → List ProcessEvent → Process × List Act
process_run p [] = (p, [])
process_run p (event ∷ events) =
    let next = process_step p event in
    let rest = process_run next.0 events in (rest.0, next.1 ++ rest.1)

-- The whole life of the process.
unfoldable pub life :
    Platform
    → (JsString → Bool)
    → JsString
    → Arguments
    → Config
    → List ProcessEvent
    → Process × List Act
life platform can_read user arguments config events =
    let started_ = main platform can_read user arguments config in
    let rest = process_run started_.0 events in (rest.0, started_.1 ++ rest.1)

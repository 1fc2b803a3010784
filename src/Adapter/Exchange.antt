-- ===== src/Adapter/Exchange.antt =====
-- One exchange of the server, over HTTP or UDP, from one event to the next: the code of `asyncRequestListener`,
-- `udpRequestListener` and `updateContext` between the points at which it waits.
use fiware_monitoring.Adapter.Callback.{update_context_callback}
use fiware_monitoring.Adapter.Effect.{
  Attempt, Effect, RetryModule, answered, callback, debug, error, failed, info, log, refused,
  replied, throws, uncaught,
}
use fiware_monitoring.Adapter.Listener.{
  Fresh, Handled, Pending, Request, catch_uncaught, on_data, request_context,
}
use fiware_monitoring.Adapter.Listener.Report.{finish}
use fiware_monitoring.Adapter.Udp.{log_uncaught, udp_domain}
use fiware_monitoring.Adapter.Update.{announce, body_text, send, temporary, update_request}
use fiware_monitoring.Base.{
  Bool, List, Option, Result, [], err, false, if◌then◌else◌, none, ok, some, true, ℕ, ◌++◌, ◌∷◌,
  ◌≡◌,
}
use fiware_monitoring.Config.{Config}
use fiware_monitoring.Domain.{Context, Domain, Error}
use fiware_monitoring.Js.Text.{JsString, codes, join}
use fiware_monitoring.Parsers.BaseParser.{UpdateRequest}
use fiware_monitoring.Parsers.Factory.{ParserObject}
use fiware_monitoring.Platform.{Platform}

-- Where an exchange comes from: a request, or a datagram for the parser of a socket.
pub data Origin : Type 0 where
  over_http : Request → Origin
  over_udp : JsString → List ℕ → Origin

-- The calls of the callback for a datagram are made, within its domain.
unfoldable pub finish_udp : Platform → Config → List Effect → List Effect
finish_udp platform config [] = []
finish_udp platform config (callback reply ∷ es) =
    log_uncaught (update_context_callback platform config reply) ++ finish_udp platform config es
finish_udp platform config (e ∷ es) = e ∷ finish_udp platform config es

-- What an exchange waits for: the rest of its body, or ContextBroker's side of the last attempt.
pub data Stage (Operation : Type 0) : Type 0 where
  receiving : Pending → Stage Operation
  waiting : Operation → UpdateRequest → Context → Stage Operation
  closed : Stage Operation

-- What an event adds to an exchange: its effects, the stage after it, and the outcomes of attempts that it tells.
pub record Progress (Operation : Type 0) : Type 0 where
  pub effects : List Effect
  pub stage : Stage Operation
  pub outcomes : List Attempt

-- An exchange: its stage, all that was done for it, and the events that it had: the chunks of its body and the
-- outcomes of its attempts.
pub record Exchange (Operation : Type 0) : Type 0 where
  pub origin : Origin
  pub fresh : Fresh
  pub stage : Stage Operation
  pub effects : List Effect
  pub chunks : List (List ℕ)
  pub outcomes : List Attempt

-- The handlers of the domain and the callback, for what an event does.
unfoldable pub conclude : Platform → Config → Origin → Fresh → List Effect → List Effect
conclude platform config (over_http req) fresh es =
    finish platform config (request_context fresh req).corr
      (catch_uncaught (request_context fresh req).corr es)
conclude platform config (over_udp name message) fresh es =
    finish_udp platform config (log_uncaught es)

module _ (platform : Platform) (retry_module : RetryModule) (config : Config) where
  open retry_module use {Operation, operation, retry}

  -- The function given to `operation.attempt`, until it waits; `http.request` may throw an error.
  unfoldable pub launch :
      Bool → Operation → UpdateRequest → Context → Option Error → Progress Operation
  launch in_try op update context none = record {
    effects = send config update;
    stage = waiting op update context;
    outcomes = [];
  }
  launch in_try op update context (some e) = record {
    effects = announce config update ++ ((if in_try then callback (failed e) else uncaught e) ∷ []);
    stage = closed;
    outcomes = throws e ∷ [];
  }

  abbrev pub preceded : List Effect → Progress Operation → Progress Operation
  preceded es p = record p { effects = es ++ p.effects }

  unfoldable pub launch_first :
      Context → Result Error UpdateRequest → Option Error → Progress Operation
  unfolding launch
  launch_first context (err e) start = record {
    effects = callback (failed e) ∷ [];
    stage = closed;
    outcomes = [];
  }
  launch_first context (ok update) start =
      launch true (operation config.retries) update (record context { op = codes "UpdateContext" })
        start

  -- `updateContext`, until it waits for ContextBroker.
  unfoldable pub begin_update : ParserObject → Domain → Option Error → Progress Operation
  unfolding launch_first
  begin_update object reqdomain start =
      let context = record reqdomain.context { op = codes "Parse" } in
      preceded
        (log debug (codes "Probe data \"" ++ (body_text platform reqdomain.body ++ codes "\""))
          ∷ [])
        (launch_first context
          (update_request platform config object (record reqdomain { context = context })) start)

  -- The event `end` of ContextBroker's response.
  abbrev pub on_response : UpdateRequest → ℕ → Option JsString → List JsString → Progress Operation
  on_response update status corr parts = record {
    effects = callback (replied status (join [] parts) update.options.headers.accept) ∷ [];
    stage = closed;
    outcomes = answered status corr parts ∷ [];
  }

  -- The event `error` of the request to ContextBroker.
  unfoldable pub on_error :
      Operation → UpdateRequest → Context → Error → Option Error → Progress Operation
  unfolding launch
  on_error op update context e start =
      let again = launch false (retry op e).1 update context start in
      if (retry op e).0
      then record {
        effects = temporary e ∷ again.effects;
        stage = again.stage;
        outcomes = refused e ∷ again.outcomes;
      }
      else record { effects = callback (failed e) ∷ []; stage = closed; outcomes = refused e ∷ [] }

  -- The exchange after an event.
  abbrev pub advance : Exchange Operation → Progress Operation → Exchange Operation
  advance x p = record x {
    stage = p.stage;
    effects = x.effects ++ conclude platform config x.origin x.fresh p.effects;
    outcomes = x.outcomes ++ p.outcomes;
  }

  -- The events of an exchange, at the stage where their handlers are attached.
  pub data Move (x : Exchange Operation) : Exchange Operation → Type 0 where
    data_came :
        (p : Pending) (chunk : List ℕ)
        → x.stage ≡ receiving p
        → Move x (record x {
          stage = receiving (on_data platform p (chunk ∷ []));
          chunks = x.chunks ++ (chunk ∷ []);
        })
    body_ended :
        (p : Pending) (start : Option Error)
        → x.stage ≡ receiving p
        → Move x (advance x (begin_update p.object p.reqdomain start))
    response_ended :
        (op : Operation) (update : UpdateRequest) (context : Context) (status : ℕ)
        (corr : Option JsString) (parts : List JsString)
        → x.stage ≡ waiting op update context
        → Move x (advance x (on_response update status corr parts))
    request_failed :
        (op : Operation) (update : UpdateRequest) (context : Context) (e : Error)
        (start : Option Error)
        → x.stage ≡ waiting op update context
        → Move x (advance x (on_error op update context e start))

  abbrev pub stage_of : Option Pending → Stage Operation
  stage_of none = closed
  stage_of (some p) = receiving p

  -- The call of the HTTP listener.
  abbrev pub open_http : Fresh → Request → Handled → Exchange Operation
  open_http fresh req handled = record {
    origin = over_http req;
    fresh = fresh;
    stage = stage_of handled.pending;
    effects = handled.effects;
    chunks = [];
    outcomes = [];
  }

  -- After `parser.getParserByName(parserName)`.
  unfoldable pub udp_progress :
      Fresh → List ℕ → Option Error → Result Error ParserObject → Progress Operation
  unfolding begin_update
  udp_progress fresh message start (err e) = record {
    effects = log error e ∷ [];
    stage = closed;
    outcomes = [];
  }
  udp_progress fresh message start (ok object) =
      begin_update object (udp_domain fresh message) start

  -- An exchange over UDP after its first trace.
  abbrev pub udp_exchange : Fresh → JsString → List ℕ → Exchange Operation
  udp_exchange fresh name message = record {
    origin = over_udp name message;
    fresh = fresh;
    stage = closed;
    effects = log info (codes "UDP request to adapt data using parser " ++ name) ∷ [];
    chunks = [];
    outcomes = [];
  }

  -- The call of the UDP listener.
  unfoldable pub open_udp :
      Fresh → JsString → List ℕ → Option Error → Result Error ParserObject → Exchange Operation
  unfolding udp_progress
  open_udp fresh name message start found_ =
      advance (udp_exchange fresh name message) (udp_progress fresh message start found_)

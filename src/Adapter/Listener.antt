-- ===== src/Adapter/Listener.antt =====
-- `asyncRequestListener`: the HTTP requests.
pub mod Status
pub mod Exchange
pub mod Delivery
pub mod Report
use fiware_monitoring.Adapter.Effect.{
  Attempt, Effect, RetryModule, end_response, error, info, log, uncaught, write_head,
}
use fiware_monitoring.Adapter.Update.{or_corr, update_context}
use fiware_monitoring.Base.{
  List, Option, Result, [], err, if◌then◌else◌, none, not, ok, some, ℕ, ◌++◌, ◌||◌, ◌∷◌,
}
use fiware_monitoring.Config.{Config}
use fiware_monitoring.Domain.{Body, Context, Domain, Error, Param, buffer, text}
use fiware_monitoring.Js.Integer.{show_nat}
use fiware_monitoring.Js.Text.{JsString, codes, equal, join, split}
use fiware_monitoring.Parsers.BaseParser.{is_given}
use fiware_monitoring.Parsers.Factory.{Cache, Module, ParserObject, get_parser}
use fiware_monitoring.Platform.{Platform}

-- What the listener reads of `request`; the header with the correlator may be missing.
pub record Request : Type 0 where
  pub method : JsString
  pub url : JsString
  pub correlator : Option JsString

-- The values that are new for each request: `txid()`, `uuid()` and `Date.now()`.
pub record Fresh : Type 0 where
  pub trans : JsString
  pub uuid : JsString
  pub now : ℕ

-- A request whose body is awaited: `reqdomain` with its parser.
pub record Pending : Type 0 where
  pub object : ParserObject
  pub reqdomain : Domain

-- The state after the call of the listener.
pub record Handled : Type 0 where
  pub effects : List Effect
  pub cache : Cache
  pub pending : Option Pending

-- `reqdomain.context`
abbrev pub request_context : Fresh → Request → Context
request_context fresh req = record {
  trans = fresh.trans;
  corr = or_corr req.correlator fresh.uuid;
  op = req.method;
}

abbrev pub missing_entity : Error
missing_entity = codes "Missing entityId and/or entityType"

-- The arguments of the query string.
abbrev pub entity_id : Platform → Request → Param
entity_id platform req = platform.query req.url (codes "id")

abbrev pub entity_type : Platform → Request → Param
entity_type platform req = platform.query req.url (codes "type")

module _ (platform : Platform) (fresh : Fresh) (req : Request) where
  -- What is done last in every case, with the status decided.
  pub respond : ℕ → List Effect
  unfolding show_nat
  respond status =
      log info (
        codes "Response status " ++ (show_nat status ++ (codes " " ++ platform.status_text status)))
      ∷ write_head status (request_context fresh req).corr
      ∷ end_response
      ∷ []

  pub announce_request : Effect
  unfolding split join
  announce_request =
      log info (codes "Request on resource " ++ join (codes " with params ") (split b'?' req.url))

  -- The domain once the parser is known.
  abbrev pub new_domain : Domain
  new_domain = record {
    context = request_context fresh req;
    entity_id = entity_id platform req;
    entity_type = entity_type platform req;
    timestamp = fresh.now;
    body = text [];
  }

  -- After `parser.getParser(request)`: 404, or 200 and the handlers that collect the body.
  unfoldable pub with_parser : Cache × Result Error ParserObject → Handled
  unfolding respond announce_request
  with_parser (cache, err e) = record {
    effects = announce_request ∷ log error e ∷ respond 404;
    cache = cache;
    pending = none;
  }
  with_parser (cache, ok object) = record {
    effects = announce_request ∷ respond 200;
    cache = cache;
    pending = some (record { object = object; reqdomain = new_domain });
  }

  -- Without an answer from a parser: 400 or 405.
  unfoldable pub without_parser : Cache → List Effect → ℕ → Handled
  unfolding respond announce_request
  without_parser cache errors status = record {
    effects = announce_request ∷ (errors ++ respond status);
    cache = cache;
    pending = none;
  }

unfoldable pub on_request :
    Platform → (JsString → Module) → Config → Fresh → Request → Cache → Handled
unfolding with_parser without_parser
on_request platform require config fresh req cache =
    if equal req.method (codes "POST")
    then (if not (is_given (entity_id platform req)) || not (is_given (entity_type platform req))
        then without_parser platform fresh req cache (log error missing_entity ∷ []) 400
        else with_parser platform fresh req (get_parser platform require config cache req.url))
    else without_parser platform fresh req cache [] 405

-- `reqdomain.body += chunk`, where each chunk is decoded for itself.
abbrev pub add_chunk : Platform → Body → List ℕ → Body
add_chunk platform (text s) chunk = text (s ++ platform.decode chunk)
add_chunk platform (buffer bytes) chunk = text (platform.decode bytes ++ platform.decode chunk)

-- The events `data` of the request.
unfoldable pub on_data : Platform → Pending → List (List ℕ) → Pending
on_data platform p [] = p
on_data platform p (chunk ∷ chunks) =
    on_data platform
      (record p {
        reqdomain = record p.reqdomain { body = add_chunk platform p.reqdomain.body chunk };
      })
      chunks

-- The event `error` of the domain: a second response is attempted.
abbrev pub on_domain_error : JsString → Error → List Effect
on_domain_error corr e = log error e ∷ write_head 500 corr ∷ end_response ∷ []

unfoldable pub catch_uncaught : JsString → List Effect → List Effect
catch_uncaught corr [] = []
catch_uncaught corr (uncaught e ∷ es) = on_domain_error corr e ++ catch_uncaught corr es
catch_uncaught corr (e ∷ es) = e ∷ catch_uncaught corr es

-- The event `end` of the request, and what ContextBroker's side then does.
unfoldable pub on_end :
    Platform
    → RetryModule
    → Config
    → JsString
    → List (List ℕ)
    → List Attempt
    → Option Pending
    → List Effect
on_end platform retry_module config corr chunks outcomes none = []
on_end platform retry_module config corr chunks outcomes (some p) =
    let q = on_data platform p chunks in
    catch_uncaught corr
      (update_context platform retry_module config q.object q.reqdomain outcomes).effects

-- A whole exchange: the request, the chunks of its body, and ContextBroker's side.
unfoldable pub serve :
    Platform
    → (JsString → Module)
    → RetryModule
    → Config
    → Cache
    → Fresh
    → Request
    → List (List ℕ)
    → List Attempt
    → List Effect
serve platform require retry_module config cache fresh req chunks outcomes =
    let handled = on_request platform require config fresh req cache in
    handled.effects
    ++ on_end platform retry_module config (request_context fresh req).corr chunks outcomes
        handled.pending

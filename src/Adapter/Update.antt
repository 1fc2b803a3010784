-- ===== src/Adapter/Update.antt =====
-- `updateContext`.
pub mod Attempts
pub mod Retries
use fiware_monitoring.Adapter.Effect.{
  Attempt, Effect, RetryModule, answered, callback, debug, failed, info, log, refused, replied,
  request, throws, uncaught,
}
use fiware_monitoring.Base.{
  Bool, List, Option, Result, [], err, false, if◌then◌else◌, map, none, ok, some, true, ◌++◌, ◌∷◌,
}
use fiware_monitoring.Config.{Config}
use fiware_monitoring.Domain.{Body, Context, Domain, Error, buffer, text}
use fiware_monitoring.Js.Text.{JsString, codes, is_truthy, join, split, trim}
use fiware_monitoring.Parsers.BaseParser.{UpdateRequest, get_update_request}
use fiware_monitoring.Parsers.Factory.{ParserObject, alien, parser}
use fiware_monitoring.Platform.{Platform}

-- `text.split('\n').map(trim).join('')`
pub compact : JsString → JsString
unfolding split join trim
compact s = join [] (map trim (split b'\n' s))

-- The effects so far, and the context of the domain after them.
pub record Run : Type 0 where
  pub effects : List Effect
  pub context : Context

abbrev pub after : List Effect → Run → Run
after es run = record run { effects = es ++ run.effects }

-- `reqdomain.body` under `%s`.
pub body_text : Platform → Body → JsString
body_text platform (text s) = s
body_text platform (buffer bytes) = platform.decode bytes

-- `response.headers[…] || context.corr`
abbrev pub or_corr : Option JsString → JsString → JsString
or_corr none corr = corr
or_corr (some s) corr = if is_truthy s then s else corr

-- What an attempt does before it waits for ContextBroker.
abbrev pub announce : Config → UpdateRequest → List Effect
announce config update =
    log info (codes "Request to ContextBroker at " ++ (config.broker_url ++ codes "..."))
    ∷ log debug (
        update.options.method
        ++ (codes " " ++ (update.options.path ++ (codes " " ++ compact update.body))))
    ∷ []

abbrev pub send : Config → UpdateRequest → List Effect
send config update = announce config update ++ (request update.options update.body ∷ [])

abbrev pub temporary : Error → Effect
temporary e = log info (codes "Temporary error \"" ++ (e ++ codes "\". Retrying..."))

-- `parser.getUpdateRequest(reqdomain)`
unfoldable pub update_request :
    Platform → Config → ParserObject → Domain → Result Error UpdateRequest
unfolding get_update_request
update_request platform config (parser p) reqdomain = get_update_request platform config p reqdomain
update_request platform config alien reqdomain =
    err (codes "parser.getUpdateRequest is not a function")

module _ (platform : Platform) (retry_module : RetryModule) (config : Config) where
  open retry_module use {Operation, operation, retry}

  -- The function given to `operation.attempt`, from its first call on, for what ContextBroker's side
  -- does with one attempt after the other; only the first call is made within the `try`.
  unfoldable pub attempt : Bool → Operation → UpdateRequest → Context → List Attempt → Run
  unfolding compact
  attempt in_try op update context [] = record { effects = send config update; context = context }
  attempt in_try op update context (answered status corr chunks ∷ outcomes) = record {
    effects =
        send config update
        ++ (callback (replied status (join [] chunks) update.options.headers.accept) ∷ []);
    context = record context { corr = or_corr corr context.corr };
  }
  attempt in_try op update context (refused e ∷ outcomes) =
      let again = attempt false (retry op e).1 update context outcomes in
      if (retry op e).0
      then after (send config update ++ (temporary e ∷ [])) again
      else record { effects = send config update ++ (callback (failed e) ∷ []); context = context }
  attempt in_try op update context (throws e ∷ outcomes) = record {
    effects = announce config update ++ ((if in_try then callback (failed e) else uncaught e) ∷ []);
    context = context;
  }

  unfoldable pub run_update : Context → List Attempt → Result Error UpdateRequest → Run
  unfolding attempt
  run_update context outcomes (err e) = record {
    effects = callback (failed e) ∷ [];
    context = context;
  }
  run_update context outcomes (ok update) =
      attempt true (operation config.retries) update (record context { op = codes "UpdateContext" })
        outcomes

  -- `updateContext(reqdomain, callback)`, with the attempts that it gets to make.
  unfoldable pub update_context : ParserObject → Domain → List Attempt → Run
  unfolding update_request run_update body_text
  update_context object reqdomain outcomes =
      let context = record reqdomain.context { op = codes "Parse" } in
      after
        (log debug (codes "Probe data \"" ++ (body_text platform reqdomain.body ++ codes "\""))
          ∷ [])
        (run_update context outcomes
          (update_request platform config object (record reqdomain { context = context })))

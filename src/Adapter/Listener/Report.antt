-- ===== src/Adapter/Listener/Report.antt =====
-- A whole exchange with the report of ContextBroker's response, `updateContextCallback` being the
-- callback that the listener gives to `updateContext`.
use fiware_monitoring.Adapter.Listener.Exchange.{full_domain, serve-update}
use fiware_monitoring.Adapter.Listener.Status.{
  StatusOf, found, on_request-StatusOf, on_request_quiet, own_corr,
}
use fiware_monitoring.Adapter.Callback.Levels.{update_context_callback-bad_json}
use fiware_monitoring.Domain.{Domain}
use fiware_monitoring.Parsers.BaseParser.Payload.{get_update_request-accept}
use fiware_monitoring.Adapter.Update.{update_request, update_context}
use fiware_monitoring.Adapter.Update.Attempts.{parsing, update_context-answered}
use fiware_monitoring.Parsers.BaseParser.{Parser, UpdateRequest}
use fiware_monitoring.Adapter.Callback.{update_context_callback}
use fiware_monitoring.Adapter.Effect.{
  Attempt, Effect, RetryModule, callback, heads, replies, write_head, answered,
}
use fiware_monitoring.Adapter.Listener.{
  Fresh, Request, catch_uncaught, request_context, serve, on_request,
}
use fiware_monitoring.Base.{
  List, [], ap, append_assoc, none, refl, sym, true, ℕ, ◌++◌, ◌∙◌, ◌∷◌, ◌≡◌, Option, ok,
}
use fiware_monitoring.Config.{Config}
use fiware_monitoring.Js.Json.Parse.{json_parse}
use fiware_monitoring.Js.Text.{JsString, is_truthy, join}
use fiware_monitoring.Parsers.Factory.{Cache, Module, parser}
use fiware_monitoring.Platform.{Platform}

-- The calls of the callback are made, within the domain of the request.
unfoldable pub finish : Platform → Config → JsString → List Effect → List Effect
finish platform config corr [] = []
finish platform config corr (callback reply ∷ es) =
    catch_uncaught corr (update_context_callback platform config reply)
    ++ finish platform config corr es
finish platform config corr (e ∷ es) = e ∷ finish platform config corr es

unfoldable pub serve_and_report :
    Platform
    → (JsString → Module)
    → RetryModule
    → Config
    → Cache
    → Fresh
    → Request
    → List (List ℕ)
    → List Attempt
    → List Effect
serve_and_report platform require retry_module config cache fresh req chunks outcomes =
    finish platform config (request_context fresh req).corr
      (serve platform require retry_module config cache fresh req chunks outcomes)

pub heads-append : (es fs : List Effect) → heads (es ++ fs) ≡ heads es ++ heads fs
unfolding heads
heads-append [] fs = refl
heads-append (write_head status corr ∷ es) fs = ap (◌∷◌ (status, corr)) (heads-append es fs)
heads-append (e ∷ es) fs = heads-append es fs

module _ (platform : Platform) (config : Config) (corr : JsString) where
  pub finish-append :
      (es fs : List Effect)
      → finish platform config corr (es ++ fs)
        ≡ finish platform config corr es ++ finish platform config corr fs
  unfolding finish
  finish-append [] fs = refl
  finish-append (callback reply ∷ es) fs =
      ap (λ gs. catch_uncaught corr (update_context_callback platform config reply) ++ gs)
        (finish-append es fs)
      ∙ sym (append_assoc (catch_uncaught corr (update_context_callback platform config reply)) _ _)
  finish-append (e ∷ es) fs = ap (◌∷◌ e) (finish-append es fs)

  pub finish-quiet : (es : List Effect) → replies es ≡ [] → finish platform config corr es ≡ es
  unfolding finish replies
  finish-quiet [] h = refl
  finish-quiet (callback reply ∷ es) h = absurd (cc h)
  finish-quiet (e ∷ es) h = ap (◌∷◌ e) (finish-quiet es h)

module _ (platform : Platform) (require : JsString → Module) (r : RetryModule) (config : Config)
    (cache : Cache) (fresh : Fresh) (req : Request) (chunks : List (List ℕ)) where
  abbrev own : JsString
  own = (request_context fresh req).corr

  -- What the callback adds, once an update was answered by a body that is not JSON.
  heads-answered :
      (p : Parser) (d : Domain) (update : UpdateRequest) (status : ℕ) (corr : Option JsString)
      (parts : List JsString) (rest : List Attempt)
      → update_request platform config (parser p) (parsing d) ≡ ok update
      → is_truthy (join [] parts) ≡ true
      → json_parse (join [] parts) ≡ none
      → heads (
          finish platform config own (
            catch_uncaught own
              (update_context platform r config
                (parser p)
                d
                (answered status corr parts ∷ rest)).effects))
        ≡ (500, own) ∷ []
  unfolding finish catch_uncaught heads update_request
  heads-answered p d update status corr parts rest built given_ bad =
      let (s, effects) =
        update_context-answered platform r config (parser p) d update status corr parts rest
          built in
      ap (λ es. heads (finish platform config own (catch_uncaught own es))) effects
      ∙ rw
          (update_context_callback-bad_json platform config status (join [] parts)
            update.options.headers.accept given_ bad
            (get_update_request-accept platform config p (parsing d) update built))
          refl

  -- When a request is answered by 200 with a parser, the parser builds an update for the whole
  -- body, and ContextBroker answers the first attempt by a body that is neither empty nor JSON,
  -- then after the head with 200 a second head with 500 is written for the same request.
  pub serve_and_report-bad_json :
      (p : Parser) (update : UpdateRequest) (status : ℕ) (corr : Option JsString)
      (parts : List JsString) (rest : List Attempt)
      → StatusOf platform require config fresh req cache 200
      → found platform require config fresh req cache ≡ ok (parser p)
      → update_request platform config (parser p) (
          parsing (
            full_domain platform require r config cache fresh req chunks
              (answered status corr parts ∷ rest)))
        ≡ ok update
      → is_truthy (join [] parts) ≡ true
      → json_parse (join [] parts) ≡ none
      → heads (
          serve_and_report platform require r config cache fresh req chunks
            (answered status corr parts ∷ rest))
        ≡ (200, own_corr platform require config fresh req cache)
          ∷ (500, own_corr platform require config fresh req cache)
          ∷ []
  unfolding serve_and_report
  serve_and_report-bad_json p update status corr parts rest s f built given_ bad =
      let answer = (on_request platform require config fresh req cache).effects in
      let whole =
        full_domain platform require r config cache fresh req chunks
          (answered status corr parts ∷ rest) in
      let later =
        catch_uncaught own
          (update_context platform r config (parser p) whole
            (answered status corr parts ∷ rest)).effects in
      rw
        (
          serve-update platform require r config cache fresh req chunks
              (answered status corr parts ∷ rest) (parser p) s f,
          finish-append platform config own answer later,
          finish-quiet platform config own answer
              (on_request_quiet platform require config fresh req cache).1,
          heads-append answer (finish platform config own later),
          (on_request-StatusOf platform require config fresh req cache 200).1 s,
          heads-answered p whole update status corr parts rest built given_ bad,
        )
        refl

-- ===== src/Adapter/Server/Alone.antt =====
-- What serving an exchange alone does, from an empty cache and with all its events at hand.
use fiware_monitoring.Adapter.Callback.{update_context_callback}
use fiware_monitoring.Adapter.Effect.{Attempt, Effect, RetryModule, callback, error, log, uncaught}
use fiware_monitoring.Adapter.Listener.{
  Fresh, catch_uncaught, on_domain_error, on_request, request_context,
}
use fiware_monitoring.Adapter.Listener.Report.{finish-append, serve_and_report}
use fiware_monitoring.Adapter.Exchange.{
  Exchange, Origin, Stage, conclude, finish_udp, over_http, over_udp, receiving,
}
use fiware_monitoring.Adapter.Udp.{log_uncaught, udp_request_listener}
use fiware_monitoring.Base.{List, [], ap, append_assoc, refl, sym, ℕ, ◌++◌, ◌∙◌, ◌∷◌, ◌≡◌}
use fiware_monitoring.Config.{Config}
use fiware_monitoring.Js.Text.{JsString}
use fiware_monitoring.Parsers.Factory.{Cache, Module}
use fiware_monitoring.Platform.{Platform}

-- A whole exchange over UDP with the report of ContextBroker's response.
unfoldable pub udp_and_report :
    Platform
    → (JsString → Module)
    → RetryModule
    → Config
    → Cache
    → Fresh
    → List ℕ
    → JsString
    → List Attempt
    → List Effect
udp_and_report platform require retry_module config cache fresh message name outcomes =
    finish_udp platform config
      (udp_request_listener platform require retry_module config cache fresh message name
        outcomes).1

module _ (platform : Platform) (require : JsString → Module) (retry_module : RetryModule)
    (config : Config) where
  abbrev pub alone : Origin → Fresh → List (List ℕ) → List Attempt → List Effect
  alone (over_http req) fresh chunks outcomes =
      serve_and_report platform require retry_module config [] fresh req chunks outcomes
  alone (over_udp name message) fresh chunks outcomes =
      udp_and_report platform require retry_module config [] fresh message name outcomes

  -- The answer to a request.
  abbrev pub answer_alone : Origin → Fresh → List Effect
  answer_alone (over_http req) fresh = (on_request platform require config fresh req []).effects
  answer_alone (over_udp name message) fresh = []

  -- What is done for an exchange at its stage: the answer while its body comes, and then the whole.
  abbrev pub expected_at :
      Stage retry_module.Operation → Exchange retry_module.Operation → List Effect
  expected_at (receiving p) x = answer_alone x.origin x.fresh
  expected_at _ x = alone x.origin x.fresh x.chunks x.outcomes

-- The handlers of the domain distribute over sequences.
catch_uncaught-append :
    (corr : JsString) (es fs : List Effect)
    → catch_uncaught corr (es ++ fs) ≡ catch_uncaught corr es ++ catch_uncaught corr fs
unfolding catch_uncaught
catch_uncaught-append corr [] fs = refl
catch_uncaught-append corr (uncaught e ∷ es) fs =
    ap (λ gs. on_domain_error corr e ++ gs) (catch_uncaught-append corr es fs)
catch_uncaught-append corr (e ∷ es) fs = ap (◌∷◌ e) (catch_uncaught-append corr es fs)

log_uncaught-append :
    (es fs : List Effect) → log_uncaught (es ++ fs) ≡ log_uncaught es ++ log_uncaught fs
unfolding log_uncaught
log_uncaught-append [] fs = refl
log_uncaught-append (uncaught e ∷ es) fs = ap (◌∷◌ (log error e)) (log_uncaught-append es fs)
log_uncaught-append (e ∷ es) fs = ap (◌∷◌ e) (log_uncaught-append es fs)

finish_udp-append :
    (platform : Platform) (config : Config) (es fs : List Effect)
    → finish_udp platform config (es ++ fs)
      ≡ finish_udp platform config es ++ finish_udp platform config fs
unfolding finish_udp
finish_udp-append platform config [] fs = refl
finish_udp-append platform config (callback reply ∷ es) fs =
    ap (λ gs. log_uncaught (update_context_callback platform config reply) ++ gs)
      (finish_udp-append platform config es fs)
    ∙ sym (append_assoc (log_uncaught (update_context_callback platform config reply)) _ _)
finish_udp-append platform config (e ∷ es) fs = ap (◌∷◌ e) (finish_udp-append platform config es fs)

pub conclude-append :
    (platform : Platform) (config : Config) (origin : Origin) (fresh : Fresh) (es fs : List Effect)
    → conclude platform config origin fresh (es ++ fs)
      ≡ conclude platform config origin fresh es ++ conclude platform config origin fresh fs
unfolding conclude
conclude-append platform config (over_http req) fresh es fs =
    rw (catch_uncaught-append (request_context fresh req).corr es fs)
      (finish-append platform config (request_context fresh req).corr _ _)
conclude-append platform config (over_udp name message) fresh es fs =
    rw (log_uncaught-append es fs) (finish_udp-append platform config _ _)

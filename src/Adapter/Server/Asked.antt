-- ===== src/Adapter/Server/Asked.antt =====
-- What the handlers of the domain and the callback ask ContextBroker for.
use fiware_monitoring.Adapter.Callback.{report_response, update_context_callback}
use fiware_monitoring.Adapter.Effect.{Effect, Reply, callback, failed, replied, request, requests}
use fiware_monitoring.Adapter.Listener.{Fresh, catch_uncaught}
use fiware_monitoring.Adapter.Listener.Exchange.{requests-catch_uncaught}
use fiware_monitoring.Adapter.Listener.Report.{finish}
use fiware_monitoring.Adapter.Exchange.{Origin, conclude, finish_udp, over_http, over_udp}
use fiware_monitoring.Adapter.Udp.{log_uncaught}
use fiware_monitoring.Adapter.Udp.Silent.{requests-log_uncaught}
use fiware_monitoring.Adapter.Update.Attempts.{requests-append}
use fiware_monitoring.Base.{List, Result, [], ap, err, ok, refl, ℕ, ◌∙◌, ◌∷◌, ◌≡◌}
use fiware_monitoring.Config.{Config}
use fiware_monitoring.Domain.{Error}
use fiware_monitoring.Js.Json.{Json, arr, boolean, null, num, obj, str}
use fiware_monitoring.Js.Text.{JsString}
use fiware_monitoring.Platform.{Platform}

module _ (platform : Platform) (config : Config) where
  report_response-quiet :
      (status : ℕ) (body : JsString) (m : Result Error Json)
      → requests (report_response platform config status body m) ≡ []
  unfolding report_response requests
  report_response-quiet status body (err e) = refl
  report_response-quiet status body (ok null) = refl
  report_response-quiet status body (ok (boolean b)) = refl
  report_response-quiet status body (ok (num n)) = refl
  report_response-quiet status body (ok (str s)) = refl
  report_response-quiet status body (ok (arr items)) = refl
  report_response-quiet status body (ok (obj members)) = refl

  callback-quiet : (reply : Reply) → requests (update_context_callback platform config reply) ≡ []
  unfolding update_context_callback requests
  callback-quiet (failed e) = refl
  callback-quiet (replied status body content_type) = report_response-quiet status body _

  pub requests-finish :
      (corr : JsString) (es : List Effect) → requests (finish platform config corr es) ≡ requests es
  unfolding finish requests
  requests-finish corr [] = refl
  requests-finish corr (callback reply ∷ es) =
      requests-append (catch_uncaught corr (update_context_callback platform config reply)) _
      ∙ rw (requests-catch_uncaught, callback-quiet) (requests-finish corr es)
  requests-finish corr (request options body ∷ es) =
      ap (◌∷◌ (options, body)) (requests-finish corr es)
  requests-finish corr (e ∷ es) = requests-finish corr es

  pub requests-finish_udp :
      (es : List Effect) → requests (finish_udp platform config es) ≡ requests es
  unfolding finish_udp requests
  requests-finish_udp [] = refl
  requests-finish_udp (callback reply ∷ es) =
      requests-append (log_uncaught (update_context_callback platform config reply)) _
      ∙ rw (requests-log_uncaught, callback-quiet) (requests-finish_udp es)
  requests-finish_udp (request options body ∷ es) =
      ap (◌∷◌ (options, body)) (requests-finish_udp es)
  requests-finish_udp (e ∷ es) = requests-finish_udp es

  pub requests-conclude :
      (origin : Origin) (fresh : Fresh) (es : List Effect)
      → requests (conclude platform config origin fresh es) ≡ requests es
  unfolding conclude
  requests-conclude (over_http req) fresh es = requests-finish _ _ ∙ requests-catch_uncaught _ es
  requests-conclude (over_udp name message) fresh es =
      requests-finish_udp _ ∙ requests-log_uncaught es

-- ===== src/Adapter/Server/Datagrams.antt =====
-- The calls of the UDP listener, against serving a datagram alone.
use fiware_monitoring.Adapter.Effect.{Attempt, Effect, RetryModule, error, info, log}
use fiware_monitoring.Adapter.Listener.{Fresh}
use fiware_monitoring.Adapter.Server.Alone.{alone, udp_and_report}
use fiware_monitoring.Adapter.Server.Follows.{Continues, begin_update-Continues}
use fiware_monitoring.Adapter.Server.Invariant.{Follows, advance-Follows, from_start}
use fiware_monitoring.Adapter.Udp.{log_uncaught, udp_domain, udp_request_listener, udp_update}
use fiware_monitoring.Adapter.Update.{update_context}
use fiware_monitoring.Base.{List, Option, Result, [], ap, err, ok, refl, ℕ, ◌++◌, ◌∙◌, ◌∷◌, ◌≡◌}
use fiware_monitoring.Config.{Config}
use fiware_monitoring.Domain.{Error}
use fiware_monitoring.Js.Text.{JsString, codes}
use fiware_monitoring.Parsers.Factory.{Cache, Module, ParserObject, get_parser_by_name}
use fiware_monitoring.Parsers.Factory.Sound.{Sound, get_parser_by_name-Sound_result}
use fiware_monitoring.Platform.{Platform}
use fiware_monitoring.Adapter.Exchange.{
  conclude, finish_udp, open_udp, over_udp, udp_progress, udp_exchange,
}

module _ (platform : Platform) (require : JsString → Module) (retry_module : RetryModule)
    (config : Config) where
  open retry_module use {Operation}

  -- What an exchange over UDP does after its first trace, for the parser that was found or not.
  abbrev udp_run : Fresh → List ℕ → Result Error ParserObject → List Attempt → List Effect
  udp_run fresh message (err e) outcomes = log error e ∷ []
  udp_run fresh message (ok object_) outcomes =
      (update_context platform retry_module config object_ (udp_domain fresh message)
        outcomes).effects

  udp_progress-Continues :
      (fresh : Fresh) (message : List ℕ) (throw : Option Error) (found_ : Result Error ParserObject)
      → Continues platform retry_module config []
          (udp_progress platform retry_module config fresh message throw found_)
          (udp_run fresh message found_)
  unfolding udp_progress
  udp_progress-Continues fresh message throw (err e) = λ rest. refl
  udp_progress-Continues fresh message throw (ok object_) =
      begin_update-Continues platform retry_module config object_ (udp_domain fresh message) throw

  -- Serving a datagram alone.
  alone-over_udp :
      (fresh : Fresh) (name : JsString) (message : List ℕ) (outcomes : List Attempt)
      → alone platform require retry_module config (over_udp name message) fresh [] outcomes
        ≡ log info (codes "UDP request to adapt data using parser " ++ name)
          ∷ conclude platform config (over_udp name message) fresh (
              udp_run fresh message (get_parser_by_name platform require config [] name).1 outcomes)
  unfolding udp_and_report udp_request_listener conclude finish_udp
  alone-over_udp fresh name message outcomes =
      ap (◌∷◌ (log info (codes "UDP request to adapt data using parser " ++ name)))
        (cases (get_parser_by_name platform require config [] name))
    where
      cases :
          (found_ : Cache × Result Error ParserObject)
          → finish_udp platform config
              (udp_update platform retry_module config fresh message outcomes found_).1
            ≡ finish_udp platform config (log_uncaught (udp_run fresh message found_.1 outcomes))
      cases (c, err e) = unfold log_uncaught udp_update in refl
      cases (c, ok object_) = unfold udp_update in refl

  pub open_udp-Follows :
      (fresh : Fresh) (name : JsString) (message : List ℕ) (throw : Option Error) (cache : Cache)
      → Sound platform require config cache
      → Follows platform require retry_module config (
          open_udp platform retry_module config fresh name message throw
            (get_parser_by_name platform require config cache name).1)
  unfolding open_udp
  open_udp-Follows fresh name message throw cache sound =
      let found_ = (get_parser_by_name platform require config cache name).1 in
      let x = udp_exchange platform retry_module config fresh name message in
      advance-Follows platform require retry_module config x x.effects []
        (udp_progress platform retry_module config fresh message throw found_)
        (udp_run fresh message found_) (from_start platform require retry_module config x)
        (λ rest.
          alone-over_udp fresh name message rest
          ∙ rw (get_parser_by_name-Sound_result platform require config cache name sound) refl)
        (udp_progress-Continues fresh message throw found_)

-- ===== src/Adapter/Server/Moves.antt =====
-- The calls of the HTTP listener and the events of an exchange, against serving it alone.
use fiware_monitoring.Adapter.Server.Shared.{on_request-Alike}
use fiware_monitoring.Parsers.Factory.Sound.{Sound}
use fiware_monitoring.Adapter.Effect.{Attempt, RetryModule}
use fiware_monitoring.Adapter.Listener.{
  Fresh, Pending, Request, on_data, on_end, on_request, request_context, serve,
}
use fiware_monitoring.Adapter.Listener.Report.{
  finish, finish-append, finish-quiet, serve_and_report,
}
use fiware_monitoring.Adapter.Listener.Status.{on_request_quiet}
use fiware_monitoring.Adapter.Exchange.{
  Exchange, Move, advance, begin_update, body_ended, conclude, data_came, over_http, request_failed,
  response_ended, open_http, stage_of, Stage, on_error, on_response,
}
use fiware_monitoring.Adapter.Server.Alone.{alone}
use fiware_monitoring.Adapter.Server.Follows.{
  begin_update-Continues, on_error-Continues, on_response-Continues,
}
use fiware_monitoring.Adapter.Server.Invariant.{
  Follows, Receives, Waits, advance-Follows, from_start, FollowsAt,
}
use fiware_monitoring.Adapter.Update.{send, update_context}
use fiware_monitoring.Base.{
  List, Option, [], ap, append-nil, none, refl, some, sym, ℕ, ◌++◌, ◌∙◌, ◌∷◌, ◌≡◌, subst,
}
use fiware_monitoring.Config.{Config}
use fiware_monitoring.Domain.{Error}
use fiware_monitoring.Js.Text.{JsString}
use fiware_monitoring.Parsers.Factory.{Module, Cache}
use fiware_monitoring.Platform.{Platform}

module _ (platform : Platform) (require : JsString → Module) (retry_module : RetryModule)
    (config : Config) where
  open retry_module use {Operation}

  pub answer_finished :
      (req : Request) (fresh : Fresh)
      → finish platform config
          (request_context fresh req).corr
          (on_request platform require config fresh req []).effects
        ≡ (on_request platform require config fresh req []).effects
  answer_finished req fresh =
      finish-quiet platform config (request_context fresh req).corr _
        (on_request_quiet platform require config fresh req []).1

  -- Serving a request alone, once its body has ended.
  alone-pending :
      (req : Request) (fresh : Fresh) (chunks : List (List ℕ)) (outcomes : List Attempt)
      (opened : Pending)
      → (on_request platform require config fresh req []).pending ≡ some opened
      → alone platform require retry_module config (over_http req) fresh chunks outcomes
        ≡ (on_request platform require config fresh req []).effects
          ++ conclude platform config
              (over_http req)
              fresh
              (update_context platform retry_module config
                (on_data platform opened chunks).object
                (on_data platform opened chunks).reqdomain
                outcomes).effects
  unfolding serve_and_report serve on_end conclude
  alone-pending req fresh chunks outcomes opened e =
      finish-append platform config (request_context fresh req).corr
        (on_request platform require config fresh req []).effects _
      ∙ rw (answer_finished req fresh, e) refl

  -- Serving a request alone that has no parser.
  alone_refused :
      (req : Request) (fresh : Fresh) (chunks : List (List ℕ)) (outcomes : List Attempt)
      → (on_request platform require config fresh req []).pending ≡ none
      → alone platform require retry_module config (over_http req) fresh chunks outcomes
        ≡ (on_request platform require config fresh req []).effects
  unfolding serve_and_report serve on_end finish
  alone_refused req fresh chunks outcomes e =
      finish-append platform config (request_context fresh req).corr
        (on_request platform require config fresh req []).effects _
      ∙ rw (answer_finished req fresh, e) (append-nil _)

  on_data-append :
      (chunks more : List (List ℕ)) (p : Pending)
      → on_data platform p (chunks ++ more) ≡ on_data platform (on_data platform p chunks) more
  unfolding on_data
  on_data-append [] more p = refl
  on_data-append (chunk ∷ chunks) more p = on_data-append chunks more _

  -- The body has ended: the run of the update begins.
  end-Follows :
      (x : Exchange Operation) (p : Pending) (throw : Option Error)
      → Receives platform require retry_module config p x
      → Follows platform require retry_module config (
          advance platform retry_module config x
            (begin_update platform retry_module config p.object p.reqdomain throw))
  end-Follows x p throw r =
      advance-Follows platform require retry_module config x x.effects []
        (begin_update platform retry_module config p.object p.reqdomain throw)
        (λ outcomes.
          (update_context platform retry_module config p.object p.reqdomain outcomes).effects)
        (from_start platform require retry_module config x)
        (λ rest.
          rw (r.asked, r.no_outcome, r.answered_only, r.collected)
            (alone-pending r.req x.fresh x.chunks rest r.opened r.is_opened))
        (begin_update-Continues platform retry_module config p.object p.reqdomain throw)

  at_stage :
      (x : Exchange Operation) (stage : Stage Operation)
      → x.stage ≡ stage
      → Follows platform require retry_module config x
      → FollowsAt platform require retry_module config stage x
  at_stage x stage e f = subst (λ st. FollowsAt platform require retry_module config st x) e f

  pub Move-Follows :
      {x y : Exchange Operation}
      → Move platform retry_module config x y
      → Follows platform require retry_module config x
      → Follows platform require retry_module config y
  Move-Follows {x} (data_came p chunk e) f =
      let r : Receives platform require retry_module config p x = at_stage x _ e f in
      record {
        req = r.req;
        asked = r.asked;
        answered_only = r.answered_only;
        opened = r.opened;
        is_opened = r.is_opened;
        collected =
            ap (λ q. on_data platform q (chunk ∷ [])) r.collected
            ∙ sym (on_data-append x.chunks (chunk ∷ []) r.opened);
        no_outcome = r.no_outcome;
      }
  Move-Follows {x} (body_ended p throw e) f = end-Follows x p throw (at_stage x _ e f)
  Move-Follows {x} (response_ended op update context status corr parts e) f =
      let w : Waits platform require retry_module config op update context x = at_stage x _ e f in
      advance-Follows platform require retry_module config x w.before (send config update)
        (on_response platform retry_module config update status corr parts) _ w.so_far w.goes_on
        (on_response-Continues platform retry_module config w.in_try op update context status corr
          parts)
  Move-Follows {x} (request_failed op update context problem throw e) f =
      let w : Waits platform require retry_module config op update context x = at_stage x _ e f in
      advance-Follows platform require retry_module config x w.before (send config update)
        (on_error platform retry_module config op update context problem throw) _ w.so_far w.goes_on
        (on_error-Continues platform retry_module config w.in_try op update context problem throw)

  pub open_http-Follows :
      (fresh : Fresh) (req : Request) (cache : Cache)
      → Sound platform require config cache
      → Follows platform require retry_module config (
          open_http platform retry_module config fresh req
            (on_request platform require config fresh req cache))
  open_http-Follows fresh req cache sound =
      cases (on_request platform require config fresh req cache).pending refl
    where
      cases :
          (m : Option Pending)
          → (on_request platform require config fresh req cache).pending ≡ m
          → FollowsAt platform require retry_module config
              (stage_of platform retry_module config m)
              (open_http platform retry_module config fresh req
                (on_request platform require config fresh req cache))
      cases none e =
          let same = on_request-Alike platform require config fresh req cache sound in
          λ rest.
            alone_refused req fresh [] rest (sym same.pending_alike ∙ e) ∙ sym same.effects_alike
      cases (some p) e =
          let same = on_request-Alike platform require config fresh req cache sound in
          record {
            req = req;
            asked = refl;
            answered_only = same.effects_alike;
            opened = p;
            is_opened = sym same.pending_alike ∙ e;
            collected = unfold on_data in refl;
            no_outcome = refl;
          }

-- ===== src/Adapter/Server/Answered.antt =====
-- The heads of the response to a request.
use fiware_monitoring.Adapter.Effect.{Attempt, Effect, RetryModule, heads}
use fiware_monitoring.Adapter.Listener.{Fresh, Request, on_request, request_context, serve, on_end}
use fiware_monitoring.Adapter.Listener.Report.{
  finish-append, heads-append, serve_and_report, finish,
}
use fiware_monitoring.Adapter.Listener.Status.{StatusOf, on_request-Answers}
use fiware_monitoring.Adapter.Server.Alone.{alone, expected_at}
use fiware_monitoring.Adapter.Server.Isolation.{Reach-expected}
use fiware_monitoring.Adapter.Server.Moves.{answer_finished}
use fiware_monitoring.Adapter.Server.Heads.{FewErrors}
use fiware_monitoring.Adapter.Server.Emitted.{Emits, Emits-HeadsAround, HeadsAround}
use fiware_monitoring.Domain.{Error}
use fiware_monitoring.Adapter.Server.Once.{on_end-FewErrors}
use fiware_monitoring.Adapter.Update.Attempts.{replicate}
use fiware_monitoring.Base.{
  List, Memᴰ, [], ap, append-nil, arith, refl, sym, ℕ, ◌++◌, ◌∙◌, ◌∷◌, ◌≡◌, ◌≤◌,
}
use fiware_monitoring.Config.{Config}
use fiware_monitoring.Js.Text.{JsString}
use fiware_monitoring.Parsers.Factory.{Module}
use fiware_monitoring.Platform.{Platform}
use fiware_monitoring.Adapter.Exchange.{closed, Exchange, Stage, over_http, receiving, waiting}
use fiware_monitoring.Adapter.Server.{Reach, Server}

module _ (platform : Platform) (require : JsString → Module) (retry_module : RetryModule)
    (config : Config) where
  open retry_module use {Operation}

  -- What is done for a request after its answer adds one head with 500 at most.
  record AnswerFirst (req : Request) (fresh : Fresh) (es : List Effect) : Type 0 where
    more : List Effect
    few : FewErrors (request_context fresh req).corr more 1
    answer_first : es ≡ (on_request platform require config fresh req []).effects ++ more

  alone-AnswerFirst :
      (req : Request) (fresh : Fresh) (chunks : List (List ℕ)) (outcomes : List Attempt)
      → AnswerFirst req fresh
          (alone platform require retry_module config (over_http req) fresh chunks outcomes)
  unfolding serve_and_report serve
  alone-AnswerFirst req fresh chunks outcomes = record {
    more = finish platform config (request_context fresh req).corr (
        on_end platform retry_module config (request_context fresh req).corr chunks outcomes
          (on_request platform require config fresh req []).pending);
    few =
        on_end-FewErrors platform retry_module config (request_context fresh req).corr chunks
          outcomes _;
    answer_first =
        finish-append platform config (request_context fresh req).corr
          (on_request platform require config fresh req []).effects _
        ∙ rw (answer_finished platform require retry_module config req fresh) refl;
  }

  expected-AnswerFirst :
      (req : Request) (x : Exchange Operation) (stage : Stage Operation)
      → x.origin ≡ over_http req
      → AnswerFirst req x.fresh (expected_at platform require retry_module config stage x)
  unfolding heads
  expected-AnswerFirst req x (receiving p) e = record {
    more = [];
    few = record { number = 0; bounded = omega arith; all_errors = refl };
    answer_first = rw e (sym (append-nil _));
  }
  expected-AnswerFirst req x (waiting op update context) e =
      rw e (alone-AnswerFirst req x.fresh x.chunks x.outcomes)
  expected-AnswerFirst req x closed e = rw e (alone-AnswerFirst req x.fresh x.chunks x.outcomes)

  quiet_heads :
      {s : Server platform require retry_module config} {x : Exchange Operation} (req : Request)
      → Reach platform require retry_module config s
      → Memᴰ x s.exchanges
      → x.origin ≡ over_http req
      → (status : ℕ) × (number : ℕ) × StatusOf platform require config x.fresh req [] status
        × (number ≤ 1)
        × (heads x.effects
            ≡ (status, (request_context x.fresh req).corr)
              ∷ replicate number (500, (request_context x.fresh req).corr))
  quiet_heads {s} {x} req r m asked =
      let answer = on_request-Answers platform require config x.fresh req [] in
      let first = expected-AnswerFirst req x x.stage asked in
      (
        answer.status,
        first.few.number,
        answer.is_status,
        first.few.bounded,
        ap heads (Reach-expected platform require retry_module config r m ∙ first.answer_first)
            ∙ heads-append (on_request platform require config x.fresh req []).effects first.more
            ∙ rw (answer.one_head, first.few.all_errors) refl,
      )

  -- In every state that the server gets into, when events error of a request or its response came
  -- anywhere meanwhile, the heads of the response are one with the status that the method, the
  -- entity in the query and the search for the parser from an empty cache decide, and around it as
  -- many with 500 as there were such events, or one more, all with the own correlator; before it
  -- there are at most as many as there were such events.
  pub Reach-heads :
      {s : Server platform require retry_module config} {x : Exchange Operation} (req : Request)
      (errors : List Error) (fs : List Effect)
      → Reach platform require retry_module config s
      → Memᴰ x s.exchanges
      → x.origin ≡ over_http req
      → Emits (request_context x.fresh req).corr x.effects errors fs
      → (status : ℕ) × (number : ℕ) × StatusOf platform require config x.fresh req [] status
        × (number ≤ 1)
        × HeadsAround
            (request_context x.fresh req).corr
            (status, (request_context x.fresh req).corr)
            number
            errors
            fs
  Reach-heads {s} {x} req errors fs r m asked observed =
      let (status, number, is_status, bounded, shape) = quiet_heads req r m asked in
      (
        status,
        number,
        is_status,
        bounded,
        Emits-HeadsAround (request_context x.fresh req).corr _ number observed shape,
      )

-- ===== src/Adapter/Server/Once.antt =====
-- How often an update ends, and what its ends add to the answer to the request.
use fiware_monitoring.Adapter.Effect.{
  Attempt, Effect, RetryModule, answered, heads, refused, throws,
}
use fiware_monitoring.Adapter.Listener.{Pending, catch_uncaught, on_data, on_end}
use fiware_monitoring.Adapter.Listener.Report.{finish}
use fiware_monitoring.Adapter.Update.{attempt, run_update, update_context, update_request}
use fiware_monitoring.Adapter.Update.Attempts.{parsing}
use fiware_monitoring.Base.{
  Bool, Bool-cases, List, Option, Result, [], arith, err, false, inl, inr, none, ok, refl, some,
  true, ℕ, ◌∷◌, ◌≡◌, ◌≤◌,
}
use fiware_monitoring.Config.{Config}
use fiware_monitoring.Domain.{Context, Domain, Error}
use fiware_monitoring.Js.Text.{JsString}
use fiware_monitoring.Parsers.BaseParser.{UpdateRequest}
use fiware_monitoring.Parsers.Factory.{ParserObject}
use fiware_monitoring.Platform.{Platform}
use fiware_monitoring.Adapter.Server.Heads.{FewErrors, ends, finish-FewErrors}

module _ (platform : Platform) (r : RetryModule) (config : Config) where
  -- An update writes no head, and ends once at most.
  record EndsOnce (es : List Effect) : Type 0 where
    pub no_head : heads es ≡ []
    pub one_end : ends es ≤ 1

  attempt-EndsOnce :
      (outcomes : List Attempt) (in_try : Bool) (op : r.Operation) (update : UpdateRequest)
      (context : Context)
      → EndsOnce (attempt platform r config in_try op update context outcomes).effects
  unfolding attempt heads ends
  attempt-EndsOnce [] in_try op update context = record { no_head = refl; one_end = omega arith }
  attempt-EndsOnce (answered status corr parts ∷ outcomes) in_try op update context = record {
    no_head = refl;
    one_end = omega arith;
  }
  attempt-EndsOnce (throws e ∷ outcomes) true op update context = record {
    no_head = refl;
    one_end = omega arith;
  }
  attempt-EndsOnce (throws e ∷ outcomes) false op update context = record {
    no_head = refl;
    one_end = omega arith;
  }
  attempt-EndsOnce (refused e ∷ outcomes) in_try op update context =
      let again = attempt-EndsOnce outcomes false (r.retry op e).1 update context in
      elim (Bool-cases (r.retry op e).0) [
        | inl yes_ ↦ record { no_head = rw yes_ again.no_head; one_end = rw yes_ again.one_end }
        | inr no_ ↦ record { no_head = rw no_ refl; one_end = rw no_ (omega arith) }
      ]

  run_update-EndsOnce :
      (context : Context) (outcomes : List Attempt) (m : Result Error UpdateRequest)
      → EndsOnce (run_update platform r config context outcomes m).effects
  unfolding run_update heads ends
  run_update-EndsOnce context outcomes (err e) = record { no_head = refl; one_end = omega arith }
  run_update-EndsOnce context outcomes (ok update) = attempt-EndsOnce outcomes true _ update _

  update_context-EndsOnce :
      (object_ : ParserObject) (reqdomain : Domain) (outcomes : List Attempt)
      → EndsOnce (update_context platform r config object_ reqdomain outcomes).effects
  unfolding update_context heads ends
  update_context-EndsOnce object_ reqdomain outcomes =
      let run =
        run_update-EndsOnce (parsing reqdomain).context outcomes
          (update_request platform config object_ (parsing reqdomain)) in
      record { no_head = run.no_head; one_end = run.one_end }

  -- The errors of a whole update add one head at most.
  update_context-FewErrors :
      (corr : JsString) (object_ : ParserObject) (reqdomain : Domain) (outcomes : List Attempt)
      → FewErrors corr
          (finish platform config corr (
            catch_uncaught corr
              (update_context platform r config object_ reqdomain outcomes).effects))
          1
  update_context-FewErrors corr object_ reqdomain outcomes =
      let once = update_context-EndsOnce object_ reqdomain outcomes in
      let few = finish-FewErrors platform config corr _ once.no_head in
      record {
        number = few.number;
        bounded = omega (arith, few.bounded, once.one_end);
        all_errors = few.all_errors;
      }

  pub on_end-FewErrors :
      (corr : JsString) (chunks : List (List ℕ)) (outcomes : List Attempt)
      (pending : Option Pending)
      → FewErrors corr
          (finish platform config corr (on_end platform r config corr chunks outcomes pending))
          1
  unfolding on_end finish heads
  on_end-FewErrors corr chunks outcomes none = record {
    number = 0;
    bounded = omega arith;
    all_errors = refl;
  }
  on_end-FewErrors corr chunks outcomes (some p) =
      let q = on_data platform p chunks in
      let few = update_context-FewErrors corr q.object q.reqdomain outcomes in
      record { number = few.number; bounded = few.bounded; all_errors = few.all_errors }

-- ===== src/Adapter/Server/Follows.antt =====
-- How the events of one exchange go on with what serving it alone does: the effects of its attempts come one event
-- at a time.
use fiware_monitoring.Adapter.Effect.{
  Attempt, Effect, RetryModule, refused, callback, failed, debug, log,
}
use fiware_monitoring.Adapter.Update.{
  attempt, run_update, send, temporary, update_context, update_request, body_text,
}
use fiware_monitoring.Adapter.Update.Attempts.{parsing}
use fiware_monitoring.Base.{
  Bool, Bool-cases, List, Option, Result, [], ap, append_assoc, err, false, inl, inr, none, ok,
  refl, some, sym, true, ℕ, ◌++◌, ◌∙◌, ◌∷◌, ◌≡◌,
}
use fiware_monitoring.Config.{Config}
use fiware_monitoring.Domain.{Context, Domain, Error}
use fiware_monitoring.Js.Text.{JsString, codes}
use fiware_monitoring.Parsers.BaseParser.{UpdateRequest}
use fiware_monitoring.Parsers.Factory.{ParserObject}
use fiware_monitoring.Platform.{Platform}
use fiware_monitoring.Adapter.Exchange.{
  closed, Progress, Stage, begin_update, launch, launch_first, on_error, on_response, receiving,
  waiting,
}

module _ (platform : Platform) (retry_module : RetryModule) (config : Config) where
  open retry_module use {Operation, operation, retry}

  abbrev tried : Bool → Operation → UpdateRequest → Context → List Attempt → List Effect
  tried in_try op update context outcomes =
      (attempt platform retry_module config in_try op update context outcomes).effects

  -- The last attempt of a run waits for its outcome.
  pub record Awaits (op : Operation) (update : UpdateRequest) (context : Context)
      (effects : List Effect) (outcomes : List Attempt) (run : List Attempt → List Effect)
      : Type 0 where
    pub before : List Effect
    pub in_try : Bool
    pub so_far : effects ≡ before ++ send config update
    pub goes_on :
        (rest : List Attempt)
        → run (outcomes ++ rest) ≡ before ++ tried in_try op update context rest

  -- The effects and the outcomes up to a stage are the start of a run on outcomes, and the stage
  -- gives the rest of it.
  abbrev pub ContinuesAt :
      Stage Operation → List Effect → List Attempt → (List Attempt → List Effect) → Type 0
  ContinuesAt (receiving p) effects outcomes run = ⊥
  ContinuesAt (waiting op update context) effects outcomes run =
      Awaits op update context effects outcomes run
  ContinuesAt closed effects outcomes run = (rest : List Attempt) → run (outcomes ++ rest) ≡ effects

  abbrev pub Continues : List Effect → Progress Operation → (List Attempt → List Effect) → Type 0
  Continues earlier p run = ContinuesAt p.stage (earlier ++ p.effects) p.outcomes run

  launch-Continues :
      (in_try : Bool) (op : Operation) (update : UpdateRequest) (context : Context)
      (start : Option Error)
      → Continues []
          (launch platform retry_module config in_try op update context start)
          (tried in_try op update context)
  unfolding launch attempt
  launch-Continues in_try op update context none = record {
    before = [];
    in_try = in_try;
    so_far = refl;
    goes_on = λ rest. refl;
  }
  launch-Continues in_try op update context (some e) = λ rest. refl

  -- What comes before a run.
  Continues-after :
      (stage : Stage Operation) (lead effects : List Effect) (outcomes : List Attempt)
      (run : List Attempt → List Effect)
      → ContinuesAt stage effects outcomes run
      → ContinuesAt stage (lead ++ effects) outcomes (λ os. lead ++ run os)
  Continues-after (receiving p) lead effects outcomes run h = h
  Continues-after (waiting op update context) lead effects outcomes run a = record {
    before = lead ++ a.before;
    in_try = a.in_try;
    so_far = ap (◌++◌ lead) a.so_far ∙ sym (append_assoc lead a.before _);
    goes_on = λ rest. ap (◌++◌ lead) (a.goes_on rest) ∙ sym (append_assoc lead a.before _);
  }
  Continues-after closed lead effects outcomes run h = λ rest. ap (◌++◌ lead) (h rest)

  -- The same for a run that has one outcome more.
  Continues-cons :
      (stage : Stage Operation) (effects : List Effect) (outcomes : List Attempt)
      (run run' : List Attempt → List Effect) (outcome : Attempt)
      → ((os : List Attempt) → run' (outcome ∷ os) ≡ run os)
      → ContinuesAt stage effects outcomes run
      → ContinuesAt stage effects (outcome ∷ outcomes) run'
  Continues-cons (receiving p) effects outcomes run run' outcome same h = h
  Continues-cons (waiting op update context) effects outcomes run run' outcome same a = record {
    before = a.before;
    in_try = a.in_try;
    so_far = a.so_far;
    goes_on = λ rest. same (outcomes ++ rest) ∙ a.goes_on rest;
  }
  Continues-cons closed effects outcomes run run' outcome same h =
      λ rest. same (outcomes ++ rest) ∙ h rest

  launch_first-Continues :
      (context : Context) (m : Result Error UpdateRequest) (throw : Option Error)
      → Continues []
          (launch_first platform retry_module config context m throw)
          (λ outcomes. (run_update platform retry_module config context outcomes m).effects)
  unfolding launch_first run_update
  launch_first-Continues context (err e) throw = λ rest. refl
  launch_first-Continues context (ok update) throw = launch-Continues true _ update _ throw

  -- The start of an update.
  pub begin_update-Continues :
      (object_ : ParserObject) (reqdomain : Domain) (throw : Option Error)
      → Continues []
          (begin_update platform retry_module config object_ reqdomain throw)
          (λ outcomes.
            (update_context platform retry_module config object_ reqdomain outcomes).effects)
  unfolding begin_update update_context
  begin_update-Continues object_ reqdomain throw =
      Continues-after _
        (log debug (codes "Probe data \"" ++ (body_text platform reqdomain.body ++ codes "\""))
          ∷ [])
        _ _ _
        (launch_first-Continues (parsing reqdomain).context
          (update_request platform config object_ (parsing reqdomain)) throw)

  -- A response, after the attempt that it answers.
  pub on_response-Continues :
      (in_try : Bool) (op : Operation) (update : UpdateRequest) (context : Context) (status : ℕ)
      (corr : Option JsString) (parts : List JsString)
      → Continues
          (send config update)
          (on_response platform retry_module config update status corr parts)
          (tried in_try op update context)
  unfolding attempt
  on_response-Continues in_try op update context status corr parts = λ rest. refl

  -- An error after which the operation retries.
  tried-refused :
      (in_try : Bool) (op : Operation) (update : UpdateRequest) (context : Context) (e : Error)
      (os : List Attempt)
      → (retry op e).0 ≡ true
      → (attempt platform retry_module config in_try op update context (refused e ∷ os)).effects
        ≡ (send config update ++ (temporary e ∷ []))
          ++ (attempt platform retry_module config false (retry op e).1 update context os).effects
  unfolding attempt
  tried-refused in_try op update context e os again = rw again refl

  tried_failed :
      (in_try : Bool) (op : Operation) (update : UpdateRequest) (context : Context) (e : Error)
      (os : List Attempt)
      → (retry op e).0 ≡ false
      → (attempt platform retry_module config in_try op update context (refused e ∷ os)).effects
        ≡ send config update ++ (callback (failed e) ∷ [])
  unfolding attempt
  tried_failed in_try op update context e os never = rw never refl

  pub on_error-Continues :
      (in_try : Bool) (op : Operation) (update : UpdateRequest) (context : Context) (e : Error)
      (throw : Option Error)
      → Continues
          (send config update)
          (on_error platform retry_module config op update context e throw)
          (tried in_try op update context)
  unfolding on_error
  on_error-Continues in_try op update context e throw = elim (Bool-cases (retry op e).0) [
    | inl again ↦ rw again (
        Continues-cons _ _ _
          (λ os.
            (send config update ++ (temporary e ∷ []))
            ++ tried false (retry op e).1 update context os)
          _ (refused e) (λ os. tried-refused in_try op update context e os again)
          (Continues-after _ (send config update ++ (temporary e ∷ [])) _ _ _
            (launch-Continues false (retry op e).1 update context throw)))
    | inr never ↦ rw never (λ rest. tried_failed in_try op update context e rest never)
  ]

-- ===== src/Adapter/Update/Retries.antt =====
-- How the retries of `updateContext` end.
use fiware_monitoring.Adapter.Effect.{
  Attempt, CountsRetries, RetryModule, answered, refused, replied, replies, requests, throws,
}
use fiware_monitoring.Adapter.Update.{update_context, update_request}
use fiware_monitoring.Adapter.Update.Attempts.{
  parsing, replicate, report, sent, update_context-report, update_context_failed,
}
use fiware_monitoring.Base.{
  All, Bool, List, Option, Result-cases, [], ap, arith, false, inl, inr, length, ok, refl, suc,
  true, zero, ℕ, ◌<◌, ◌∙◌, ◌∷◌, ◌≡◌, ◌≤◌,
}
use fiware_monitoring.Config.{Config}
use fiware_monitoring.Domain.{Domain, Error}
use fiware_monitoring.Js.Text.{JsString, join}
use fiware_monitoring.Parsers.BaseParser.{UpdateRequest}
use fiware_monitoring.Parsers.Factory.{ParserObject}
use fiware_monitoring.Platform.{Platform}

-- The number of requests never exceeds the first one and the retries.
pub sent-le : (k : ℕ) (outcomes : List Attempt) → sent k outcomes ≤ suc k
sent-le k [] = omega arith
sent-le k (answered status corr chunks ∷ outcomes) = omega arith
sent-le zero (refused e ∷ outcomes) = omega arith
sent-le (suc k) (refused e ∷ outcomes) = omega (arith, sent-le k outcomes)
sent-le k (throws e ∷ outcomes) = omega arith

-- Errors, and then a response.
abbrev pub errors_then : List Error → Attempt → List Attempt → List Attempt
errors_then [] a rest = a ∷ rest
errors_then (e ∷ es) a rest = refused e ∷ errors_then es a rest

sent-errors_then :
    (es : List Error) (k status : ℕ) (corr : Option JsString) (chunks : List JsString)
    (rest : List Attempt)
    → length es ≤ k
    → sent k (errors_then es (answered status corr chunks) rest) ≡ suc (length es)
sent-errors_then [] k status corr chunks rest h = refl
sent-errors_then (e ∷ es) zero status corr chunks rest h = absurd (omega arith)
sent-errors_then (e ∷ es) (suc k) status corr chunks rest h =
    ap suc (sent-errors_then es k status corr chunks rest (omega arith))

report-errors_then :
    (es : List Error) (in_try : Bool) (content_type : JsString) (k status : ℕ)
    (corr : Option JsString) (chunks : List JsString) (rest : List Attempt)
    → length es ≤ k
    → report in_try content_type k (errors_then es (answered status corr chunks) rest)
      ≡ replied status (join [] chunks) content_type ∷ []
report-errors_then [] in_try content_type k status corr chunks rest h = refl
report-errors_then (e ∷ es) in_try content_type zero status corr chunks rest h =
    absurd (omega arith)
report-errors_then (e ∷ es) in_try content_type (suc k) status corr chunks rest h =
    report-errors_then es false content_type k status corr chunks rest (omega arith)

-- An event `error`, not an exception.
abbrev pub IsAnswerOrError : Attempt → Type 0
IsAnswerOrError (throws e) = ⊥
IsAnswerOrError _ = Unit

report_once :
    (outcomes : List Attempt) (in_try : Bool) (content_type : JsString) (k : ℕ)
    → All IsAnswerOrError outcomes
    → k < length outcomes
    → length (report in_try content_type k outcomes) ≡ 1
report_once [] in_try content_type k h lt = absurd (omega arith)
report_once (answered status corr chunks ∷ outcomes) in_try content_type k h lt = refl
report_once (refused e ∷ outcomes) in_try content_type zero h lt = refl
report_once (refused e ∷ outcomes) in_try content_type (suc k) h lt =
    report_once outcomes false content_type k h.1 (omega arith)
report_once (throws e ∷ outcomes) in_try content_type k h lt = absurd h.0

length-replicate {ℓ} : {A : Type ℓ} (n : ℕ) (a : A) → length (replicate n a) ≡ n
length-replicate zero a = refl
length-replicate (suc n) a = ap suc (length-replicate n a)

module _ (platform : Platform) (r : RetryModule) (counts : CountsRetries r) (config : Config) where
  -- When a parser builds an update, at most as many attempts fail as there are retries and then
  -- ContextBroker answers, the update is sent once more than attempts failed and that answer alone
  -- is reported.
  pub update_context_recovers :
      (object : ParserObject) (reqdomain : Domain) (update : UpdateRequest) (es : List Error)
      (status : ℕ) (corr : Option JsString) (chunks : List JsString) (rest : List Attempt)
      → update_request platform config object (parsing reqdomain) ≡ ok update
      → length es ≤ config.retries
      → (requests
            (update_context platform r config object reqdomain
              (errors_then es (answered status corr chunks) rest)).effects
          ≡ replicate (suc (length es)) (update.options, update.body))
        × (replies
              (update_context platform r config object reqdomain
                (errors_then es (answered status corr chunks) rest)).effects
            ≡ replied status (join [] chunks) update.options.headers.accept ∷ [])
  update_context_recovers object reqdomain update es status corr chunks rest h le =
      let (sends, reports) =
        update_context-report platform r counts config object reqdomain _ update h in
      (
        sends
            ∙ ap (λ n. replicate n (update.options, update.body))
                (sent-errors_then es config.retries status corr chunks rest le),
        reports ∙ report-errors_then es true _ config.retries status corr chunks rest le,
      )

  -- However ContextBroker behaves, a request is sent at most once more than there are retries.
  pub update_context_bound :
      (object : ParserObject) (reqdomain : Domain) (outcomes : List Attempt)
      → length (requests (update_context platform r config object reqdomain outcomes).effects)
        ≤ suc config.retries
  update_context_bound object reqdomain outcomes =
      elim (Result-cases (update_request platform config object (parsing reqdomain))) [
        | inl (update, h) ↦
            rw
              (
                (update_context-report platform r counts config object reqdomain outcomes update
                    h).0,
                length-replicate,
              )
              (sent-le config.retries outcomes)
        | inr (e, h) ↦
            rw (update_context_failed platform r config object reqdomain outcomes e h).0
              (omega arith)
      ]

  -- Once more attempts than retries have ended by a response or an error event, the callback of
  -- updateContext has been called exactly once, whatever the parser did.
  pub update_context_reports_once :
      (object : ParserObject) (reqdomain : Domain) (outcomes : List Attempt)
      → All IsAnswerOrError outcomes
      → config.retries < length outcomes
      → length (replies (update_context platform r config object reqdomain outcomes).effects) ≡ 1
  update_context_reports_once object reqdomain outcomes all lt =
      elim (Result-cases (update_request platform config object (parsing reqdomain))) [
        | inl (update, h) ↦
            rw (update_context-report platform r counts config object reqdomain outcomes update h).1
              (report_once outcomes true _ config.retries all lt)
        | inr (e, h) ↦
            rw (update_context_failed platform r config object reqdomain outcomes e h).1 refl
      ]

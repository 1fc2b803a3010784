-- ===== src/Adapter/Update/Attempts.antt =====
-- How often `updateContext` asks ContextBroker, and what it reports.
use fiware_monitoring.Parsers.Factory.{ParserObject}
use fiware_monitoring.Adapter.Effect.{
  Attempt, CountsRetries, Effect, Reply, RetryModule, answered, callback, failed, refused, replied,
  replies, request, requests, throws, debug, log,
}
use fiware_monitoring.Adapter.Update.{
  attempt, run_update, update_context, update_request, send, body_text,
}
use fiware_monitoring.Base.{
  Bool, List, [], ap, false, if◌then◌else◌, refl, suc, true, zero, ℕ, ◌++◌, ◌∷◌, ◌≡◌, err, ok,
  Result, ◌≢◌, Option,
}
use fiware_monitoring.Config.{Config}
use fiware_monitoring.Domain.{Context, Domain, Error}
use fiware_monitoring.Js.Text.{JsString, join, codes}
use fiware_monitoring.Parsers.BaseParser.{UpdateRequest}
use fiware_monitoring.Platform.{Platform}

-- The requests among effects distribute over sequences.
pub requests-append : (es fs : List Effect) → requests (es ++ fs) ≡ requests es ++ requests fs
unfolding requests
requests-append [] fs = refl
requests-append (request options body ∷ es) fs = ap (◌∷◌ (options, body)) (requests-append es fs)
requests-append (e ∷ es) fs = requests-append es fs

pub replies-append : (es fs : List Effect) → replies (es ++ fs) ≡ replies es ++ replies fs
unfolding replies
replies-append [] fs = refl
replies-append (callback reply ∷ es) fs = ap (◌∷◌ reply) (replies-append es fs)
replies-append (e ∷ es) fs = replies-append es fs

-- The number of requests that are sent, with `k` retries left.
abbrev pub sent : ℕ → List Attempt → ℕ
sent k [] = 1
sent k (answered status corr chunks ∷ outcomes) = 1
sent zero (refused e ∷ outcomes) = 1
sent (suc k) (refused e ∷ outcomes) = suc (sent k outcomes)
sent k (throws e ∷ outcomes) = 0

-- The report, once there is one: the first response, or the error after which no retry is left.
abbrev pub report : Bool → JsString → ℕ → List Attempt → List Reply
report in_try content_type k [] = []
report in_try content_type k (answered status corr chunks ∷ outcomes) =
    replied status (join [] chunks) content_type ∷ []
report in_try content_type zero (refused e ∷ outcomes) = failed e ∷ []
report in_try content_type (suc k) (refused e ∷ outcomes) = report false content_type k outcomes
report in_try content_type k (throws e ∷ outcomes) = if in_try then failed e ∷ [] else []

abbrev pub replicate {ℓ} : {A : Type ℓ} → ℕ → A → List A
replicate zero a = []
replicate (suc n) a = a ∷ replicate n a

-- The domain while it is parsed.
abbrev pub parsing : Domain → Domain
parsing reqdomain = record reqdomain { context = record reqdomain.context { op = codes "Parse" } }

module _ (platform : Platform) (r : RetryModule) (config : Config) where
  -- When the parser builds no update, ContextBroker is not asked and the error alone is reported.
  pub update_context_failed :
      (object : ParserObject) (reqdomain : Domain) (outcomes : List Attempt) (e : Error)
      → update_request platform config object (parsing reqdomain) ≡ err e
      → (requests (update_context platform r config object reqdomain outcomes).effects ≡ [])
        × (replies (update_context platform r config object reqdomain outcomes).effects
            ≡ failed e ∷ [])
  unfolding update_context run_update requests replies
  update_context_failed object reqdomain outcomes e h = (rw h refl, rw h refl)

  pub update_context_no_request :
      (object : ParserObject) (reqdomain : Domain) (outcomes : List Attempt)
      → ((u : UpdateRequest) → update_request platform config object (parsing reqdomain) ≢ ok u)
      → requests (update_context platform r config object reqdomain outcomes).effects ≡ []
  update_context_no_request object reqdomain outcomes never =
      cases (update_request platform config object (parsing reqdomain)) refl
    where
      cases :
          (m : Result Error UpdateRequest)
          → update_request platform config object (parsing reqdomain) ≡ m
          → requests (update_context platform r config object reqdomain outcomes).effects ≡ []
      cases (ok u) e = absurd (never u e)
      cases (err m) e = (update_context_failed object reqdomain outcomes m e).0

  -- With an answer to the first attempt, the callback is called at once.
  pub update_context-answered :
      (object : ParserObject) (reqdomain : Domain) (update : UpdateRequest) (status : ℕ)
      (corr : Option JsString) (chunks : List JsString) (rest : List Attempt)
      → update_request platform config object (parsing reqdomain) ≡ ok update
      → (s : JsString) × ((update_context platform r config object reqdomain
            (answered status corr chunks ∷ rest)).effects
          ≡ log debug s
            ∷ (send config update
                ++ (callback (replied status (join [] chunks) update.options.headers.accept) ∷ [])))
  unfolding update_context run_update attempt
  update_context-answered object reqdomain update status corr chunks rest h =
      (codes "Probe data \"" ++ (body_text platform reqdomain.body ++ codes "\""), rw h refl)

module _ (platform : Platform) (r : RetryModule) (counts : CountsRetries r) (config : Config) where
  attempt-requests :
      (outcomes : List Attempt) (k : ℕ) (in_try : Bool) (op : r.Operation) (update : UpdateRequest)
      (context : Context)
      → counts.left op ≡ k
      → requests (attempt platform r config in_try op update context outcomes).effects
        ≡ replicate (sent k outcomes) (update.options, update.body)
  unfolding attempt requests
  attempt-requests [] k in_try op update context h = refl
  attempt-requests (answered status corr chunks ∷ outcomes) k in_try op update context h = refl
  attempt-requests (refused e ∷ outcomes) zero in_try op update context h =
      rw (counts.retry_none op e h) refl
  attempt-requests (refused e ∷ outcomes) (suc k) in_try op update context h =
      let (again, left) = counts.retry_some op e k h in
      rw again (
        ap (◌∷◌ (update.options, update.body))
          (attempt-requests outcomes k false (r.retry op e).1 update context left))
  attempt-requests (throws e ∷ outcomes) k true op update context h = refl
  attempt-requests (throws e ∷ outcomes) k false op update context h = refl

  attempt-replies :
      (outcomes : List Attempt) (k : ℕ) (in_try : Bool) (op : r.Operation) (update : UpdateRequest)
      (context : Context)
      → counts.left op ≡ k
      → replies (attempt platform r config in_try op update context outcomes).effects
        ≡ report in_try update.options.headers.accept k outcomes
  unfolding attempt replies
  attempt-replies [] k in_try op update context h = refl
  attempt-replies (answered status corr chunks ∷ outcomes) k in_try op update context h = refl
  attempt-replies (refused e ∷ outcomes) zero in_try op update context h =
      rw (counts.retry_none op e h) refl
  attempt-replies (refused e ∷ outcomes) (suc k) in_try op update context h =
      let (again, left) = counts.retry_some op e k h in
      rw again (attempt-replies outcomes k false (r.retry op e).1 update context left)
  attempt-replies (throws e ∷ outcomes) k true op update context h = refl
  attempt-replies (throws e ∷ outcomes) k false op update context h = refl

  -- When a parser builds an update, updateContext sends that very request once and once more after
  -- each error event while retries are left, and reports exactly the first response, or the error
  -- after which no retry is left.
  pub update_context-report :
      (object : ParserObject) (reqdomain : Domain) (outcomes : List Attempt)
      (update : UpdateRequest)
      → update_request platform config object (parsing reqdomain) ≡ ok update
      → (requests (update_context platform r config object reqdomain outcomes).effects
          ≡ replicate (sent config.retries outcomes) (update.options, update.body))
        × (replies (update_context platform r config object reqdomain outcomes).effects
            ≡ report true update.options.headers.accept config.retries outcomes)
  unfolding update_context run_update requests replies
  update_context-report object reqdomain outcomes update h =
      let start = counts.left-operation config.retries in
      (
        rw h (attempt-requests outcomes config.retries true _ update _ start),
        rw h (attempt-replies outcomes config.retries true _ update _ start),
      )

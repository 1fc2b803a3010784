-- ===== src/Adapter/Effect.antt =====
-- The effects of the handlers of ngsi_adapter/lib/adapter.js.
use fiware_monitoring.Base.{Bool, List, Option, [], false, suc, true, ℕ, ◌∷◌, ◌≡◌}
use fiware_monitoring.Domain.{Error}
use fiware_monitoring.Js.Text.{JsString}
use fiware_monitoring.Parsers.BaseParser.{RequestOptions}

pub data Level : Type 0 where
  debug info warn error : Level

-- The arguments of `updateContextCallback`: an error, or the status, the body and the content type
-- of ContextBroker's response.
pub data Reply : Type 0 where
  failed : Error → Reply
  replied : ℕ → JsString → JsString → Reply

-- `uncaught` is an exception that reaches the event `error` of the request's domain.
pub data Effect : Type 0 where
  log : Level → JsString → Effect
  write_head : ℕ → JsString → Effect
  end_response : Effect
  request : RequestOptions → JsString → Effect
  callback : Reply → Effect
  uncaught : Error → Effect

-- What ContextBroker's side does with one attempt: an event `error`, a response with its status,
-- its correlator and the chunks of its body, or an exception of `http.request` itself.
pub data Attempt : Type 0 where
  refused : Error → Attempt
  answered : ℕ → Option JsString → List JsString → Attempt
  throws : Error → Attempt

-- The requests to ContextBroker among effects.
unfoldable pub requests : List Effect → List (RequestOptions × JsString)
requests [] = []
requests (request options body ∷ es) = (options, body) ∷ requests es
requests (_ ∷ es) = requests es

-- The calls of the callback.
unfoldable pub replies : List Effect → List Reply
replies [] = []
replies (callback reply ∷ es) = reply ∷ replies es
replies (_ ∷ es) = replies es

-- The heads of responses.
unfoldable pub heads : List Effect → List (ℕ × JsString)
heads [] = []
heads (write_head status corr ∷ es) = (status, corr) ∷ heads es
heads (_ ∷ es) = heads es

-- The module `retry`, as it is used: an operation with a number of retries, and the method that
-- asks for another attempt after an error.
pub record RetryModule : Type 1 where
  pub Operation : Type 0
  pub operation : ℕ → Operation
  pub retry : Operation → Error → Bool × Operation

-- Its documentation: `retry` returns false when the maximum amount of retries has been reached, and
-- otherwise true, and counts one retry.
pub record CountsRetries (r : RetryModule) : Type 0 where
  pub left : r.Operation → ℕ
  pub left-operation : (n : ℕ) → left (r.operation n) ≡ n
  pub retry_none : (o : r.Operation) (e : Error) → left o ≡ 0 → (r.retry o e).0 ≡ false
  pub retry_some :
      (o : r.Operation) (e : Error) (k : ℕ)
      → left o ≡ suc k
      → ((r.retry o e).0 ≡ true) × (left (r.retry o e).1 ≡ k)

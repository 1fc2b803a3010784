-- ===== src/Adapter/Server/Budget.antt =====
-- How often an exchange asks ContextBroker, and how it ends.
use fiware_monitoring.Adapter.Update.Attempts.{parsing}
use fiware_monitoring.Adapter.Effect.{CountsRetries, RetryModule, requests}
use fiware_monitoring.Base.{
  Bool, Bool-cases, Option, Result, arith, err, false, inl, inr, length, none, ok, some, suc, true,
  ℕ, ◌+◌, ◌≡◌, ◌≤◌, List, refl, subst, zero,
}
use fiware_monitoring.Config.{Config}
use fiware_monitoring.Domain.{Context, Domain, Error}
use fiware_monitoring.Js.Text.{JsString}
use fiware_monitoring.Parsers.BaseParser.{UpdateRequest}
use fiware_monitoring.Parsers.Factory.{ParserObject}
use fiware_monitoring.Platform.{Platform}
use fiware_monitoring.Adapter.Exchange.{
  closed, Exchange, Stage, begin_update, launch, launch_first, on_error, receiving, waiting,
  on_response,
}

module _ (platform : Platform) (retry_module : RetryModule) (counts : CountsRetries retry_module)
    (config : Config) where
  open retry_module use {Operation, operation, retry}

  -- `n` outcomes, after `sent_` requests.
  abbrev pub WithinAt : Stage Operation → ℕ → ℕ → Type 0
  WithinAt (receiving p) n sent_ = (n ≡ 0) × (sent_ ≡ 0)
  WithinAt (waiting op update context) n sent_ =
      (n + counts.left op ≡ config.retries) × (sent_ ≤ suc n)
  WithinAt closed n sent_ = (n ≤ suc config.retries) × (sent_ ≤ n)

  abbrev pub Within : Exchange Operation → Type 0
  Within x = WithinAt x.stage (length x.outcomes) (length (requests x.effects))

  -- An attempt after `n` outcomes that leaves as many retries as there are.
  launch-Within :
      (in_try : Bool) (op : Operation) (update : UpdateRequest) (context : Context)
      (throw : Option Error) (n sent_ : ℕ)
      → n + counts.left op ≡ config.retries
      → sent_ ≤ n
      → let p = launch platform retry_module config in_try op update context throw in
        WithinAt p.stage (n + length p.outcomes) (sent_ + length (requests p.effects))
  unfolding launch requests
  launch-Within in_try op update context none n sent_ e le = (omega arith, omega arith)
  launch-Within true op update context (some error_) n sent_ e le = (omega arith, omega arith)
  launch-Within false op update context (some error_) n sent_ e le = (omega arith, omega arith)

  launch_first-Within :
      (context : Context) (m : Result Error UpdateRequest) (throw : Option Error) (n sent_ : ℕ)
      → n ≡ 0
      → sent_ ≡ 0
      → let p = launch_first platform retry_module config context m throw in
        WithinAt p.stage (n + length p.outcomes) (sent_ + length (requests p.effects))
  unfolding launch_first requests
  launch_first-Within context (err e) throw n sent_ hn hs = (omega arith, omega arith)
  launch_first-Within context (ok update) throw n sent_ hn hs =
      launch-Within true (operation config.retries) update _ throw n sent_
        (omega (arith, counts.left-operation config.retries)) (omega arith)

  pub begin_update-Within :
      (object_ : ParserObject) (reqdomain : Domain) (throw : Option Error) (n sent_ : ℕ)
      → n ≡ 0
      → sent_ ≡ 0
      → let p = begin_update platform retry_module config object_ reqdomain throw in
        WithinAt p.stage (n + length p.outcomes) (sent_ + length (requests p.effects))
  unfolding begin_update requests
  begin_update-Within object_ reqdomain throw n sent_ =
      launch_first-Within (parsing reqdomain).context _ throw n sent_

  pub on_response-Within :
      (update : UpdateRequest) (status : ℕ) (corr : Option JsString) (parts : List JsString)
      (n sent_ left_ : ℕ)
      → n + left_ ≡ config.retries
      → sent_ ≤ suc n
      → let p = on_response platform retry_module config update status corr parts in
        WithinAt p.stage (n + length p.outcomes) (sent_ + length (requests p.effects))
  unfolding requests
  on_response-Within update status corr parts n sent_ left_ b le = (omega arith, omega arith)

  pub on_error-Within :
      (op : Operation) (update : UpdateRequest) (context : Context) (e : Error)
      (throw : Option Error) (n sent_ : ℕ)
      → n + counts.left op ≡ config.retries
      → sent_ ≤ suc n
      → let p = on_error platform retry_module config op update context e throw in
        WithinAt p.stage (n + length p.outcomes) (sent_ + length (requests p.effects))
  unfolding on_error requests
  on_error-Within op update context e throw n sent_ b le = elim (Bool-cases (retry op e).0) [
    | inr never ↦ rw never (omega arith, omega arith)
    | inl again ↦
        let (k, has_one, less) = retries_left again in
        let p = launch platform retry_module config false (retry op e).1 update context throw in
        rw again (
          subst (λ m. WithinAt p.stage m (sent_ + length (requests p.effects))) (omega arith)
            (launch-Within false (retry op e).1 update context throw (suc n) sent_ (omega arith)
              le))
  ]
    where
      cases :
          (m : ℕ)
          → counts.left op ≡ m
          → (retry op e).0 ≡ true
          → (k : ℕ) × (counts.left op ≡ suc k) × (counts.left (retry op e).1 ≡ k)
      cases zero h again = absurd (cc (again, counts.retry_none op e h))
      cases (suc k) h again = (k, h, (counts.retry_some op e k h).1)

      retries_left :
          (retry op e).0 ≡ true
          → (k : ℕ) × (counts.left op ≡ suc k) × (counts.left (retry op e).1 ≡ k)
      retries_left = cases (counts.left op) refl

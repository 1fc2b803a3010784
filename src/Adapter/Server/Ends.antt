-- ===== src/Adapter/Server/Ends.antt =====
-- When the exchanges of the server end.
use fiware_monitoring.Adapter.Effect.{CountsRetries, RetryModule, requests}
use fiware_monitoring.Adapter.Listener.{Fresh, Pending, Request, on_request}
use fiware_monitoring.Adapter.Listener.Status.{on_request_quiet}
use fiware_monitoring.Adapter.Server.Asked.{requests-conclude}
use fiware_monitoring.Adapter.Server.Budget.{
  Within, WithinAt, begin_update-Within, on_error-Within, on_response-Within,
}
use fiware_monitoring.Adapter.Udp.{udp_domain}
use fiware_monitoring.Adapter.Update.Attempts.{requests-append}
use fiware_monitoring.Base.{
  All, All-Memᴰ, All-append, All-parts, List, Memᴰ, Option, Result, arith, err, length,
  length-append, none, ok, refl, some, subst, suc, ℕ, ◌+◌, ◌<◌, ◌∷◌, ◌≡◌, ◌≤◌,
}
use fiware_monitoring.Config.{Config}
use fiware_monitoring.Domain.{Error}
use fiware_monitoring.Js.Text.{JsString}
use fiware_monitoring.Parsers.Factory.{Cache, Module, ParserObject, get_parser_by_name}
use fiware_monitoring.Platform.{Platform}
use fiware_monitoring.Adapter.Exchange.{
  closed, Exchange, Move, Progress, Stage, advance, begin_update, body_ended, conclude, data_came,
  on_error, on_response, open_http, open_udp, receiving, request_failed, response_ended, stage_of,
  udp_progress, waiting, udp_exchange,
}
use fiware_monitoring.Adapter.Server.{
  Reach, Server, Step, booted, datagram, stepped, moved, requested,
}

module _ (platform : Platform) (require : JsString → Module) (retry_module : RetryModule)
    (counts : CountsRetries retry_module) (config : Config) where
  open retry_module use {Operation}

  abbrev Kept : Exchange Operation → Type 0
  Kept x = Within platform retry_module counts config x

  abbrev KeptAt : Stage Operation → ℕ → ℕ → Type 0
  KeptAt stage n sent_ = WithinAt platform retry_module counts config stage n sent_

  advance-Within :
      (x : Exchange Operation) (p : Progress Operation)
      → KeptAt p.stage
          (length x.outcomes + length p.outcomes)
          (length (requests x.effects) + length (requests p.effects))
      → Kept (advance platform retry_module config x p)
  advance-Within x p h =
      let added = conclude platform config x.origin x.fresh p.effects in
      rw
        (
          length-append x.outcomes p.outcomes,
          requests-append x.effects added,
          length-append (requests x.effects) (requests added),
          requests-conclude platform config x.origin x.fresh p.effects,
        )
        h

  at_stage :
      (x : Exchange Operation) (stage : Stage Operation)
      → x.stage ≡ stage
      → Kept x
      → KeptAt stage (length x.outcomes) (length (requests x.effects))
  at_stage x stage e h =
      subst (λ st. KeptAt st (length x.outcomes) (length (requests x.effects))) e h

  Move-Within : {x y : Exchange Operation} → Move platform retry_module config x y → Kept x → Kept y
  Move-Within {x} (data_came p chunk e) h = at_stage x (receiving p) e h
  Move-Within {x} (body_ended p throw e) h =
      let k = at_stage x (receiving p) e h in
      advance-Within x (begin_update platform retry_module config p.object p.reqdomain throw) (
        begin_update-Within platform retry_module counts config p.object p.reqdomain throw _ _ k.0
          k.1)
  Move-Within {x} (response_ended op update context status corr parts e) h =
      let k = at_stage x (waiting op update context) e h in
      advance-Within x (on_response platform retry_module config update status corr parts) (
        on_response-Within platform retry_module counts config update status corr parts _ _ _ k.0
          k.1)
  Move-Within {x} (request_failed op update context problem throw e) h =
      let k = at_stage x (waiting op update context) e h in
      advance-Within x (on_error platform retry_module config op update context problem throw) (
        on_error-Within platform retry_module counts config op update context problem throw _ _ k.0
          k.1)

  open_http-Within :
      (fresh : Fresh) (req : Request) (cache : Cache)
      → Kept (
          open_http platform retry_module config fresh req
            (on_request platform require config fresh req cache))
  open_http-Within fresh req cache =
      rw (on_request_quiet platform require config fresh req cache).0
        (stage_of-Within (on_request platform require config fresh req cache).pending)
    where
      stage_of-Within : (m : Option Pending) → KeptAt (stage_of platform retry_module config m) 0 0
      stage_of-Within none = (omega arith, omega arith)
      stage_of-Within (some p) = (refl, refl)

  udp_progress-Within :
      (fresh : Fresh) (message : List ℕ) (throw : Option Error) (m : Result Error ParserObject)
      → let p = udp_progress platform retry_module config fresh message throw m in
        KeptAt p.stage (0 + length p.outcomes) (0 + length (requests p.effects))
  unfolding udp_progress requests
  udp_progress-Within fresh message throw (err e) = (omega arith, omega arith)
  udp_progress-Within fresh message throw (ok object_) =
      begin_update-Within platform retry_module counts config object_ (udp_domain fresh message)
        throw 0 0 refl refl

  Step-Within :
      {s t : Server platform require retry_module config}
      → Step platform require retry_module config s t
      → All Kept s.exchanges
      → All Kept t.exchanges
  unfolding open_udp requests
  Step-Within {s} (requested fresh req) h = (open_http-Within fresh req s.cache, h)
  Step-Within {s} (datagram fresh name message throw) h =
      let found_ = (get_parser_by_name platform require config s.cache name).1 in
      (
        advance-Within (udp_exchange platform retry_module config fresh name message)
            (udp_progress platform retry_module config fresh message throw found_)
            (udp_progress-Within fresh message throw found_),
        h,
      )
  Step-Within (moved before rest x y e mv) h =
      let parts = All-parts Kept before rest x (subst (All Kept) e h) in
      All-append Kept before (y ∷ rest) parts.before (Move-Within mv parts.here, parts.after)

  Reach-Within :
      {s : Server platform require retry_module config}
      → Reach platform require retry_module config s
      → All Kept s.exchanges
  Reach-Within booted = tt
  Reach-Within (stepped r step) = Step-Within step (Reach-Within r)

  Within-closed :
      (stage : Stage Operation) (n sent_ : ℕ)
      → KeptAt stage n sent_
      → config.retries < n
      → stage ≡ closed
  Within-closed (receiving p) n sent_ h lt = absurd (omega (arith, h.0))
  Within-closed (waiting op update context) n sent_ h lt = absurd (omega (arith, h.0))
  Within-closed closed n sent_ h lt = refl

  Within-le :
      (stage : Stage Operation) (n sent_ : ℕ)
      → KeptAt stage n sent_
      → (n ≤ suc config.retries) × (sent_ ≤ suc config.retries)
  Within-le (receiving p) n sent_ h = (omega (arith, h.0), omega (arith, h.1))
  Within-le (waiting op update context) n sent_ h = (omega (arith, h.0), omega (arith, h.0, h.1))
  Within-le closed n sent_ h = (omega (arith, h.0), omega (arith, h.0, h.1))

  -- When the operations of the retries count them, an exchange of a state that the server gets
  -- into that had more outcomes than there are retries has ended.
  pub Reach-closed :
      {s : Server platform require retry_module config} {x : Exchange Operation}
      → Reach platform require retry_module config s
      → Memᴰ x s.exchanges
      → config.retries < length x.outcomes
      → x.stage ≡ closed
  Reach-closed {s} {x} r m lt =
      Within-closed x.stage _ _ (All-Memᴰ Kept s.exchanges (Reach-Within r) m) lt

  -- When the operations of the retries count them, an exchange of a state that the server gets
  -- into had at most one outcome more than there are retries, and asked ContextBroker at most once
  -- more.
  pub Reach-le :
      {s : Server platform require retry_module config} {x : Exchange Operation}
      → Reach platform require retry_module config s
      → Memᴰ x s.exchanges
      → (length x.outcomes ≤ suc config.retries)
        × (length (requests x.effects) ≤ suc config.retries)
  Reach-le {s} {x} r m = Within-le x.stage _ _ (All-Memᴰ Kept s.exchanges (Reach-Within r) m)

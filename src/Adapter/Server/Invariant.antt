-- ===== src/Adapter/Server/Invariant.antt =====
-- What holds of every exchange in a state of the server, whatever the other exchanges do.
use fiware_monitoring.Adapter.Listener.Report.{finish}
use fiware_monitoring.Adapter.Udp.{log_uncaught}
use fiware_monitoring.Adapter.Effect.{Attempt, Effect, RetryModule}
use fiware_monitoring.Adapter.Listener.{
  Pending, Request, on_data, on_request, Fresh, catch_uncaught,
}
use fiware_monitoring.Adapter.Exchange.{
  Exchange, Stage, advance, closed, conclude, over_http, receiving, waiting, Origin, finish_udp,
  over_udp, Progress,
}
use fiware_monitoring.Adapter.Server.{Server}
use fiware_monitoring.Adapter.Server.Alone.{alone, conclude-append}
use fiware_monitoring.Adapter.Server.Follows.{ContinuesAt, Continues}
use fiware_monitoring.Adapter.Update.{attempt, send}
use fiware_monitoring.Base.{
  All, Bool, List, [], some, ◌++◌, ◌≡◌, ap, append_assoc, sym, ◌∙◌, append-nil, refl,
}
use fiware_monitoring.Config.{Config}
use fiware_monitoring.Domain.{Context}
use fiware_monitoring.Js.Text.{JsString}
use fiware_monitoring.Parsers.BaseParser.{UpdateRequest}
use fiware_monitoring.Parsers.Factory.{Module}
use fiware_monitoring.Parsers.Factory.Sound.{Sound}
use fiware_monitoring.Platform.{Platform}

module _ (platform : Platform) (require : JsString → Module) (retry_module : RetryModule)
    (config : Config) where
  open retry_module use {Operation}

  abbrev pub alone_of : Exchange Operation → List Attempt → List Effect
  alone_of x outcomes =
      alone platform require retry_module config x.origin x.fresh x.chunks outcomes

  abbrev pub concluded : Exchange Operation → List Effect → List Effect
  concluded x es = conclude platform config x.origin x.fresh es

  -- A request whose body comes.
  pub record Receives (p : Pending) (x : Exchange Operation) : Type 0 where
    pub req : Request
    pub asked : x.origin ≡ over_http req
    pub answered_only : x.effects ≡ (on_request platform require config x.fresh req []).effects
    pub opened : Pending
    pub is_opened : (on_request platform require config x.fresh req []).pending ≡ some opened
    pub collected : p ≡ on_data platform opened x.chunks
    pub no_outcome : x.outcomes ≡ []

  -- An exchange whose last attempt waits for its outcome.
  pub record Waits (op : Operation) (update : UpdateRequest) (context : Context)
      (x : Exchange Operation) : Type 0 where
    pub before : List Effect
    pub in_try : Bool
    pub so_far : x.effects ≡ before ++ concluded x (send config update)
    pub goes_on :
        (rest : List Attempt)
        → alone_of x (x.outcomes ++ rest)
          ≡ before
            ++ concluded x
                (attempt platform retry_module config in_try op update context rest).effects

  -- What was done for an exchange is the start of what is done when it is alone, and its stage gives the rest.
  abbrev pub FollowsAt : Stage Operation → Exchange Operation → Type 0
  FollowsAt (receiving p) x = Receives p x
  FollowsAt (waiting op update context) x = Waits op update context x
  FollowsAt closed x = (rest : List Attempt) → alone_of x (x.outcomes ++ rest) ≡ x.effects

  abbrev pub Follows : Exchange Operation → Type 0
  Follows x = FollowsAt x.stage x

  -- Every entry of the cache is what loading gives, and every exchange follows.
  pub record Inv (s : Server platform require retry_module config) : Type 0 where
    pub sound : Sound platform require config s.cache
    pub all_follow : All Follows s.exchanges

  -- The effects of an event, next to those before it.
  joined :
      (x : Exchange Operation) (base earlier effects : List Effect)
      → x.effects ≡ base ++ concluded x earlier
      → x.effects ++ concluded x effects ≡ base ++ concluded x (earlier ++ effects)
  joined x base earlier effects e =
      ap (λ es. es ++ concluded x effects) e
      ∙ append_assoc base _ _
      ∙ ap (◌++◌ base) (sym (conclude-append platform config x.origin x.fresh earlier effects))

  parted :
      (x : Exchange Operation) (base es fs : List Effect)
      → base ++ concluded x (es ++ fs) ≡ (base ++ concluded x es) ++ concluded x fs
  parted x base es fs =
      ap (◌++◌ base) (conclude-append platform config x.origin x.fresh es fs)
      ∙ sym (append_assoc base _ _)

  -- What continues the run of an exchange that began with `base`, after `earlier`.
  advance-FollowsAt :
      (stage : Stage Operation) (x : Exchange Operation) (base earlier effects : List Effect)
      (outcomes : List Attempt) (run : List Attempt → List Effect)
      → x.effects ≡ base ++ concluded x earlier
      → ((rest : List Attempt) → alone_of x (x.outcomes ++ rest) ≡ base ++ concluded x (run rest))
      → ContinuesAt platform retry_module config stage (earlier ++ effects) outcomes run
      → FollowsAt stage (
          advance platform retry_module config x
            (record { effects = effects; stage = stage; outcomes = outcomes }))
  advance-FollowsAt (receiving p) x base earlier effects outcomes run e h c = absurd c
  advance-FollowsAt (waiting op update context) x base earlier effects outcomes run e h c = record {
    before = base ++ concluded x c.before;
    in_try = c.in_try;
    so_far =
        joined x base earlier effects e
        ∙ ap (λ es. base ++ concluded x es) c.so_far
        ∙ parted x base c.before (send config update);
    goes_on = λ rest.
        ap (alone_of x) (append_assoc x.outcomes outcomes rest)
        ∙ h (outcomes ++ rest)
        ∙ ap (λ es. base ++ concluded x es) (c.goes_on rest)
        ∙ parted x base c.before _;
  }
  advance-FollowsAt closed x base earlier effects outcomes run e h c = λ rest.
      ap (alone_of x) (append_assoc x.outcomes outcomes rest)
      ∙ h (outcomes ++ rest)
      ∙ ap (λ es. base ++ concluded x es) (c rest)
      ∙ sym (joined x base earlier effects e)

  pub advance-Follows :
      (x : Exchange Operation) (base earlier : List Effect) (p : Progress Operation)
      (run : List Attempt → List Effect)
      → x.effects ≡ base ++ concluded x earlier
      → ((rest : List Attempt) → alone_of x (x.outcomes ++ rest) ≡ base ++ concluded x (run rest))
      → Continues platform retry_module config earlier p run
      → Follows (advance platform retry_module config x p)
  advance-Follows x base earlier p run =
      advance-FollowsAt p.stage x base earlier p.effects p.outcomes run

  conclude-nil : (origin : Origin) (fresh : Fresh) → conclude platform config origin fresh [] ≡ []
  unfolding conclude finish catch_uncaught finish_udp log_uncaught
  conclude-nil (over_http req) fresh = refl
  conclude-nil (over_udp name message) fresh = refl

  -- Before the first attempt nothing but the answer, or the trace of the datagram, was done.
  pub from_start : (x : Exchange Operation) → x.effects ≡ x.effects ++ concluded x []
  from_start x = sym (ap (◌++◌ x.effects) (conclude-nil x.origin x.fresh) ∙ append-nil x.effects)

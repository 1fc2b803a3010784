-- ===== src/Adapter/Server/Isolation.antt =====
-- What an exchange of the server does, against serving it alone.
use fiware_monitoring.Adapter.Server.Datagrams.{open_udp-Follows}
use fiware_monitoring.Adapter.Exchange.{closed}
use fiware_monitoring.Adapter.Effect.{RetryModule}
use fiware_monitoring.Adapter.Exchange.{Exchange, Stage, closed, receiving, waiting}
use fiware_monitoring.Adapter.Server.{
  Reach, Server, Step, booted, datagram, stepped, moved, requested,
}
use fiware_monitoring.Adapter.Server.Alone.{expected_at}
use fiware_monitoring.Adapter.Server.Invariant.{Follows, FollowsAt, Inv, alone_of}
use fiware_monitoring.Adapter.Server.Moves.{Move-Follows, open_http-Follows}
use fiware_monitoring.Adapter.Server.Shared.{on_request-Alike}
use fiware_monitoring.Adapter.Update.{attempt}
use fiware_monitoring.Base.{
  All, All-Memᴰ, All-append, All-parts, Memᴰ, [], ap, append-nil, refl, subst, sym, ◌∙◌, ◌∷◌, ◌≡◌,
}
use fiware_monitoring.Config.{Config}
use fiware_monitoring.Js.Text.{JsString}
use fiware_monitoring.Parsers.Factory.{Module}
use fiware_monitoring.Parsers.Factory.Sound.{empty-Sound, get_parser_by_name-Sound}
use fiware_monitoring.Platform.{Platform}

module _ (platform : Platform) (require : JsString → Module) (retry_module : RetryModule)
    (config : Config) where
  open retry_module use {Operation}

  Step-Inv :
      {s t : Server platform require retry_module config}
      → Step platform require retry_module config s t
      → Inv platform require retry_module config s
      → Inv platform require retry_module config t
  Step-Inv {s} (requested fresh req) inv = record {
    sound = (on_request-Alike platform require config fresh req s.cache inv.sound).cache_Sound;
    all_follow = (
      open_http-Follows platform require retry_module config fresh req s.cache inv.sound,
      inv.all_follow,
    );
  }
  Step-Inv {s} (datagram fresh name message throw) inv = record {
    sound = get_parser_by_name-Sound platform require config s.cache name inv.sound;
    all_follow = (
      open_udp-Follows platform require retry_module config fresh name message throw s.cache
          inv.sound,
      inv.all_follow,
    );
  }
  Step-Inv {s} (moved before rest x y e mv) inv =
      let parts =
        All-parts (Follows platform require retry_module config) before rest x
          (subst (All (Follows platform require retry_module config)) e inv.all_follow) in
      record {
        sound = inv.sound;
        all_follow =
            All-append (Follows platform require retry_module config) before (y ∷ rest) parts.before
              (Move-Follows platform require retry_module config mv parts.here, parts.after);
      }

  -- In every state that the server gets into, the cache is sound and every exchange follows.
  pub Reach-Inv :
      {s : Server platform require retry_module config}
      → Reach platform require retry_module config s
      → Inv platform require retry_module config s
  Reach-Inv booted = record { sound = empty-Sound platform require config; all_follow = tt }
  Reach-Inv (stepped r step) = Step-Inv step (Reach-Inv r)

  FollowsAt-expected :
      (stage : Stage Operation) (x : Exchange Operation)
      → FollowsAt platform require retry_module config stage x
      → x.effects ≡ expected_at platform require retry_module config stage x
  unfolding attempt
  FollowsAt-expected (receiving p) x f = f.answered_only ∙ rw f.asked refl
  FollowsAt-expected (waiting op update context) x f =
      f.so_far
      ∙ sym (f.goes_on [])
      ∙ ap (alone_of platform require retry_module config x) (append-nil x.outcomes)
  FollowsAt-expected closed x f =
      sym (f []) ∙ ap (alone_of platform require retry_module config x) (append-nil x.outcomes)

  -- In every state that the server gets into, whatever requests and datagrams came and in whatever
  -- order their events, what was done for an exchange is what is done for it alone with an empty
  -- cache: the answer while its body comes, and then the whole exchange with the outcomes that it
  -- had.
  pub Reach-expected :
      {s : Server platform require retry_module config} {x : Exchange Operation}
      → Reach platform require retry_module config s
      → Memᴰ x s.exchanges
      → x.effects ≡ expected_at platform require retry_module config x.stage x
  Reach-expected {s} {x} r m = FollowsAt-expected x.stage x (
      All-Memᴰ (Follows platform require retry_module config) s.exchanges (Reach-Inv r).all_follow
        m)

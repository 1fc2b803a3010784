-- ===== src/Adapter/Server/Shared.antt =====
-- The cache that the exchanges share, in the calls of a listener.
use fiware_monitoring.Adapter.Effect.{Effect, error, log}
use fiware_monitoring.Adapter.Listener.{
  Fresh, Handled, Request, entity_id, entity_type, missing_entity, on_request, with_parser,
  without_parser,
}
use fiware_monitoring.Base.{
  Bool-cases, List, Result, [], err, inl, inr, not, ok, refl, sym, ℕ, ◌||◌, ◌∷◌, ◌≡◌,
}
use fiware_monitoring.Config.{Config}
use fiware_monitoring.Domain.{Error}
use fiware_monitoring.Js.Text.{JsString, codes, equal}
use fiware_monitoring.Parsers.BaseParser.{is_given}
use fiware_monitoring.Parsers.Factory.{Cache, Module, ParserObject}
use fiware_monitoring.Parsers.Factory.Sound.{Sound, get_parser-Sound}
use fiware_monitoring.Platform.{Platform}

module _ (platform : Platform) (require : JsString → Module) (config : Config) (fresh : Fresh)
    (req : Request) where
  -- Two calls of the listener that differ in the cache alone.
  pub record Alike (h k : Handled) : Type 0 where
    pub effects_alike : h.effects ≡ k.effects
    pub pending_alike : h.pending ≡ k.pending
    pub cache_Sound : Sound platform require config h.cache

  with_parser-Alike :
      (c d : Cache) (m n : Result Error ParserObject)
      → m ≡ n
      → Sound platform require config c
      → Alike (with_parser platform fresh req (c, m)) (with_parser platform fresh req (d, n))
  unfolding with_parser
  with_parser-Alike c d (ok p) n e sound =
      rw (sym e) (record { effects_alike = refl; pending_alike = refl; cache_Sound = sound })
  with_parser-Alike c d (err p) n e sound =
      rw (sym e) (record { effects_alike = refl; pending_alike = refl; cache_Sound = sound })

  without_parser-Alike :
      (cache : Cache) (errors : List Effect) (status : ℕ)
      → Sound platform require config cache
      → Alike
          (without_parser platform fresh req cache errors status)
          (without_parser platform fresh req [] errors status)
  unfolding without_parser
  without_parser-Alike cache errors status sound = record {
    effects_alike = refl;
    pending_alike = refl;
    cache_Sound = sound;
  }

  -- The listener keeps the cache sound, and does what it does with an empty one.
  pub on_request-Alike :
      (cache : Cache)
      → Sound platform require config cache
      → Alike
          (on_request platform require config fresh req cache)
          (on_request platform require config fresh req [])
  unfolding on_request
  on_request-Alike cache sound = elim (Bool-cases (equal req.method (codes "POST"))) [
    | inr e ↦ rw e (without_parser-Alike cache [] 405 sound)
    | inl e ↦
        elim (Bool-cases
          (not (is_given (entity_id platform req)) || not (is_given (entity_type platform req)))) [
            | inl f ↦
                rw (e, f) (without_parser-Alike cache (log error missing_entity ∷ []) 400 sound)
            | inr f ↦
                let (still, same) = get_parser-Sound platform require config cache req.url sound in
                rw (e, f) (with_parser-Alike _ _ _ _ same still)
          ]
  ]

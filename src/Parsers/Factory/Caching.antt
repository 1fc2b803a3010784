-- ===== src/Parsers/Factory/Caching.antt =====
-- What the cache of the factory does.
use fiware_monitoring.Domain.{Error}
use fiware_monitoring.Js.Object.Lookup.{lookup-insert_ne, lookup-insert_self}
use fiware_monitoring.Base.{
  Option-cases, inl, inr, none, ok, refl, some, true, ◌≡◌, ◌≢◌, Result, ap, err, sym, ◌∙◌,
}
use fiware_monitoring.Config.{Config}
use fiware_monitoring.Js.Object.{lookup}
use fiware_monitoring.Js.Text.{JsString, split}
use fiware_monitoring.Parsers.Factory.{
  Cache, Module, ParserObject, alien, cached, contains, get_parser_by_name, keep_parser,
  module_not_found, object_prototype_names, search_dirs, ErrorCode,
}
use fiware_monitoring.Platform.{Platform}

cached_own :
    (cache : Cache) (name : JsString) (p : ParserObject)
    → lookup name cache ≡ some p
    → cached cache name ≡ some p
unfolding cached
cached_own cache name p h = rw h refl

-- A name that is cached is answered from the cache, by any module system.
pub get_parser_by_name-cached :
    (platform : Platform) (require : JsString → Module) (config : Config) (cache : Cache)
    (name : JsString) (p : ParserObject)
    → cached cache name ≡ some p
    → get_parser_by_name platform require config cache name ≡ (cache, ok p)
unfolding get_parser_by_name
get_parser_by_name-cached platform require config cache name p h = rw h refl

-- What loading does on a name that is not cached.
pub get_parser_by_name-uncached :
    (platform : Platform) (require : JsString → Module) (config : Config) (cache : Cache)
    (name : JsString)
    → cached cache name ≡ none
    → get_parser_by_name platform require config cache name
      ≡ keep_parser platform require config cache name
          (search_dirs platform require name (split b':' config.parsers_path) module_not_found)
unfolding get_parser_by_name
get_parser_by_name-uncached platform require config cache name h = rw h refl

ok_inj : (q p : ParserObject) → ◌≡◌ {A = Result Error ParserObject} (ok q) (ok p) → q ≡ p
ok_inj q p e = cc e

kept-lookup :
    (platform : Platform) (require : JsString → Module) (config : Config) (cache cache' : Cache)
    (name : JsString) (r : Result ErrorCode ParserObject) (p : ParserObject)
    → keep_parser platform require config cache name r ≡ (cache', ok p)
    → lookup name cache' ≡ some p
unfolding keep_parser
kept-lookup platform require config cache cache' name (ok q) p h =
    let same = ok_inj q p (ap (λ (x : Cache × Result Error ParserObject). x.1) h) in
    ap (lookup name) (sym (ap (λ (x : Cache × Result Error ParserObject). x.0) h))
    ∙ lookup-insert_self name q cache
    ∙ ap some same
kept-lookup platform require config cache cache' name (err c) p h =
    absurd (cc (ap (λ (x : Cache × Result Error ParserObject). x.1) h))

pub kept-lookup_ne :
    (platform : Platform) (require : JsString → Module) (config : Config) (cache : Cache)
    (name other : JsString) (r : Result ErrorCode ParserObject)
    → name ≢ other
    → lookup other (keep_parser platform require config cache name r).0 ≡ lookup other cache
unfolding keep_parser
kept-lookup_ne platform require config cache name other (ok q) ne =
    lookup-insert_ne name other q cache ne
kept-lookup_ne platform require config cache name other (err c) ne = refl

-- Once a parser was returned for a name, the same parser is returned for it again with the cache
-- unchanged, also when the files have changed since.
pub get_parser_by_name_again :
    (platform : Platform) (require later : JsString → Module) (config : Config)
    (cache cache' : Cache) (name : JsString) (p : ParserObject)
    → get_parser_by_name platform require config cache name ≡ (cache', ok p)
    → get_parser_by_name platform later config cache' name ≡ (cache', ok p)
get_parser_by_name_again platform require later config cache cache' name p h =
    elim (Option-cases (cached cache name)) [
      | inr (q, e) ↦
          let both = sym (get_parser_by_name-cached platform require config cache name q e) ∙ h in
          get_parser_by_name-cached platform later config cache' name p (
            ap (λ c. cached c name) (sym (ap (λ (x : Cache × Result Error ParserObject). x.0) both))
            ∙ e
            ∙ ap some (ok_inj q p (ap (λ (x : Cache × Result Error ParserObject). x.1) both)))
      | inl e ↦ get_parser_by_name-cached platform later config cache' name p (
          cached_own cache' name p (
            kept-lookup platform require config cache cache' name _ p
              (sym (get_parser_by_name-uncached platform require config cache name e) ∙ h)))
    ]

-- Loading a parser changes the entry of no other name in the cache.
pub get_parser_by_name_frame :
    (platform : Platform) (require : JsString → Module) (config : Config) (cache : Cache)
    (name other : JsString)
    → name ≢ other
    → lookup other (get_parser_by_name platform require config cache name).0 ≡ lookup other cache
get_parser_by_name_frame platform require config cache name other ne =
    elim (Option-cases (cached cache name)) [
      | inr (q, e) ↦ rw (get_parser_by_name-cached platform require config cache name q e) refl
      | inl e ↦
          rw (get_parser_by_name-uncached platform require config cache name e)
            (kept-lookup_ne platform require config cache name other _ ne)
    ]

-- The name of a member of Object.prototype that is not in the cache is never an unknown probe: the
-- inherited member is returned as a parser, whatever modules there are.
pub get_parser_by_name-inherited :
    (platform : Platform) (require : JsString → Module) (config : Config) (cache : Cache)
    (name : JsString)
    → contains object_prototype_names name ≡ true
    → lookup name cache ≡ none
    → get_parser_by_name platform require config cache name ≡ (cache, ok alien)
get_parser_by_name-inherited platform require config cache name inherits free =
    get_parser_by_name-cached platform require config cache name alien
      (unfold cached in rw (free, inherits) refl)

-- ===== src/Parsers/Factory/Order.antt =====
-- The cache as what it has for each name, whatever the order of its entries.
use fiware_monitoring.Domain.{Error}
use fiware_monitoring.Base.{
  Bool-cases, Option-cases, Result, ap, err, inl, inr, ok, refl, sym, ◌∙◌, ◌≡◌, ◌≢◌, Option, ◌⊎◌,
}
use fiware_monitoring.Config.{Config}
use fiware_monitoring.Js.Object.{lookup}
use fiware_monitoring.Js.Object.Lookup.{lookup-insert_self}
use fiware_monitoring.Js.Text.{JsString, equal}
use fiware_monitoring.Js.Text.Equality.{equal_iff}
use fiware_monitoring.Parsers.Factory.{
  Cache, ErrorCode, Module, ParserObject, cached, get_parser_by_name, keep_parser, own_or_inherited,
}
use fiware_monitoring.Parsers.Factory.Caching.{
  get_parser_by_name-cached, get_parser_by_name-uncached, get_parser_by_name_frame,
}
use fiware_monitoring.Platform.{Platform}
use mathlib.Core.Quot
use mathlib.Core.Quot.{Quot, Quot-set}

-- Two caches have the same entries.
abbrev pub SameEntries : Cache → Cache → Type 0
SameEntries c d = (name : JsString) → lookup name c ≡ lookup name d

abbrev pub AbstractCache : Type 0
AbstractCache = Quot SameEntries

same_or_not : (a b : JsString) → (a ≡ b) ⊎ (a ≢ b)
same_or_not a b = elim (Bool-cases (equal a b)) [
  | inl e ↦ inl ((equal_iff a b).0 e)
  | inr e ↦ inr (λ same. cc (e, (equal_iff a b).1 same))
]

module _ (platform : Platform) (require : JsString → Module) (config : Config) where
  abbrev after_load : JsString → Cache → Cache
  after_load name c = (get_parser_by_name platform require config c name).0

  abbrev entry_in : JsString → Cache × Result Error ParserObject → Option ParserObject
  entry_in name (c, r) = lookup name c

  keep_parser-lookup :
      (name : JsString) (c d : Cache) (r : Result ErrorCode ParserObject)
      → lookup name c ≡ lookup name d
      → lookup name (keep_parser platform require config c name r).0
        ≡ lookup name (keep_parser platform require config d name r).0
  unfolding keep_parser
  keep_parser-lookup name c d (ok q) h =
      lookup-insert_self name q c ∙ sym (lookup-insert_self name q d)
  keep_parser-lookup name c d (err code_) h = h

  cached-lookup :
      (name : JsString) (c d : Cache)
      → lookup name c ≡ lookup name d
      → cached c name ≡ cached d name
  unfolding cached
  cached-lookup name c d h = ap (own_or_inherited name) h

  -- The entry of a name after it was loaded depends on its entry before alone.
  after_load-lookup_self :
      (name : JsString) (c d : Cache)
      → lookup name c ≡ lookup name d
      → lookup name (after_load name c) ≡ lookup name (after_load name d)
  after_load-lookup_self name c d h = elim (Option-cases (cached c name)) [
    | inr (q, e) ↦
        ap (entry_in name) (get_parser_by_name-cached platform require config c name q e)
        ∙ h
        ∙ sym (
            ap (entry_in name) (
              get_parser_by_name-cached platform require config d name q
                (sym (cached-lookup name c d h) ∙ e)))
    | inl e ↦
        ap (entry_in name) (get_parser_by_name-uncached platform require config c name e)
        ∙ keep_parser-lookup name c d _ h
        ∙ sym (
            ap (entry_in name) (
              get_parser_by_name-uncached platform require config d name
                (sym (cached-lookup name c d h) ∙ e)))
  ]

  after_load-SameEntries :
      (name : JsString) (c d : Cache)
      → SameEntries c d
      → SameEntries (after_load name c) (after_load name d)
  after_load-SameEntries name c d h other_ = elim (same_or_not name other_) [
    | inl e ↦ rw (sym e) (after_load-lookup_self name c d (h name))
    | inr ne ↦
        get_parser_by_name_frame platform require config c name other_ ne
        ∙ h other_
        ∙ sym (get_parser_by_name_frame platform require config d name other_ ne)
  ]

  -- Loading the parser of a name, on what the cache has for each name.
  pub load_abstract : JsString → AbstractCache → AbstractCache
  load_abstract name =
      Quot.lift Quot-set (λ c. Quot.mk (after_load name c))
        (λ c d h. Quot.sound (after_load-SameEntries name c d h))

  -- Two names: the entry of the one after both were loaded.
  after_loads-lookup :
      (first_ second : JsString) (c : Cache)
      → first_ ≢ second
      → lookup first_ (after_load first_ (after_load second c))
        ≡ lookup first_ (after_load second (after_load first_ c))
  after_loads-lookup first_ second c ne =
      after_load-lookup_self first_ (after_load second c) c
        (get_parser_by_name_frame platform require config c second first_ (λ e. ne (sym e)))
      ∙ sym (
          get_parser_by_name_frame platform require config (after_load first_ c) second first_
            (λ e. ne (sym e)))

  after_loads-SameEntries :
      (a b : JsString) (c : Cache)
      → SameEntries (after_load a (after_load b c)) (after_load b (after_load a c))
  after_loads-SameEntries a b c name = elim (same_or_not a b) [
    | inl e ↦ rw e refl
    | inr ne ↦ elim (same_or_not a name) [
      | inl f ↦ rw (sym f) (after_loads-lookup a b c ne)
      | inr na ↦ elim (same_or_not b name) [
        | inl g ↦ rw (sym g) (sym (after_loads-lookup b a c (λ e. ne (sym e))))
        | inr nb ↦
            get_parser_by_name_frame platform require config (after_load b c) a name na
            ∙ get_parser_by_name_frame platform require config c b name nb
            ∙ sym (
                get_parser_by_name_frame platform require config (after_load a c) b name nb
                ∙ get_parser_by_name_frame platform require config c a name na)
      ]
    ]
  ]

  -- Loading the parsers of two names in either order gives the same cache, where caches are the
  -- same that have the same entry for each name.
  pub load_abstract_comm :
      (a b : JsString) (x : AbstractCache)
      → load_abstract a (load_abstract b x) ≡ load_abstract b (load_abstract a x)
  unfolding load_abstract
  load_abstract_comm a b =
      Quot.ind (λ x. Quot-set _ _) (λ c. Quot.sound (after_loads-SameEntries a b c))

-- ===== src/Parsers/Factory/Sound.antt =====
-- The cache of the factory against loading a parser again.
use fiware_monitoring.Js.Object.Lookup.{lookup-insert}
use fiware_monitoring.Js.Text.Equality.{equal_iff}
use fiware_monitoring.Parsers.Factory.Caching.{
  get_parser_by_name-cached, get_parser_by_name-uncached,
}
use fiware_monitoring.Base.{
  Bool-cases, Option-cases, Result, [], inl, inr, none, ok, refl, some, ◌≡◌, ◌⊎◌, Option, ap, err,
  sym, ◌∙◌, some_inj,
}
use fiware_monitoring.Config.{Config}
use fiware_monitoring.Domain.{Error}
use fiware_monitoring.Js.Object.{lookup}
use fiware_monitoring.Js.Text.{JsString, contains, equal}
use fiware_monitoring.Parsers.Factory.{
  Cache, Module, ParserObject, alien, cached, get_parser_by_name, object_prototype_names, ErrorCode,
  get_parser, keep_parser, parser_of_path, rename_error, slice_one,
}
use fiware_monitoring.Platform.{Platform}

abbrev answer : Cache × Result Error ParserObject → Result Error ParserObject
answer (cache, r) = r

module _ (platform : Platform) (require : JsString → Module) (config : Config) where
  -- What a search from an empty cache gives.
  abbrev pub by_name : JsString → Result Error ParserObject
  by_name name = (get_parser_by_name platform require config [] name).1

  -- Every entry of the cache is the parser that loading its name gives.
  pub Sound : Cache → Type 0
  Sound cache =
      (name : JsString) (p : ParserObject) → lookup name cache ≡ some p → by_name name ≡ ok p

  pub empty-Sound : Sound []
  unfolding Sound lookup
  empty-Sound name p h = absurd (cc h)

  -- A name is answered from the cache by an own member or by an inherited one, or it is searched.
  cached_cases :
      (cache : Cache) (name : JsString)
      → ((p : ParserObject) × (lookup name cache ≡ some p) × (cached cache name ≡ some p))
        ⊎ ((lookup name cache ≡ none)
            × ((p : ParserObject) × (cached cache name ≡ some p) × (cached [] name ≡ some p)))
        ⊎ ((lookup name cache ≡ none) × (cached cache name ≡ none) × (cached [] name ≡ none))
  unfolding cached lookup
  cached_cases cache name = elim (Option-cases (lookup name cache)) [
    | inr (p, e) ↦ inl (p, e, rw e refl)
    | inl e ↦ elim (Bool-cases (contains object_prototype_names name)) [
      | inl inherits ↦ inr (inl (e, (alien, rw (e, inherits) refl, rw inherits refl)))
      | inr fresh ↦ inr (inr (e, rw (e, fresh) refl, rw fresh refl))
    ]
  ]

  -- A search ends in the same way whatever is cached.
  keep_parser_result :
      (cache : Cache) (name : JsString) (r : Result ErrorCode ParserObject)
      → (keep_parser platform require config cache name r).1
        ≡ (keep_parser platform require config [] name r).1
  unfolding keep_parser
  keep_parser_result cache name (ok q) = refl
  keep_parser_result cache name (err c) = refl

  keep_parser-Sound :
      (cache : Cache) (name : JsString) (r : Result ErrorCode ParserObject)
      → Sound cache
      → by_name name ≡ (keep_parser platform require config [] name r).1
      → Sound (keep_parser platform require config cache name r).0
  unfolding Sound keep_parser
  keep_parser-Sound cache name (err c) sound same = sound
  keep_parser-Sound cache name (ok q) sound same = λ name' p h.
      let asked = lookup-insert name name' q cache in
      elim (Bool-cases (equal name name')) [
        | inl e ↦
            ap by_name (sym ((equal_iff name name').0 e))
            ∙ same
            ∙ ap ok (some_inj q p (sym (rw e at asked) ∙ h))
        | inr e ↦ sound name' p (sym (rw e at asked) ∙ h)
      ]

  -- The answer for a name is the one that a search from an empty cache gives, when every entry of
  -- the cache is.
  pub get_parser_by_name-Sound_result :
      (cache : Cache) (name : JsString)
      → Sound cache
      → (get_parser_by_name platform require config cache name).1 ≡ by_name name
  unfolding Sound
  get_parser_by_name-Sound_result cache name sound = elim (cached_cases cache name) [
    | inl (p, e, c) ↦
        rw (get_parser_by_name-cached platform require config cache name p c) (sym (sound name p e))
    | inr (inl (e, (p, c, c'))) ↦
        ap answer (get_parser_by_name-cached platform require config cache name p c)
        ∙ sym (ap answer (get_parser_by_name-cached platform require config [] name p c'))
    | inr (inr (e, c, c')) ↦
        ap answer (get_parser_by_name-uncached platform require config cache name c)
        ∙ keep_parser_result cache name _
        ∙ sym (ap answer (get_parser_by_name-uncached platform require config [] name c'))
  ]

  pub get_parser_by_name-Sound :
      (cache : Cache) (name : JsString)
      → Sound cache
      → Sound (get_parser_by_name platform require config cache name).0
  get_parser_by_name-Sound cache name sound = elim (cached_cases cache name) [
    | inl (p, e, c) ↦ rw (get_parser_by_name-cached platform require config cache name p c) sound
    | inr (inl (e, (p, c, c'))) ↦
        rw (get_parser_by_name-cached platform require config cache name p c) sound
    | inr (inr (e, c, c')) ↦ rw (get_parser_by_name-uncached platform require config cache name c) (
        keep_parser-Sound cache name _ sound
          (ap answer (get_parser_by_name-uncached platform require config [] name c')))
  ]

  rename_error-Sound :
      (name : JsString) (r : Cache × Result Error ParserObject)
      → Sound r.0
      → Sound (rename_error platform require name r).0
  unfolding rename_error
  rename_error-Sound name (c, ok q) h = h
  rename_error-Sound name (c, err e) h = h

  -- The error of a request depends on no cache either.
  rename_error_result :
      (name : JsString) (c d : Cache) (r : Result Error ParserObject)
      → (rename_error platform require name (c, r)).1
        ≡ (rename_error platform require name (d, r)).1
  unfolding rename_error
  rename_error_result name c d (ok q) = refl
  rename_error_result name c d (err e) = refl

  parser_of_path-Sound :
      (cache : Cache) (pathname : Option JsString)
      → Sound cache
      → Sound (parser_of_path platform require config cache pathname).0
        × ((parser_of_path platform require config cache pathname).1
            ≡ (parser_of_path platform require config [] pathname).1)
  unfolding parser_of_path
  parser_of_path-Sound cache none sound = (sound, refl)
  parser_of_path-Sound cache (some pathname) sound =
      let name = slice_one platform require pathname in
      let before = get_parser_by_name platform require config [] name in
      let after = get_parser_by_name platform require config cache name in
      (
        rename_error-Sound name after (get_parser_by_name-Sound cache name sound),
        rename_error_result name after.0 before.0 after.1
            ∙ ap (λ r. (rename_error platform require name (before.0, r)).1)
                (get_parser_by_name-Sound_result cache name sound),
      )

  -- When every entry of the cache is the parser that loading its name from an empty cache gives, a
  -- look-up by the URL of a request keeps it so and answers as from an empty cache.
  pub get_parser-Sound :
      (cache : Cache) (url : JsString)
      → Sound cache
      → Sound (get_parser platform require config cache url).0
        × ((get_parser platform require config cache url).1
            ≡ (get_parser platform require config [] url).1)
  unfolding get_parser
  get_parser-Sound cache url sound =
      parser_of_path-Sound cache (platform.parse_url url).pathname sound

-- ===== src/Parsers/Factory/Search.antt =====
-- Which module the search for a parser takes, and which error it ends with.
use fiware_monitoring.Js.Text.Equality.{equal_iff, equal_self}
use fiware_monitoring.Base.{
  All, List, [], ap, code, err, if◌then◌else◌, inl, inr, ok, refl, some, ◌++◌, ◌∷◌, ◌≡◌, ◌≢◌, ◌⊎◌,
  ◌↔◌, Bool-cases, Option, Result, none, true,
}
use fiware_monitoring.Js.Text.{JsString, codes}
use fiware_monitoring.Parsers.Factory.{
  ErrorCode, Module, ParserObject, Prototype, create, invalid, is_not_found, loaded, module_in,
  search_dirs, thrown, try_module, undefined, module_not_found, or_else,
}
use fiware_monitoring.Platform.{Platform}

module _ (platform : Platform) (require : JsString → Module) (name : JsString) where
  -- The directory has no usable module of the parser.
  abbrev pub HasNone : JsString → Type 0
  HasNone dir = (p : Prototype) → module_in platform require name dir ≢ loaded p

  -- Requiring the file in the directory throws an error with this code, as when there is no such file.
  abbrev pub IsMissing : JsString → Type 0
  IsMissing dir = module_in platform require name dir ≡ thrown (some (codes "MODULE_NOT_FOUND"))

  -- `p` is the parser of the first directory that has one.
  pub record IsFirst (dirs : List JsString) (p : ParserObject) : Type 0 where
    pub before : List JsString
    pub dir : JsString
    pub after : List JsString
    pub prototype : Prototype
    pub splits : dirs ≡ before ++ (dir ∷ after)
    pub none_before : All HasNone before
    pub found : module_in platform require name dir ≡ loaded prototype
    pub created : p ≡ create prototype

  IsFirst-cons :
      {dir : JsString} {dirs : List JsString} {p : ParserObject}
      → HasNone dir
      → IsFirst dirs p
      → IsFirst (dir ∷ dirs) p
  IsFirst-cons {dir} h f = record {
    before = dir ∷ f.before;
    dir = f.dir;
    after = f.after;
    prototype = f.prototype;
    splits = ap (◌∷◌ dir) f.splits;
    none_before = (h, f.none_before);
    found = f.found;
    created = f.created;
  }

  -- A directory either has a prototype, or none and an error code.
  try_cases :
      (dir : JsString) (code : ErrorCode)
      → ((q : Prototype) × (module_in platform require name dir ≡ loaded q))
        ⊎ ((c : ErrorCode) × HasNone dir
            × (try_module (module_in platform require name dir) code ≡ err c))
  try_cases dir code = cases (module_in platform require name dir) refl
    where
      cases :
          (m : Module)
          → module_in platform require name dir ≡ m
          → ((q : Prototype) × (module_in platform require name dir ≡ loaded q))
            ⊎ ((c : ErrorCode) × HasNone dir
                × (try_module (module_in platform require name dir) code ≡ err c))
      cases (loaded q) e = inl (q, e)
      cases undefined e = inr (invalid, (λ p h. cc (e, h)), rw e refl)
      cases (thrown c) e =
          inr ((if is_not_found c then code else invalid), (λ p h. cc (e, h)), rw e refl)

  search_dirs-IsFirst :
      (dirs : List JsString) (code : ErrorCode) {p : ParserObject}
      → search_dirs platform require name dirs code ≡ ok p
      → IsFirst dirs p
  unfolding search_dirs
  search_dirs-IsFirst [] code h = absurd (cc h)
  search_dirs-IsFirst (dir ∷ dirs) code {p} h = elim (try_cases dir code) [
    | inl (q, e) ↦ record {
      before = [];
      dir = dir;
      after = dirs;
      prototype = q;
      splits = refl;
      none_before = tt;
      found = e;
      created = cc (rw e at h);
    }
    | inr (c, none_here, e) ↦ IsFirst-cons none_here (search_dirs-IsFirst dirs c (rw e at h))
  ]

  search_dirs-found :
      (before : List JsString) (dir : JsString) (after : List JsString) (code : ErrorCode)
      (q : Prototype)
      → All HasNone before
      → module_in platform require name dir ≡ loaded q
      → search_dirs platform require name (before ++ (dir ∷ after)) code ≡ ok (create q)
  unfolding search_dirs
  search_dirs-found [] dir after code q h e = rw e refl
  search_dirs-found (d ∷ before) dir after code q (none_here, h) e = elim (try_cases d code) [
    | inl (q', e') ↦ absurd (none_here q' e')
    | inr (c, _, e') ↦ rw e' (search_dirs-found before dir after c q h e)
  ]

  -- The search through the directories succeeds with a parser exactly when it is the one of the
  -- first directory that has a usable module.
  pub search_dirs-IsFirst_iff :
      (dirs : List JsString) (code : ErrorCode) (p : ParserObject)
      → (search_dirs platform require name dirs code ≡ ok p) ↔ IsFirst dirs p
  search_dirs-IsFirst_iff dirs code p = (
    search_dirs-IsFirst dirs code,
    λ f.
        rw (f.splits, f.created)
          (search_dirs-found f.before f.dir f.after code f.prototype f.none_before f.found),
  )

  is_not_found_eq :
      (c : Option JsString) → is_not_found c ≡ true → c ≡ some (codes "MODULE_NOT_FOUND")
  is_not_found_eq none h = cc
  is_not_found_eq (some s) h = ap some ((equal_iff s (codes "MODULE_NOT_FOUND")).0 h)

  -- Once a module was invalid, every directory leaves it so.
  try_module-invalid :
      (m : Module) (next : ErrorCode → Result ErrorCode ParserObject)
      → next invalid ≢ err module_not_found
      → or_else (try_module m invalid) next ≢ err module_not_found
  try_module-invalid (loaded q) next h = cc
  try_module-invalid undefined next h = h
  try_module-invalid (thrown c) next h = elim (Bool-cases (is_not_found c)) [
    | inl e ↦ rw e h
    | inr e ↦ rw e h
  ]

  search_dirs-invalid :
      (dirs : List JsString) → search_dirs platform require name dirs invalid ≢ err module_not_found
  unfolding search_dirs
  search_dirs-invalid [] = cc
  search_dirs-invalid (dir ∷ dirs) =
      try_module-invalid (module_in platform require name dir)
        (λ code. search_dirs platform require name dirs code) (search_dirs-invalid dirs)

  -- One directory of a search that ends with "not found".
  missing_step :
      (m : Module) (next : ErrorCode → Result ErrorCode ParserObject)
      → next invalid ≢ err module_not_found
      → (or_else (try_module m module_not_found) next ≡ err module_not_found) ↔ (
          (m ≡ thrown (some (codes "MODULE_NOT_FOUND")))
          × (next module_not_found ≡ err module_not_found))
  missing_step (loaded q) next h = (λ e. absurd (cc e), λ e. absurd (cc (e.0)))
  missing_step undefined next h = (λ e. absurd (h e), λ e. absurd (cc (e.0)))
  missing_step (thrown c) next h = elim (Bool-cases (is_not_found c)) [
    | inl same ↦ rw same ((λ e. (ap thrown (is_not_found_eq c same), e)), λ e. e.1)
    | inr other ↦ rw other (
      (λ e. absurd (h e)),
      λ e.
          absurd (
            cc
              (other, ap is_not_found (thrown_inj c _ e.0), equal_self (codes "MODULE_NOT_FOUND"))),
    )
  ]
    where
      thrown_inj : (a b : Option JsString) → thrown a ≡ thrown b → a ≡ b
      thrown_inj a b e = cc e

  -- The search ends with the error "not found" exactly when requiring the file of the parser
  -- throws an error with the code MODULE_NOT_FOUND for every directory.
  pub search_dirs-not_found_iff :
      (dirs : List JsString)
      → (search_dirs platform require name dirs module_not_found ≡ err module_not_found)
        ↔ All IsMissing dirs
  unfolding search_dirs
  search_dirs-not_found_iff [] = (λ _. tt, λ _. refl)
  search_dirs-not_found_iff (dir ∷ dirs) =
      let ih = search_dirs-not_found_iff dirs in
      let step =
        missing_step (module_in platform require name dir)
          (λ code. search_dirs platform require name dirs code) (search_dirs-invalid dirs) in
      (λ e. let (here, later) = step.0 e in (here, ih.0 later), λ h. step.1 (h.0, ih.1 h.1))

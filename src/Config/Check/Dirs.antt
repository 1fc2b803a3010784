-- ===== src/Config/Check/Dirs.antt =====
-- The directories of parsers after the check.
use fiware_monitoring.Config.{Config, defaults}
use fiware_monitoring.Js.Text.Split.{All-Free-split, Free, split-cons, split-join}
use fiware_monitoring.Base.{
  some, some_inj, sym, All, Bool, Bool-cases, List, [], false, inl, inr, map, not, ok, refl, true,
  ◌&&◌, ◌∷◌, ◌≡◌, arith, ◌∙◌, none, ℕ, ◌↔◌, ◌≢◌, Result, err, ◌++◌,
}
use fiware_monitoring.Config.Check.{unique_from, all_dirs, check_dirs, normalize}
use fiware_monitoring.Domain.{Error}
use fiware_monitoring.Js.Text.{JsString, codes, contains, split, join}
use fiware_monitoring.Js.Text.Equality.{equal_iff, equal_self}
use fiware_monitoring.Platform.{Platform}
use fiware_monitoring.Config.Check.Resolve.{
  CanRead, IsDenied, resolve_dirs-All, resolve_dirs-CanRead, resolve_dirs-IsDenied,
  resolve_dirs_denied,
}

-- No item twice.
abbrev pub IsUnique : List JsString → Type 0
IsUnique [] = Unit
IsUnique (item ∷ list) = (contains list item ≡ false) × IsUnique list

contains-unique_from :
    (seen list : List JsString) (s : JsString)
    → contains (unique_from seen list) s ≡ contains list s && not (contains seen s)
unfolding unique_from contains
contains-unique_from seen [] s = refl
contains-unique_from seen (item ∷ list) s =
    ground (arith, contains-unique_from (item ∷ seen) list s, equal_iff item s)

and_false : (b : Bool) → b && false ≡ false
and_false true = refl
and_false false = refl

unique_from-IsUnique : (seen list : List JsString) → IsUnique (unique_from seen list)
unfolding unique_from contains
unique_from-IsUnique seen [] = tt
unique_from-IsUnique seen (item ∷ list) = elim (Bool-cases (contains seen item)) [
  | inl e ↦ rw e (unique_from-IsUnique (item ∷ seen) list)
  | inr e ↦ rw e (
    contains-unique_from (item ∷ seen) list item
        ∙ (unfold contains in rw (equal_self item) (and_false (contains list item))),
    unique_from-IsUnique (item ∷ seen) list,
  )
]

and_true : (b : Bool) → b && true ≡ b
and_true true = refl
and_true false = refl

contains_unique :
    (list : List JsString) (s : JsString) → contains (unique_from [] list) s ≡ contains list s
contains_unique list s =
    contains-unique_from [] list s ∙ (unfold contains in and_true (contains list s))

split-join_ne :
    (c : ℕ) (list : List JsString)
    → list ≢ []
    → All (Free c) list
    → split c (join (c ∷ []) list) ≡ list
split-join_ne c [] ne h = absurd (ne refl)
split-join_ne c (p ∷ ps) ne h = split-join c p ps h

module _ (platform : Platform) (can_read : JsString → Bool) where
  All-Free-unique_from :
      (c : ℕ) (seen list : List JsString) → All (Free c) list → All (Free c) (unique_from seen list)
  unfolding unique_from
  All-Free-unique_from c seen [] h = tt
  All-Free-unique_from c seen (item ∷ list) (p, h) = elim (Bool-cases (contains seen item)) [
    | inl e ↦ rw e (All-Free-unique_from c (item ∷ seen) list h)
    | inr e ↦ rw e (p, All-Free-unique_from c (item ∷ seen) list h)
  ]

  All-Free-map :
      (c : ℕ)
      → ((dir : JsString) → Free c dir → Free c (platform.path_resolve dir))
      → (dirs : List JsString) → All (Free c) dirs
      → All (Free c) (map platform.path_resolve dirs)
  All-Free-map c free [] h = tt
  All-Free-map c free (dir ∷ dirs) (p, h) = (free dir p, All-Free-map c free dirs h)

  unique_from-ne :
      (c : ℕ) (s : JsString) → unique_from [] (map platform.path_resolve (split c s)) ≢ []
  unique_from-ne c s = let (p, ps, e) = split-cons c s in rw e (unfold unique_from contains in cc)

  normalize-none :
      (user : JsString) (config : Config) (r : Result JsString (List JsString))
      → (normalize user config r).1 ≡ none
      → (list : List JsString) × (r ≡ ok list)
  unfolding normalize
  normalize-none user config (ok list) e = (list, refl)
  normalize-none user config (err dir) e = absurd (cc e)

  abbrev denied_message : JsString → JsString → Error
  denied_message user path =
      codes "Server user \""
      ++ (user ++ (codes "\" cannot access parsers directory \"" ++ (path ++ codes "\"")))

  normalize-some :
      (user : JsString) (config : Config) (r : Result JsString (List JsString)) (e : Error)
      → (normalize user config r).1 ≡ some e
      → (path : JsString) × (r ≡ err path) × (e ≡ denied_message user path)
  unfolding normalize
  normalize-some user config (ok list) e h = absurd (cc h)
  normalize-some user config (err dir) e h = (dir, refl, some_inj e _ (sym h))

  pub check_dirs-All_iff :
      (user : JsString) (config : Config)
      → ((check_dirs platform can_read user config).1 ≡ none)
        ↔ All (CanRead platform can_read) (all_dirs config)
  unfolding check_dirs
  check_dirs-All_iff user config = (
    λ e.
        let (list, run) = normalize-none user config _ e in
        resolve_dirs-CanRead platform can_read (all_dirs config) list run,
    λ h. rw (resolve_dirs-All platform can_read (all_dirs config) h) (unfold normalize in refl),
  )

  -- The check of the directories finds no error, for which it does not call its callback, exactly
  -- when every directory of the option and of the default can be read; and it finds an error, for
  -- its callback, exactly when there is a first one that cannot be read, which the message names
  -- by its absolute path.
  pub check_dirs_iff :
      (user : JsString) (config : Config)
      → (((check_dirs platform can_read user config).1 ≡ none)
          ↔ All (CanRead platform can_read) (all_dirs config))
        × ((e : Error)
            → ((check_dirs platform can_read user config).1 ≡ some e) ↔ (
                (path : JsString) × IsDenied platform can_read (all_dirs config) path
                × (e
                    ≡ codes "Server user \""
                      ++ (user
                          ++ (codes "\" cannot access parsers directory \""
                              ++ (path ++ codes "\""))))))
  unfolding check_dirs
  check_dirs_iff user config = (
    check_dirs-All_iff user config,
    λ e. (
      (λ h.
          let (path, run, message) = normalize-some user config _ e h in
          (path, resolve_dirs-IsDenied platform can_read (all_dirs config) path run, message)),
      (λ h.
          let (path, d, message) = h in
          rw
            (
              d.splits,
              resolve_dirs_denied platform can_read d.before d.dir d.after d.read_before d.denied,
              message,
              d.is_path,
            )
            (unfold normalize in refl)),
    ),
  )

  -- If every directory can be read and the absolute path of a directory without a colon has none,
  -- the directories that the factory then searches are the absolute paths of those of the option
  -- and of the default, each of them once.
  pub check_dirs-IsUnique :
      (user : JsString) (config : Config)
      → All (CanRead platform can_read) (all_dirs config)
      → ((dir : JsString) → Free b':' dir → Free b':' (platform.path_resolve dir))
      → IsUnique (split b':' (check_dirs platform can_read user config).0.parsers_path)
        × ((s : JsString)
            → contains (split b':' (check_dirs platform can_read user config).0.parsers_path) s
              ≡ contains (map platform.path_resolve (all_dirs config)) s)
  unfolding check_dirs normalize
  check_dirs-IsUnique user config h free =
      let dirs = map platform.path_resolve (all_dirs config) in
      rw (resolve_dirs-All platform can_read (all_dirs config) h) (
        rw
          (split-join_ne b':' (unique_from [] dirs)
            (unique_from-ne b':' (config.parsers_path ++ (b':' ∷ defaults.parsers_path)))
            (All-Free-unique_from b':' [] dirs
              (All-Free-map b':' free (all_dirs config) (All-Free-split b':' _))))
          (unique_from-IsUnique [] dirs, contains_unique dirs))

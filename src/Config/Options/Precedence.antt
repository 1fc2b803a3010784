-- ===== src/Config/Options/Precedence.antt =====
-- Where the value of an option comes from.
use fiware_monitoring.Js.Text.Equality.{equal_iff}
use fiware_monitoring.Base.{
  Bool-cases, List, Memᴰ, Option, [], inl, inr, refl, some, ◌∷◌, ◌≡◌, All, All-Memᴰ, ap, false, ◌∙◌,
  some_inj,
}
use fiware_monitoring.Config.Options.{
  CollectsValues, Given, OptimistModule, OptionSpec, Setting, collected, config_members,
  option_specs, pop, settle, settled, value,
}
use fiware_monitoring.Js.Object.{lookup}
use fiware_monitoring.Js.Text.{JsString, codes, equal}
use fiware_monitoring.Config.Options.Table.{
  All-program_options, default_from, program_options, row, spec_of, value_in,
}

-- The last of some values, or else the default.
abbrev pub last_or : Setting → List Setting → Setting
last_or fallback [] = fallback
last_or fallback (v ∷ vs) = last_or v vs

settled-collected :
    (fallback : Setting) (vs : List Setting)
    → settled (collected fallback vs) ≡ value (last_or fallback vs)
settled-collected fallback [] = refl
settled-collected fallback (v ∷ []) = refl
settled-collected fallback (v ∷ w ∷ vs) = pop-last_or v (w ∷ vs)
  where
    pop-last_or : (v : Setting) (vs : List Setting) → pop (v ∷ vs) ≡ value (last_or v vs)
    pop-last_or v [] = refl
    pop-last_or v (w ∷ vs) = pop-last_or w vs

lookup-settle :
    (key : JsString) (members : List (JsString × Given)) (g : Given)
    → equal key (codes "_") ≡ false
    → lookup key members ≡ some g
    → lookup key (settle members) ≡ some (settled g)
unfolding lookup settle
lookup-settle key [] g free h = absurd (cc h)
lookup-settle key ((name, g') ∷ members) g free h = elim (Bool-cases (equal name key)) [
  | inl e ↦
      let same : g' ≡ g = some_inj g' g (rw e at h) in
      let named : equal name (codes "_") ≡ false =
        ap (λ n. equal n (codes "_")) ((equal_iff name key).0 e) ∙ free in
      rw (e, named) (ap (λ x. some (settled x)) same)
  | inr e ↦ rw e (lookup-settle key members g free (rw e at h))
]

-- No option is called as the other arguments are.
abbrev IsNamed : OptionSpec → Type 0
IsNamed spec = (equal spec.letter (codes "_") ≡ false) × (equal spec.alias (codes "_") ≡ false)

All-IsNamed : (env : JsString → Option JsString) → All IsNamed (option_specs env)
unfolding equal
All-IsNamed env = (
  (refl, refl),
  (
    (refl, refl),
    (
      (refl, refl),
      (
        (refl, refl),
        ((refl, refl), ((refl, refl), ((refl, refl), ((refl, refl), ((refl, refl), tt))))),
      ),
    ),
  ),
)

-- When optimist collects the values of the options of the program as documented, each option of
-- the program has, under its letter and under its name, the last value that the command line
-- gives, or else that of its variable of the environment if it is not empty, or else its default.
pub config_members-last_or :
    (optimist : OptimistModule) (env : JsString → Option JsString)
    (collects : CollectsValues optimist (option_specs env)) (line : List JsString)
    (letter alias : JsString) (variable : Option JsString) (fallback : Setting)
    → Memᴰ (row letter alias variable fallback) program_options
    → (lookup letter (config_members optimist env line)
        ≡ some (
            value (
              last_or
                (default_from (value_in env variable) fallback)
                (optimist.given_for letter alias line))))
      × (lookup alias (config_members optimist env line)
          ≡ some (
              value (
                last_or
                  (default_from (value_in env variable) fallback)
                  (optimist.given_for letter alias line))))
unfolding config_members
config_members-last_or optimist env collects line letter alias variable fallback m =
    let spec = spec_of env (row letter alias variable fallback) in
    let listed =
      All-Memᴰ (λ r. Memᴰ (spec_of env r) (option_specs env)) program_options
        (All-program_options env) m in
    let named = All-Memᴰ IsNamed (option_specs env) (All-IsNamed env) listed in
    let given_ = optimist.given_for letter alias line in
    (
      lookup-settle letter _ _ named.0 (collects.under_letter line spec listed)
          ∙ ap some (settled-collected spec.default_setting given_),
      lookup-settle alias _ _ named.1 (collects.under_alias line spec listed)
          ∙ ap some (settled-collected spec.default_setting given_),
    )

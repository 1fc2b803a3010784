-- ===== src/Adapter/Main/Starts.antt =====
-- When the process starts to serve.
use fiware_monitoring.Adapter.Main.{Process, after_check, ended, main, running}
use fiware_monitoring.Base.{
  All, length, ◌*◌, ◌+◌, Bool, Bool-cases, Option, arith, false, inl, inr, ltb, none, not, refl,
  some, ◌==◌, ◌||◌, ◌↔◌, ◌≡◌, ◌≢◌,
}
use fiware_monitoring.Config.{Config}
use fiware_monitoring.Config.Check.{
  Arguments, all_dirs, check, check_broker, check_dirs, expected_key_count,
}
use fiware_monitoring.Config.Options.{option_specs}
use fiware_monitoring.Config.Check.Dirs.{check_dirs-All_iff}
use fiware_monitoring.Config.Check.Resolve.{CanRead}
use fiware_monitoring.Domain.{Error}
use fiware_monitoring.Js.Text.{JsString}
use fiware_monitoring.Platform.{Platform}

abbrev pub IsServing : Process → Type 0
IsServing (running sockets) = Unit
IsServing (ended exit_code) = ⊥

module _ (platform : Platform) (can_read : JsString → Bool) (user : JsString) where
  -- What the command line, the directories of parsers and the URL of ContextBroker have to be.
  pub record IsFit (arguments : Arguments) (config : Config) : Type 0 where
    pub no_help : arguments.help ≡ false
    pub no_others : arguments.others ≡ 0
    pub no_extra_keys : arguments.key_count ≡ 2 * length (option_specs (λ name. none)) + 3
    pub all_readable : All (CanRead platform can_read) (all_dirs config)
    pub has_path : (platform.parse_url config.broker_url).pathname ≢ none

  -- The first test of the check.
  is_wrong : Arguments → Bool
  is_wrong arguments =
      arguments.help || ltb 0 arguments.others || not (arguments.key_count == expected_key_count)

  is_wrong_iff :
      (arguments : Arguments)
      → ((is_wrong arguments) ≡ false) ↔ (
          (arguments.help ≡ false)
          × (arguments.others ≡ 0)
          × (arguments.key_count ≡ expected_key_count))
  unfolding is_wrong
  is_wrong_iff arguments = ground arith

  serves_after :
      (dirs : Config × Option Error) (pathname : Option JsString)
      → (IsServing (after_check (check_broker platform can_read dirs pathname)).0)
        ↔ ((dirs.1 ≡ none) × (pathname ≢ none))
  unfolding after_check check_broker
  serves_after (c, none) none = (λ h. absurd h, λ h. h.1 refl)
  serves_after (c, some e) none = (λ h. absurd h, λ h. cc (h.0))
  serves_after (c, none) (some pathname) = (λ _. (refl, cc), λ _. tt)
  serves_after (c, some e) (some pathname) = (λ h. absurd h, λ h. cc (h.0))

  -- The process starts to serve exactly when the command line has neither the help nor other
  -- arguments, the configuration has two keys for each option that it describes and three more,
  -- every directory of the option and of the default can be read, and the URL of ContextBroker has
  -- a path.
  pub main-IsFit_iff :
      (arguments : Arguments) (config : Config)
      → (IsServing (main platform can_read user arguments config).0) ↔ IsFit arguments config
  unfolding main check is_wrong
  main-IsFit_iff arguments config = elim (Bool-cases (is_wrong arguments)) [
    | inl wrong ↦ (
      λ h. absurd (rw wrong at h),
      λ fit.
          absurd (
            cc (wrong, (is_wrong_iff arguments).1 (fit.no_help, fit.no_others, fit.no_extra_keys))),
    )
    | inr right ↦
        let (help, others, keys) = (is_wrong_iff arguments).0 right in
        rw right (
          (λ h.
              let (checked, path) =
                (serves_after (check_dirs platform can_read user config)
                    (platform.parse_url config.broker_url).pathname).0
                  h in
              record {
                no_help = help;
                no_others = others;
                no_extra_keys = keys;
                all_readable = (check_dirs-All_iff platform can_read user config).0 checked;
                has_path = path;
              }),
          (λ fit. (serves_after (check_dirs platform can_read user config) _).1 (
            (check_dirs-All_iff platform can_read user config).1 fit.all_readable,
            fit.has_path,
          )),
        )
  ]

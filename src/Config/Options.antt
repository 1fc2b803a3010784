-- ===== src/Config/Options.antt =====
-- The options of ngsi_adapter/lib/config.js: the defaults from the environment, and what the command line gives.
pub mod Table
pub mod Precedence
use fiware_monitoring.Base.{
  Bool, List, Memᴰ, Option, [], false, if◌then◌else◌, none, some, ℕ, ◌∷◌, ◌≡◌,
}
use fiware_monitoring.Config.{defaults}
use fiware_monitoring.Js.Object.{lookup}
use fiware_monitoring.Js.Text.{JsString, codes, equal, is_truthy}

-- The value of an option.
pub data Setting : Type 0 where
  text_setting : JsString → Setting
  nat_setting : ℕ → Setting
  flag_setting : Bool → Setting
  null_setting : Setting

-- What a key of `opts.argv` has: a value, an array for an option that is repeated, or undefined.
pub data Given : Type 0 where
  value : Setting → Given
  values : List Setting → Given
  no_value : Given

-- An option: its letter, its alias and its default.
pub record OptionSpec : Type 0 where
  pub letter : JsString
  pub alias : JsString
  pub default_setting : Setting

-- `process.env[name] || fallback`
abbrev pub env_or : Option JsString → Setting → Setting
env_or none fallback = fallback
env_or (some s) fallback = if is_truthy s then text_setting s else fallback

abbrev pub or_null : Option JsString → Setting
or_null none = null_setting
or_null (some s) = text_setting s

-- The options, in an environment.
abbrev pub option_specs : (JsString → Option JsString) → List OptionSpec
option_specs env =
    record {
      letter = codes "l";
      alias = codes "logLevel";
      default_setting = env_or (env (codes "ADAPTER_LOGLEVEL")) (text_setting defaults.log_level);
    }
    ∷ record {
      letter = codes "H";
      alias = codes "listenHost";
      default_setting =
          env_or (env (codes "ADAPTER_LISTEN_HOST")) (text_setting defaults.listen_host);
    }
    ∷ record {
      letter = codes "p";
      alias = codes "listenPort";
      default_setting = env_or (env (codes "ADAPTER_LISTEN_PORT")) (nat_setting 1337);
    }
    ∷ record {
      letter = codes "u";
      alias = codes "udpEndpoints";
      default_setting =
          env_or (env (codes "ADAPTER_UDP_ENDPOINTS")) (or_null defaults.udp_endpoints);
    }
    ∷ record {
      letter = codes "P";
      alias = codes "parsersPath";
      default_setting =
          env_or (env (codes "ADAPTER_PARSERS_PATH")) (text_setting defaults.parsers_path);
    }
    ∷ record {
      letter = codes "b";
      alias = codes "brokerUrl";
      default_setting =
          env_or (env (codes "ADAPTER_BROKER_URL")) (text_setting defaults.broker_url);
    }
    ∷ record {
      letter = codes "m";
      alias = codes "maxRequests";
      default_setting =
          env_or (env (codes "ADAPTER_MAX_REQUESTS")) (nat_setting defaults.max_requests);
    }
    ∷ record {
      letter = codes "r";
      alias = codes "retries";
      default_setting = env_or (env (codes "ADAPTER_RETRIES")) (nat_setting defaults.retries);
    }
    ∷ record { letter = codes "h"; alias = codes "help"; default_setting = flag_setting false }
    ∷ []

-- The module `optimist`, as it is used: the members of `argv` for options and a command line, and the
-- values that a command line has for the option of a letter and an alias, in their order.
pub record OptimistModule : Type 0 where
  pub argv : List OptionSpec → List JsString → List (JsString × Given)
  pub given_for : JsString → JsString → List JsString → List Setting

-- The default, the value, or an array of the values.
abbrev pub collected : Setting → List Setting → Given
collected fallback [] = value fallback
collected fallback (v ∷ []) = value v
collected fallback (v ∷ w ∷ vs) = values (v ∷ w ∷ vs)

-- Its documentation, for some options: each stands under its letter and under its alias, with what
-- was collected.
pub record CollectsValues (optimist : OptimistModule) (specs : List OptionSpec) : Type 0 where
  pub under_letter :
      (line : List JsString) (spec : OptionSpec)
      → Memᴰ spec specs
      → lookup spec.letter (optimist.argv specs line)
        ≡ some (collected spec.default_setting (optimist.given_for spec.letter spec.alias line))
  pub under_alias :
      (line : List JsString) (spec : OptionSpec)
      → Memᴰ spec specs
      → lookup spec.alias (optimist.argv specs line)
        ≡ some (collected spec.default_setting (optimist.given_for spec.letter spec.alias line))

-- `array.pop()`
abbrev pub pop : List Setting → Given
pop [] = no_value
pop (v ∷ []) = value v
pop (v ∷ w ∷ vs) = pop (w ∷ vs)

-- `config[name]` after the loop.
abbrev pub settled : Given → Given
settled (values vs) = pop vs
settled g = g

-- The loop over the members of `config`, where `_` has the other arguments; `opts.argv`, which is read
-- again for each, has the same members.
unfoldable pub settle : List (JsString × Given) → List (JsString × Given)
unfolding equal
settle [] = []
settle ((name, g) ∷ members) =
    let rest = settle members in (name, (if equal name (codes "_") then g else settled g)) ∷ rest

-- `module.exports` of config.js before `check` is added.
unfoldable pub config_members :
    OptimistModule → (JsString → Option JsString) → List JsString → List (JsString × Given)
unfolding settle
config_members optimist env line = settle (optimist.argv (option_specs env) line)

-- ===== src/Config/Options/Table.antt =====
-- The options of the program as a table, against the definition of the options in the code.
use fiware_monitoring.Base.{List, Memᴰ, Option, [], none, refl, some, ◌∷◌, ◌≡◌, All, ap, false}
use fiware_monitoring.Config.Options.{
  OptionSpec, Setting, option_specs, env_or, text_setting, nat_setting, flag_setting, null_setting,
}
use fiware_monitoring.Js.Text.{JsString, codes}

-- An option: its letter, its name, its variable of the environment, and its default.
pub data Row : Type 0 where
  row : JsString → JsString → Option JsString → Setting → Row

abbrev pub program_options : List Row
program_options =
    row (codes "l") (codes "logLevel") (some (codes "ADAPTER_LOGLEVEL"))
      (text_setting (codes "INFO"))
    ∷ row (codes "H") (codes "listenHost") (some (codes "ADAPTER_LISTEN_HOST"))
        (text_setting (codes "0.0.0.0"))
    ∷ row (codes "p") (codes "listenPort") (some (codes "ADAPTER_LISTEN_PORT")) (nat_setting 1337)
    ∷ row (codes "u") (codes "udpEndpoints") (some (codes "ADAPTER_UDP_ENDPOINTS")) (null_setting)
    ∷ row (codes "P") (codes "parsersPath") (some (codes "ADAPTER_PARSERS_PATH"))
        (text_setting (codes "lib/parsers:lib/parsers/nagios"))
    ∷ row (codes "b") (codes "brokerUrl") (some (codes "ADAPTER_BROKER_URL"))
        (text_setting (codes "http://127.0.0.1:1026/"))
    ∷ row (codes "m") (codes "maxRequests") (some (codes "ADAPTER_MAX_REQUESTS")) (nat_setting 5)
    ∷ row (codes "r") (codes "retries") (some (codes "ADAPTER_RETRIES")) (nat_setting 2)
    ∷ row (codes "h") (codes "help") none (flag_setting false)
    ∷ []

-- The value of a variable that is not empty, or else the default of the program.
abbrev pub default_from : Option JsString → Setting → Setting
default_from none fallback = fallback
default_from (some []) fallback = fallback
default_from (some (c ∷ s)) fallback = text_setting (c ∷ s)

abbrev pub value_in : (JsString → Option JsString) → Option JsString → Option JsString
value_in env none = none
value_in env (some variable) = env variable

default_from-env_or :
    (o : Option JsString) (fallback : Setting) → default_from o fallback ≡ env_or o fallback
default_from-env_or none fallback = refl
default_from-env_or (some []) fallback = refl
default_from-env_or (some (c ∷ s)) fallback = refl

row_eq :
    (l a : JsString) (o : Option JsString) (fallback : Setting)
    → ◌≡◌ {A = OptionSpec}
        (record { letter = l; alias = a; default_setting = default_from o fallback })
        (record { letter = l; alias = a; default_setting = env_or o fallback })
row_eq l a o fallback =
    ap (λ d. record { letter = l; alias = a; default_setting = d }) (default_from-env_or o fallback)

abbrev pub spec_of : (JsString → Option JsString) → Row → OptionSpec
spec_of env (row l a variable fallback) = record {
  letter = l;
  alias = a;
  default_setting = default_from (value_in env variable) fallback;
}

-- The options of the code are these.
pub All-program_options :
    (env : JsString → Option JsString)
    → All (λ r. Memᴰ (spec_of env r) (option_specs env)) program_options
All-program_options env = (
  Memᴰ.head (
      row_eq (codes "l") (codes "logLevel") (env (codes "ADAPTER_LOGLEVEL"))
        (text_setting (codes "INFO"))),
  (
    Memᴰ.tail (
        Memᴰ.head (
          row_eq (codes "H") (codes "listenHost") (env (codes "ADAPTER_LISTEN_HOST"))
            (text_setting (codes "0.0.0.0")))),
    (
      Memᴰ.tail (
          Memᴰ.tail (
            Memᴰ.head (
              row_eq (codes "p") (codes "listenPort") (env (codes "ADAPTER_LISTEN_PORT"))
                (nat_setting 1337)))),
      (
        Memᴰ.tail (
            Memᴰ.tail (
              Memᴰ.tail (
                Memᴰ.head (
                  row_eq (codes "u") (codes "udpEndpoints") (env (codes "ADAPTER_UDP_ENDPOINTS"))
                    (null_setting))))),
        (
          Memᴰ.tail (
              Memᴰ.tail (
                Memᴰ.tail (
                  Memᴰ.tail (
                    Memᴰ.head (
                      row_eq (codes "P") (codes "parsersPath") (env (codes "ADAPTER_PARSERS_PATH"))
                        (text_setting (codes "lib/parsers:lib/parsers/nagios"))))))),
          (
            Memᴰ.tail (
                Memᴰ.tail (
                  Memᴰ.tail (
                    Memᴰ.tail (
                      Memᴰ.tail (
                        Memᴰ.head (
                          row_eq (codes "b") (codes "brokerUrl") (env (codes "ADAPTER_BROKER_URL"))
                            (text_setting (codes "http://127.0.0.1:1026/")))))))),
            (
              Memᴰ.tail (
                  Memᴰ.tail (
                    Memᴰ.tail (
                      Memᴰ.tail (
                        Memᴰ.tail (
                          Memᴰ.tail (
                            Memᴰ.head (
                              row_eq (codes "m") (codes "maxRequests")
                                (env (codes "ADAPTER_MAX_REQUESTS")) (nat_setting 5)))))))),
              (
                Memᴰ.tail (
                    Memᴰ.tail (
                      Memᴰ.tail (
                        Memᴰ.tail (
                          Memᴰ.tail (
                            Memᴰ.tail (
                              Memᴰ.tail (
                                Memᴰ.head (
                                  row_eq (codes "r") (codes "retries")
                                    (env (codes "ADAPTER_RETRIES")) (nat_setting 2))))))))),
                (
                  Memᴰ.tail (
                      Memᴰ.tail (
                        Memᴰ.tail (
                          Memᴰ.tail
                            (Memᴰ.tail (Memᴰ.tail (Memᴰ.tail (Memᴰ.tail (Memᴰ.head (refl))))))))),
                  tt,
                ),
              ),
            ),
          ),
        ),
      ),
    ),
  ),
)

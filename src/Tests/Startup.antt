-- ===== src/Tests/Startup.antt =====
-- The theorems about the options, the start and the end of the process, at concrete inputs.
use fiware_monitoring.Adapter.Program.{Program, ProgramReach, message_came, started, went_on}
use fiware_monitoring.Adapter.Program.Sockets.{ProgramReach-bind}
use fiware_monitoring.Adapter.Main.{Socket, running, sockets_of}
use fiware_monitoring.Adapter.Endpoints.{endpoints, endpoint_of, bind}
use fiware_monitoring.Adapter.Exchange.{Exchange, open_udp}
use fiware_monitoring.Adapter.Server.Alone.{expected_at}
use fiware_monitoring.Parsers.Factory.{get_parser_by_name}
use fiware_monitoring.Js.Text.{split}
use fiware_monitoring.Base.{get_elem?, ℕ}
use fiware_monitoring.Config.{Config}
use fiware_monitoring.Tests.Sample.{fresh, installed, load_line, retry_module}
use fiware_monitoring.Base.{Memᴰ}
use fiware_monitoring.Config.Options.{value}
use fiware_monitoring.Base.{true, false, ◌↔◌}
use fiware_monitoring.Config.Options.{config_members}
use fiware_monitoring.Config.Options.Precedence.{config_members-last_or}
use fiware_monitoring.Config.Check.{Arguments, expected_key_count}
use fiware_monitoring.Adapter.Main.{ProcessEvent, http_listening, life, main, signalled, thrown_out}
use fiware_monitoring.Adapter.Main.Starts.{IsServing, IsFit, main-IsFit_iff}
use fiware_monitoring.Adapter.Main.Stops.{EndsWell, exit_code_of, first_end, life-EndsWell}
use fiware_monitoring.Tests.Sample.{node}
use fiware_monitoring.Base.{
  ◌⊎◌, All, All-Memᴰ, Bool, List, Option, [], if◌then◌else◌, none, refl, some, ◌||◌, ◌∷◌, ◌≡◌,
}
use fiware_monitoring.Config.{defaults}
use fiware_monitoring.Config.Options.{
  CollectsValues, Given, OptimistModule, OptionSpec, Setting, collected, option_specs, text_setting,
  nat_setting,
}
use fiware_monitoring.Js.Object.{lookup}
use fiware_monitoring.Js.Text.{JsString, codes, equal}

-- A command line of pairs of a name and a value.
abbrev is_name_of : JsString → JsString → JsString → Bool
is_name_of letter alias s = equal s (b'-' ∷ letter) || equal s (b'-' ∷ b'-' ∷ alias)

abbrev given_of : JsString → JsString → List JsString → List Setting
given_of letter alias [] = []
given_of letter alias (k ∷ []) = []
given_of letter alias (k ∷ v ∷ line) =
    let rest = given_of letter alias line in
    if is_name_of letter alias k then text_setting v ∷ rest else rest

abbrev members_of : List OptionSpec → List JsString → List (JsString × Given)
members_of [] line = []
members_of (spec ∷ specs) line =
    (spec.letter, collected spec.default_setting (given_of spec.letter spec.alias line))
    ∷ (spec.alias, collected spec.default_setting (given_of spec.letter spec.alias line))
    ∷ members_of specs line

abbrev pairs : OptimistModule
pairs = record { argv = members_of; given_for = given_of }

abbrev no_env : JsString → Option JsString
no_env name = if equal name (codes "ADAPTER_RETRIES") then some (codes "4") else none

IsUnderLetter : List JsString → OptionSpec → Type 0
IsUnderLetter line spec =
    lookup spec.letter (members_of (option_specs no_env) line)
    ≡ some (collected spec.default_setting (given_of spec.letter spec.alias line))

All-IsUnderLetter : (line : List JsString) → All (IsUnderLetter line) (option_specs no_env)
unfolding IsUnderLetter lookup equal
All-IsUnderLetter line = (refl, (refl, (refl, (refl, (refl, (refl, (refl, (refl, (refl, tt)))))))))

IsUnderAlias : List JsString → OptionSpec → Type 0
IsUnderAlias line spec =
    lookup spec.alias (members_of (option_specs no_env) line)
    ≡ some (collected spec.default_setting (given_of spec.letter spec.alias line))

All-IsUnderAlias : (line : List JsString) → All (IsUnderAlias line) (option_specs no_env)
unfolding IsUnderAlias lookup equal
All-IsUnderAlias line = (refl, (refl, (refl, (refl, (refl, (refl, (refl, (refl, (refl, tt)))))))))

pairs-CollectsValues : CollectsValues pairs (option_specs no_env)
unfolding IsUnderLetter IsUnderAlias
pairs-CollectsValues = record {
  under_letter =
      λ line spec m. All-Memᴰ (IsUnderLetter line) (option_specs no_env) (All-IsUnderLetter line) m;
  under_alias =
      λ line spec m. All-Memᴰ (IsUnderAlias line) (option_specs no_env) (All-IsUnderAlias line) m;
}

abbrev two_ports : List JsString
two_ports = codes "-p" ∷ codes "1338" ∷ codes "--listenPort" ∷ codes "1339" ∷ []

config_members-last_or_example :
    (lookup (codes "r") (config_members pairs no_env two_ports)
      ≡ some (value (text_setting (codes "4"))))
    × (lookup (codes "retries") (config_members pairs no_env two_ports)
        ≡ some (value (text_setting (codes "4"))))
unfolding equal
config_members-last_or_example =
    config_members-last_or pairs no_env pairs-CollectsValues two_ports (codes "r") (codes "retries")
      (some (codes "ADAPTER_RETRIES")) (nat_setting 2)
      (Memᴰ.tail
        (Memᴰ.tail (Memᴰ.tail (Memᴰ.tail (Memᴰ.tail (Memᴰ.tail (Memᴰ.tail (Memᴰ.head refl))))))))

abbrev no_arguments : Arguments
no_arguments = record { help = false; others = 0; key_count = expected_key_count }

abbrev is_there : JsString → Bool
is_there dir = true

main-IsFit_iff_example :
    (IsServing (main node is_there (codes "adapter") no_arguments defaults).0)
    ↔ IsFit node is_there (codes "adapter") no_arguments defaults
main-IsFit_iff_example = main-IsFit_iff node is_there (codes "adapter") no_arguments defaults

abbrev stopping : List ProcessEvent
stopping = http_listening (codes "0.0.0.0") 1337 ∷ signalled ∷ thrown_out (codes "late") ∷ []

life-EndsWell_example :
    EndsWell
      (life node is_there (codes "adapter") no_arguments defaults stopping).0
      (life node is_there (codes "adapter") no_arguments defaults stopping).1
    × ((IsFit node is_there (codes "adapter") no_arguments defaults
          × (exit_code_of (life node is_there (codes "adapter") no_arguments defaults stopping).0
              ≡ first_end stopping))
        ⊎ ((IsFit node is_there (codes "adapter") no_arguments defaults → ⊥)
            × (exit_code_of (life node is_there (codes "adapter") no_arguments defaults stopping).0
                ≡ some 1)))
life-EndsWell_example = life-EndsWell node is_there (codes "adapter") no_arguments defaults stopping

abbrev with_socket : Config
with_socket = record defaults { udp_endpoints = some (codes "127.0.0.1:1338:check_load") }

abbrev load_socket : Socket
load_socket = record { parser_name = codes "check_load"; is_open = true }

bound_socket : get_elem? (sockets_of (endpoints with_socket)) 0 ≡ some load_socket
unfolding endpoints endpoint_of split
bound_socket = refl

abbrev socket_item : Exchange ℕ
socket_item =
    open_udp node retry_module with_socket fresh (codes "check_load") load_line none
      (get_parser_by_name node installed with_socket [] (codes "check_load")).1

abbrev started_up : Program node installed retry_module with_socket
started_up = record {
  process = running (sockets_of (endpoints with_socket));
  server = record { cache = []; exchanges = [] };
}

abbrev got_message : Program node installed retry_module with_socket
got_message = record {
  process = running (sockets_of (endpoints with_socket));
  server = record {
    cache = (get_parser_by_name node installed with_socket [] (codes "check_load")).0;
    exchanges = socket_item ∷ [];
  };
}

got_message-ProgramReach : ProgramReach node installed retry_module with_socket got_message
got_message-ProgramReach = went_on {p = started_up} started (
    message_came (sockets_of (endpoints with_socket)) 0 load_socket fresh load_line none refl
      bound_socket refl)

ProgramReach-bind_example :
    (host : JsString) × (port : Option (Bool × ℕ)) × Memᴰ
      (bind host port (codes "check_load"))
      (endpoints with_socket)
    × (socket_item.effects
        ≡ expected_at node installed retry_module with_socket socket_item.stage socket_item)
unfolding open_udp
ProgramReach-bind_example =
    ProgramReach-bind node installed retry_module with_socket (codes "check_load") load_line
      got_message-ProgramReach (Memᴰ.head refl) refl

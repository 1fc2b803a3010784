-- ===== src/Tests/Serving.antt =====
-- The theorems about the server, for a request whose update fails, among other exchanges.
use fiware_monitoring.Adapter.Server.Silent.{Reach-silent}
use fiware_monitoring.Adapter.Udp.Silent.{nagios_parser-LeavesEntity}
use fiware_monitoring.Adapter.Server.Delivered.{Reach-delivers}
use fiware_monitoring.Adapter.Update.Attempts.{replicate, sent}
use fiware_monitoring.Js.Object.{insert, integer}
use fiware_monitoring.Parsers.BaseParser.Attributes.{attributes, texts}
use fiware_monitoring.Adapter.Effect.{Effect, requests}
use fiware_monitoring.Adapter.Listener.Status.{StatusOf, accepted}
use fiware_monitoring.Adapter.Server.Alone.{expected_at}
use fiware_monitoring.Adapter.Server.Emitted.{Emits, HeadsAround}
use fiware_monitoring.Adapter.Server.Answered.{Reach-heads}
use fiware_monitoring.Adapter.Server.Ends.{Reach-closed, Reach-le}
use fiware_monitoring.Adapter.Server.Isolation.{Reach-expected}
use fiware_monitoring.Adapter.Update.{update_request}
use fiware_monitoring.Js.Number.{parse_float}
use fiware_monitoring.Parsers.BaseParser.{
  check_update, check_values, get_update_request, UpdateRequest,
}
use fiware_monitoring.Parsers.Nagios.{parse_request, EntityData, parse_body}
use fiware_monitoring.Parsers.Probe.{first_line}
use fiware_monitoring.Adapter.Exchange.{
  waiting, body_ended, data_came, on_error, request_failed, open_udp,
}
use fiware_monitoring.Adapter.Server.{Reach, Server, booted, moved, requested, stepped, datagram}
use fiware_monitoring.Parsers.CheckLoad
use fiware_monitoring.Adapter.Listener.{
  on_domain_error, Handled, Pending, new_domain, on_data, on_request, with_parser,
}
use fiware_monitoring.Base.{List, ◌++◌, [], none, refl, ℕ, ◌∷◌, ◌≡◌, Memᴰ, arith, length, ◌≤◌, some}
use fiware_monitoring.Config.{Config, defaults, timestamp_attr_name}
use fiware_monitoring.Domain.{Context}
use fiware_monitoring.Js.Text.{JsString, codes, equal, split, is_space, trim, join}
use fiware_monitoring.Parsers.Bundled.{check_load}
use fiware_monitoring.Parsers.Factory.{get_parser, parser, search_dirs, get_parser_by_name}
use fiware_monitoring.Tests.Sample.{
  fresh, installed, load_line, load_update, node, post, retry_module, retry_module-CountsRetries,
  load_attrs,
}
use fiware_monitoring.Adapter.Exchange.{
  closed, Exchange, advance, begin_update, launch, launch_first, open_http, receiving,
}

abbrev no_retries : Config
no_retries = record defaults { retries = 0 }

abbrev Item : Type 0
Item = Exchange ℕ

abbrev handled : Handled
handled = on_request node installed no_retries fresh post []

abbrev opened_item : Item
opened_item = open_http node retry_module no_retries fresh post handled

abbrev opened : Pending
opened = record { object = parser check_load; reqdomain = new_domain node fresh post }

opened_item_receives : opened_item.stage ≡ receiving opened
unfolding on_request with_parser get_parser equal split search_dirs
opened_item_receives = refl

abbrev filled : Pending
filled = on_data node opened (load_line ∷ [])

abbrev filled_item : Item
filled_item = record opened_item { stage = receiving filled; chunks = load_line ∷ [] }

abbrev asked_item : Item
asked_item =
    advance node retry_module no_retries filled_item
      (begin_update node retry_module no_retries filled.object filled.reqdomain none)

abbrev load_context : Context
load_context = record { trans = codes "t1"; corr = codes "u1"; op = codes "UpdateContext" }

asked_item_waits : asked_item.stage ≡ waiting 0 load_update load_context
unfolding begin_update launch_first launch on_data update_request get_update_request
    CheckLoad.get_context_attrs parse_request first_line split parse_float trim is_space
    check_update check_values
asked_item_waits = refl

abbrev failed_item : Item
failed_item =
    advance node retry_module no_retries asked_item
      (on_error node retry_module no_retries 0 load_update load_context (codes "ECONNRESET") none)

abbrev served : Server node installed retry_module no_retries
served = record { cache = handled.cache; exchanges = failed_item ∷ [] }

served-Reach : Reach node installed retry_module no_retries served
served-Reach =
    stepped
      (stepped
        (stepped (stepped booted (requested fresh post)) (
          moved [] [] opened_item filled_item refl
            (data_came opened load_line opened_item_receives)))
        (moved [] [] filled_item asked_item refl (body_ended filled none refl)))
      (moved [] [] asked_item failed_item refl
        (request_failed 0 load_update load_context (codes "ECONNRESET") none asked_item_waits))

Reach-expected_example :
    failed_item.effects
    ≡ expected_at node installed retry_module no_retries failed_item.stage failed_item
Reach-expected_example =
    Reach-expected node installed retry_module no_retries served-Reach (Memᴰ.head refl)

Reach-closed_example : failed_item.stage ≡ closed
unfolding on_error begin_update update_request on_data parse_request split
    CheckLoad.get_context_attrs first_line parse_float is_space check_update check_values
Reach-closed_example =
    Reach-closed node installed retry_module retry_module-CountsRetries no_retries served-Reach
      (Memᴰ.head refl) (omega arith)

Reach-le_example : (length failed_item.outcomes ≤ 1) × (length (requests failed_item.effects) ≤ 1)
Reach-le_example =
    Reach-le node installed retry_module retry_module-CountsRetries no_retries served-Reach
      (Memᴰ.head refl)

-- Nothing but the effects.
Emits-self : (corr : JsString) (es : List Effect) → Emits corr es [] es
Emits-self corr [] = Emits.quiet
Emits-self corr (e ∷ es) = Emits.kept e (Emits-self corr es)

-- With an event `error` of the request before all the rest.
abbrev noisy : List Effect
noisy = on_domain_error (codes "u1") (codes "detail of error") ++ failed_item.effects

Reach-heads_example :
    (status : ℕ) × (number : ℕ) × StatusOf node installed no_retries fresh post [] status
    × (number ≤ 1)
    × HeadsAround (codes "u1") (status, codes "u1") number (codes "detail of error" ∷ []) noisy
Reach-heads_example =
    Reach-heads node installed retry_module no_retries post (codes "detail of error" ∷ []) noisy
      served-Reach (Memᴰ.head refl) refl
      (Emits.emitted (codes "detail of error") (Emits-self (codes "u1") failed_item.effects))

abbrev line_data : EntityData
line_data = record { text_data = some load_line; perf_data = none }

Reach-delivers_example :
    (u : UpdateRequest) × (requests failed_item.effects
      ≡ replicate (sent no_retries.retries failed_item.outcomes) (u.options, u.body))
    × (attributes no_retries u.body
        ≡ some (texts node (insert timestamp_attr_name (integer 1400000000000) load_attrs)))
unfolding parse_body equal split search_dirs get_parser join CheckLoad.get_context_attrs first_line
    parse_float trim is_space on_error
Reach-delivers_example =
    Reach-delivers node installed retry_module retry_module-CountsRetries no_retries post
      CheckLoad.get_context_attrs line_data load_attrs served-Reach (Memᴰ.head refl) refl tt
      (accepted (parser check_load) refl refl refl refl) refl refl refl (cc) (tt, tt)

-- A datagram for the same parser, with the first exchange.
abbrev datagram_item : Item
datagram_item =
    open_udp node retry_module no_retries fresh (codes "check_load") load_line none
      (get_parser_by_name node installed no_retries handled.cache (codes "check_load")).1

abbrev both_served : Server node installed retry_module no_retries
both_served = record {
  cache = (get_parser_by_name node installed no_retries handled.cache (codes "check_load")).0;
  exchanges = datagram_item ∷ failed_item ∷ [];
}

both_served-Reach : Reach node installed retry_module no_retries both_served
both_served-Reach = stepped served-Reach (datagram fresh (codes "check_load") load_line none)

Reach-silent_example : requests datagram_item.effects ≡ []
unfolding get_parser_by_name split search_dirs open_udp
Reach-silent_example =
    Reach-silent node installed retry_module no_retries (codes "check_load") load_line check_load
      both_served-Reach (Memᴰ.head refl) refl refl
      (nagios_parser-LeavesEntity CheckLoad.get_context_attrs)

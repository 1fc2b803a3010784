-- ===== src/Tests/Exchanges.antt =====
-- The theorems about the handlers of ngsi_adapter/lib/adapter.js, for concrete exchanges.
use fiware_monitoring.Adapter.Listener.Report.{serve_and_report, serve_and_report-bad_json}
use fiware_monitoring.Js.Json.Parse.{json_parse}
use fiware_monitoring.Adapter.Update.Retries.{
  errors_then, update_context_recovers, update_context_reports_once,
}
use fiware_monitoring.Adapter.Effect.{
  Attempt, answered, failed, heads, refused, replied, replies, requests,
}
use fiware_monitoring.Adapter.Listener.{Request, on_request, serve}
use fiware_monitoring.Adapter.Listener.Exchange.{serve_refused}
use fiware_monitoring.Adapter.Listener.Status.{
  StatusOf, accepted, found, not_allowed, on_request-StatusOf,
}
use fiware_monitoring.Adapter.Udp.{udp_request_listener}
use fiware_monitoring.Adapter.Udp.Silent.{udp_bundled_fails}
use fiware_monitoring.Adapter.Update.{update_context}
use fiware_monitoring.Adapter.Update.Attempts.{
  parsing, replicate, report, sent, update_context-report,
}
use fiware_monitoring.Base.{List, [], arith, length, none, ok, refl, true, ℕ, ◌↔◌, ◌∷◌, ◌≡◌}
use fiware_monitoring.Config.{defaults}
use fiware_monitoring.Js.Text.{codes, join, split, equal, JsString}
use fiware_monitoring.Parsers.BaseParser.{get_update_request}
use fiware_monitoring.Parsers.BaseParser.Requests.{IsUpdate, get_update_request-IsUpdate}
use fiware_monitoring.Parsers.Bundled.{check_load}
use fiware_monitoring.Parsers.Factory.{get_parser, get_parser_by_name, parser, search_dirs}
use fiware_monitoring.Tests.Sample.{
  fresh, installed, load_body, node, post, retry_module, retry_module-CountsRetries, equal-ne,
  load_update, load_update_built, waiting, load_line,
}
use fiware_monitoring.Parsers.CheckLoad

get_update_request-IsUpdate_example :
    (get_update_request node defaults check_load (parsing waiting) ≡ ok load_update)
    ↔ IsUpdate node defaults check_load (parsing waiting) load_update
get_update_request-IsUpdate_example =
    get_update_request-IsUpdate node defaults check_load (parsing waiting) load_update

abbrev reset : Attempt
reset = refused (codes "ECONNRESET")

update_context-report_example :
    (requests
        (update_context node retry_module defaults
          (parser check_load)
          waiting
          (reset ∷ reset ∷ reset ∷ [])).effects
      ≡ replicate (sent 2 (reset ∷ reset ∷ reset ∷ [])) (load_update.options, load_update.body))
    × (replies
          (update_context node retry_module defaults
            (parser check_load)
            waiting
            (reset ∷ reset ∷ reset ∷ [])).effects
        ≡ report true load_update.options.headers.accept 2 (reset ∷ reset ∷ reset ∷ []))
update_context-report_example =
    update_context-report node retry_module retry_module-CountsRetries defaults (parser check_load)
      waiting (reset ∷ reset ∷ reset ∷ []) load_update load_update_built

update_context_recovers_example :
    (requests
        (update_context node retry_module defaults
          (parser check_load)
          waiting
          (errors_then (codes "ECONNRESET" ∷ []) (answered 200 none (codes "{}" ∷ [])) [])).effects
      ≡ replicate 2 (load_update.options, load_update.body))
    × (replies
          (update_context node retry_module defaults (parser check_load) waiting (
            errors_then (codes "ECONNRESET" ∷ []) (answered 200 none (codes "{}" ∷ [])) [])).effects
        ≡ replied 200 (join [] (codes "{}" ∷ [])) load_update.options.headers.accept ∷ [])
update_context_recovers_example =
    update_context_recovers node retry_module retry_module-CountsRetries defaults
      (parser check_load) waiting load_update (codes "ECONNRESET" ∷ []) 200 none (codes "{}" ∷ [])
      [] load_update_built (omega arith)

update_context_reports_once_example :
    length (
      replies
        (update_context node retry_module defaults
          (parser check_load)
          waiting
          (reset ∷ reset ∷ reset ∷ [])).effects)
    ≡ 1
update_context_reports_once_example =
    update_context_reports_once node retry_module retry_module-CountsRetries defaults
      (parser check_load) waiting (reset ∷ reset ∷ reset ∷ []) (tt, (tt, (tt, tt))) (omega arith)

on_request-StatusOf_example :
    (heads (on_request node installed defaults fresh post []).effects ≡ (200, codes "u1") ∷ [])
    ↔ StatusOf node installed defaults fresh post [] 200
on_request-StatusOf_example = on_request-StatusOf node installed defaults fresh post [] 200

abbrev get : Request
get = record post { method = codes "GET" }

serve_refused_example :
    (requests (
        serve node installed retry_module defaults [] fresh get
          (load_body ∷ [])
          (answered 200 none [] ∷ []))
      ≡ [])
    × (replies (
          serve node installed retry_module defaults [] fresh get
            (load_body ∷ [])
            (answered 200 none [] ∷ []))
        ≡ [])
unfolding equal
serve_refused_example =
    serve_refused node installed retry_module defaults [] fresh get (load_body ∷ [])
      (answered 200 none [] ∷ []) 405
      (not_allowed (equal-ne (codes "GET") (codes "POST") refl) refl) (omega arith)

load_found : found node installed defaults fresh post [] ≡ ok (parser check_load)
unfolding get_parser split search_dirs equal
load_found = refl

abbrev load_datagram : List ℕ
load_datagram = load_body

udp_bundled_fails_example :
    replies
      (udp_request_listener node installed retry_module defaults [] fresh load_datagram
        (codes "check_load")
        (answered 200 none [] ∷ [])).1
    ≡ failed (codes "reqdomain.body.split is not a function") ∷ []
unfolding get_parser_by_name split search_dirs
udp_bundled_fails_example =
    udp_bundled_fails node installed retry_module defaults [] fresh load_datagram
      (codes "check_load") (answered 200 none [] ∷ []) CheckLoad.get_context_attrs refl

abbrev page : List JsString
page = codes "<html>" ∷ []

serve_and_report-bad_json_example :
    heads (
      serve_and_report node installed retry_module defaults [] fresh post
        (load_line ∷ [])
        (answered 502 none page ∷ []))
    ≡ (200, codes "u1") ∷ (500, codes "u1") ∷ []
unfolding split join json_parse equal
serve_and_report-bad_json_example =
    serve_and_report-bad_json node installed retry_module defaults [] fresh post (load_line ∷ [])
      check_load load_update 502 none page []
      (accepted (parser check_load) refl refl load_found refl) load_found load_update_built refl
      refl

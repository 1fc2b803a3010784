-- ===== src/Tests/Sample.antt =====
-- A concrete platform, parser path and `retry`, for the tests.
use fiware_monitoring.Adapter.Update.{update_request}
use fiware_monitoring.Adapter.Update.Attempts.{parsing}
use fiware_monitoring.Config.{defaults}
use fiware_monitoring.Js.Object.{Attrs, number}
use fiware_monitoring.Parsers.BaseParser.{
  UpdateRequest, build_update, check_update, check_values, get_update_request,
}
use fiware_monitoring.Parsers.Nagios.{parse_request}
use fiware_monitoring.Parsers.Probe.{first_line}
use fiware_monitoring.Parsers.CheckLoad
use fiware_monitoring.Js.Text.Equality.{equal_iff}
use fiware_monitoring.Adapter.Effect.{CountsRetries, RetryModule}
use fiware_monitoring.Adapter.Listener.{Fresh, Request, request_context}
use fiware_monitoring.Base.{
  Bool, List, Option, [], false, get_elem?, if◌then◌else◌, leb, map, none, refl, some, suc, true,
  zero, ℕ, ◌&&◌, ◌++◌, ◌+◌, ◌∷◌, All, Bool-cases, inl, inr, ◌≡◌, ◌≢◌, ok,
}
use fiware_monitoring.Domain.{Error, Param, absent, one, Domain, text}
use fiware_monitoring.Js.Number.{Numeral, decimal, infinity, parse_float}
use fiware_monitoring.Js.Text.{
  JsString, codes, equal, first, get_or_undefined, is_truthy, split, is_space, trim,
}
use fiware_monitoring.Parsers.Bundled.{check_load}
use fiware_monitoring.Parsers.Factory.{Module, derived, loaded, thrown, parser}
use fiware_monitoring.Platform.{Platform}

-- The argument of a query string, which the tests give at most once.
abbrev pub find_arg : JsString → List JsString → Param
find_arg name [] = absent
find_arg name (arg ∷ args) =
    if equal (first (split b'=' arg)) name
    then (one (get_or_undefined (get_elem? (split b'=' arg) 1)))
    else find_arg name args

abbrev pub query_of : Option JsString → List JsString
query_of none = []
query_of (some s) = split b'&' s

-- ASCII letters.
abbrev pub lower : ℕ → ℕ
lower c = if leb b'A' c && leb c b'Z' then c + 32 else c

abbrev pub show_numeral : Numeral → JsString
show_numeral (decimal minus whole frac down exp) =
    whole ++ (if is_truthy frac then b'.' ∷ frac else [])
show_numeral (infinity minus) = codes "Infinity"

abbrev pub node : Platform
node = record {
  parse_url = λ s. record {
    hostname = some (codes "127.0.0.1");
    port = some (codes "1026");
    pathname = some (first (split b'?' s));
  };
  query = λ s name. find_arg name (query_of (get_elem? (split b'?' s) 1));
  format_url = λ url path. url ++ path;
  path_join = λ dir name. dir ++ (b'/' ∷ name);
  path_resolve = λ dir. b'/' ∷ dir;
  decode = λ bytes. bytes;
  status_text = λ status. codes "Status";
  to_lower = map lower;
  print_number = show_numeral;
  trace_status = λ v. codes "Response status";
  json_error = λ s. codes "Unexpected token";
}

-- The modules of the installed parsers.
abbrev pub installed : JsString → Module
installed file =
    if equal file (codes "lib/parsers/nagios/check_load.js")
    then loaded (derived check_load)
    else thrown (some (codes "MODULE_NOT_FOUND"))

abbrev pub count_down : ℕ → Error → Bool × ℕ
count_down zero e = (false, zero)
count_down (suc k) e = (true, k)

abbrev pub retry_module : RetryModule
retry_module = record { Operation = ℕ; operation = λ n. n; retry = count_down }

pub retry_module-CountsRetries : CountsRetries retry_module
retry_module-CountsRetries = record {
  left = λ o. o;
  left-operation = λ n. refl;
  retry_none = λ o e h. rw h refl;
  retry_some = λ o e k h. rw h (refl, refl);
}

abbrev pub fresh : Fresh
fresh = record { trans = codes "t1"; uuid = codes "u1"; now = 1400000000000 }

abbrev pub post : Request
post = record {
  method = codes "POST";
  url = codes "/check_load?id=host1&type=host";
  correlator = none;
}

abbrev pub load_line : JsString
load_line = codes "OK - load average: 0.36, 0.25, 0.24"

abbrev pub load_body : JsString
load_body = load_line ++ codes "|load1=0.360;1.000;1.000;0;"

abbrev pub two_lines : JsString
two_lines = codes "TEXT|P1\nLONG 1\nLONG 2|P2\nP3"

-- Tests of what holds for every character of a concrete text.
abbrev pub all : (ℕ → Bool) → JsString → Bool
all p [] = true
all p (c ∷ s) = p c && all p s

pub all-All : (p : ℕ → Bool) (s : JsString) → all p s ≡ true → All (λ c. p c ≡ true) s
all-All p [] h = tt
all-All p (c ∷ s) h = elim (Bool-cases (p c)) [
  | inl e ↦ (e, all-All p s (rw e at h))
  | inr e ↦ absurd (cc (rw e at h))
]

pub equal-ne : (s t : JsString) → equal s t ≡ false → s ≢ t
equal-ne s t h e = absurd (cc (h, (equal_iff s t).1 e))

abbrev pub waiting : Domain
waiting = record {
  context = request_context fresh post;
  entity_id = one (codes "host1");
  entity_type = one (codes "host");
  timestamp = 1400000000000;
  body = text load_line;
}

abbrev pub load_attrs : Attrs
load_attrs = (codes "cpuLoadPct", number (decimal false (codes "0") (codes "36") false [])) ∷ []

abbrev pub load_update : UpdateRequest
load_update = build_update node defaults (parsing waiting) load_attrs

pub load_update_built :
    update_request node defaults (parser check_load) (parsing waiting) ≡ ok load_update
unfolding update_request get_update_request CheckLoad.get_context_attrs parse_request first_line
    split parse_float trim is_space check_update check_values
load_update_built = refl

pub load_request_built :
    get_update_request node defaults check_load (parsing waiting) ≡ ok load_update
load_request_built = unfold update_request in load_update_built

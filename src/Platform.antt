-- ===== src/Platform.antt =====
-- What the adapter uses of Node.js outside the language, and of double precision numbers. The
-- development states nothing about these functions but what a theorem names as a hypothesis.
use fiware_monitoring.Js.Json.{Json}
use fiware_monitoring.Base.{Option, List, ℕ}
use fiware_monitoring.Domain.{Param}
use fiware_monitoring.Js.Number.{Numeral}
use fiware_monitoring.Js.Text.{JsString}

-- The members of a parsed URL that are read; `none` is null.
pub record UrlParts : Type 0 where
  pub hostname : Option JsString
  pub port : Option JsString
  pub pathname : Option JsString

pub record Platform : Type 0 where
  -- `url.parse(s)`
  pub parse_url : JsString → UrlParts
  -- `url.parse(s, true).query[name]`
  pub query : JsString → JsString → Param
  -- `url.format(urlobj)` for the parsed URL whose `pathname` was set to the second argument
  pub format_url : JsString → JsString → JsString
  -- `path.join(dir, name)`
  pub path_join : JsString → JsString → JsString
  -- `path.resolve(absoluteBaseDir, dir)`
  pub path_resolve : JsString → JsString
  -- `buffer.toString()`, which decodes UTF-8
  pub decode : List ℕ → JsString
  -- `http.STATUS_CODES[status]`
  pub status_text : ℕ → JsString
  -- `s.toLowerCase()`
  pub to_lower : JsString → JsString
  -- `n.toString()` for the double nearest to a literal
  pub print_number : Numeral → JsString
  -- `util.format('Response status %d %s', v, http.STATUS_CODES[v])`, where `none` is undefined
  pub trace_status : Option Json → JsString
  -- the message of the SyntaxError that `JSON.parse(s)` throws
  pub json_error : JsString → JsString

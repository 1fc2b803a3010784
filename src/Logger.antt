-- ===== src/Logger.antt =====
-- ngsi_adapter/lib/logger.js: the context and the layout of a trace, which the package logops asks for.
pub mod Layout
use fiware_monitoring.Base.{List, Option, if◌then◌else◌, none, some, ◌++◌, ◌∷◌}
use fiware_monitoring.Js.Format.{Argument, text_arg, util_format}
use fiware_monitoring.Js.Text.{JsString, codes, equal, is_truthy}

-- The members of a context that a trace shows, each of which may be missing.
pub record LogContext : Type 0 where
  pub corr : Option JsString
  pub trans : Option JsString
  pub op : Option JsString

abbrev pub empty_context : LogContext
empty_context = record { corr = none; trans = none; op = none }

-- `logger.getContext`, for the context of `domain.active`, if a domain is active.
unfoldable pub get_context : Option LogContext → LogContext
get_context none = empty_context
get_context (some context) = context

-- `member || 'n/a'`
abbrev pub or_na : Option JsString → JsString
or_na none = codes "n/a"
or_na (some s) = if is_truthy s then s else codes "n/a"

abbrev pub layout : JsString
layout = codes "time=%s | lvl=%s | corr=%s | trans=%s | op=%s | msg="

-- A function that formats a trace, of its level, its context, its message and more arguments.
abbrev pub Formatter : Type 0
Formatter = JsString → LogContext → JsString → List Argument → JsString

-- The function of this module, at a time in ISO format; `number_of` is `Number` on strings.
unfoldable pub format_trace : (JsString → JsString) → JsString → Formatter
unfolding util_format
format_trace number_of time level context message args = util_format number_of (layout ++ message) (
    text_arg time
    ∷ text_arg level
    ∷ text_arg (or_na context.corr)
    ∷ text_arg (or_na context.trans)
    ∷ text_arg (or_na context.op)
    ∷ args)

-- `logger.format`, by NODE_ENV; the other function is that of logops.
unfoldable pub format : Option JsString → Formatter → (JsString → JsString) → JsString → Formatter
unfolding equal format_trace
format none other_format number_of time = format_trace number_of time
format (some env) other_format number_of time =
    if equal env (codes "development") then other_format else format_trace number_of time

-- ===== src/Parsers/CheckProcs.antt =====
-- ngsi_adapter/lib/parsers/nagios/check_procs.js
pub mod Reads
use fiware_monitoring.Base.{Option, Result, get_elem?, if◌then◌else◌, ◌>>=◌}
use fiware_monitoring.Domain.{Error}
use fiware_monitoring.Js.Number.{Numeral, parse_float}
use fiware_monitoring.Js.Object.{Attrs}
use fiware_monitoring.Js.Text.{JsString, codes, first, split, trim}
use fiware_monitoring.Parsers.Nagios.{EntityData}
use fiware_monitoring.Parsers.Probe.{first_line, single_attr, when_truthy}

-- `attrs.procs`, from the first line.
unfoldable pub procs : JsString → Option Numeral
procs line =
    when_truthy (get_elem? (split b':' line) 1)
      (λ item. parse_float (first (split b' ' (trim item))))

unfoldable pub get_context_attrs : EntityData → Result Error Attrs
unfolding single_attr procs
get_context_attrs e = do
  line ← first_line e
  single_attr (codes "procs") (codes "No valid procs data found") (procs line)

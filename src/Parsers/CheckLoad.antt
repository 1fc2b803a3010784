-- ===== src/Parsers/CheckLoad.antt =====
-- ngsi_adapter/lib/parsers/nagios/check_load.js
pub mod Reads
use fiware_monitoring.Base.{Option, Result, get_elem?, if◌then◌else◌, ◌>>=◌}
use fiware_monitoring.Domain.{Error}
use fiware_monitoring.Js.Number.{Numeral, parse_float}
use fiware_monitoring.Js.Object.{Attrs}
use fiware_monitoring.Js.Text.{JsString, codes, first, split}
use fiware_monitoring.Parsers.Nagios.{EntityData}
use fiware_monitoring.Parsers.Probe.{first_line, single_attr, when_truthy}

-- `attrs.cpuLoadPct`, from the first line.
unfoldable pub cpu_load_pct : JsString → Option Numeral
cpu_load_pct line =
    when_truthy (get_elem? (split b':' line) 1) (λ item. parse_float (first (split b',' item)))

unfoldable pub get_context_attrs : EntityData → Result Error Attrs
unfolding single_attr cpu_load_pct
get_context_attrs e = do
  line ← first_line e
  single_attr (codes "cpuLoadPct") (codes "No valid load data found") (cpu_load_pct line)

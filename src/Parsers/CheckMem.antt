-- ===== src/Parsers/CheckMem.antt =====
-- ngsi_adapter/lib/parsers/nagios/check_mem.sh.js
pub mod Reads
use fiware_monitoring.Base.{Option, Result, get_elem?, if◌then◌else◌, none, some, ◌>>=◌}
use fiware_monitoring.Domain.{Error}
use fiware_monitoring.Js.Number.{Numeral, parse_float}
use fiware_monitoring.Js.Object.{Attrs}
use fiware_monitoring.Js.Text.{JsString, codes, first, is_truthy, split}
use fiware_monitoring.Parsers.Nagios.{EntityData}
use fiware_monitoring.Parsers.Probe.{first_line, single_attr, when_truthy}

-- `attrs.usedMemPct`, from the first line.
unfoldable pub used_mem_pct : JsString → Option Numeral
used_mem_pct line =
    when_truthy (get_elem? (split b'-' line) 2) (λ item. parse_float (first (split b'%' item)))

unfoldable pub get_context_attrs : EntityData → Result Error Attrs
unfolding single_attr used_mem_pct
get_context_attrs e = do
  line ← first_line e
  single_attr (codes "usedMemPct") (codes "No valid memory data found") (used_mem_pct line)

-- ===== src/Parsers/CheckDisk.antt =====
-- ngsi_adapter/lib/parsers/nagios/check_disk.js
pub mod Pattern
pub mod Reads
use fiware_monitoring.Base.{
  List, Option, Result, [], get_elem?, if◌then◌else◌, none, not, ◌>>=◌, ◌∷◌,
}
use fiware_monitoring.Domain.{Error}
use fiware_monitoring.Js.Number.{Numeral, parse_float}
use fiware_monitoring.Js.Object.{Attrs}
use fiware_monitoring.Js.Text.{JsString, codes, is_truthy, split, trim}
use fiware_monitoring.Parsers.CheckDisk.Pattern.{replace_match}
use fiware_monitoring.Parsers.Nagios.{EntityData}
use fiware_monitoring.Parsers.Probe.{first_line, single_attr, when_truthy}

-- `attrs.freeSpacePct`, from the groups of partitions: only one group is supported.
pub group_pct : List JsString → Option Numeral
group_pct (group ∷ last ∷ []) =
    if not (is_truthy (trim last)) then parse_float (replace_match group) else none
group_pct _ = none

-- `attrs.freeSpacePct`, from the first line.
unfoldable pub free_space_pct : JsString → Option Numeral
unfolding group_pct
free_space_pct line =
    when_truthy (get_elem? (split b':' line) 1) (λ item. group_pct (split b';' item))

unfoldable pub get_context_attrs : EntityData → Result Error Attrs
unfolding single_attr free_space_pct
get_context_attrs e = do
  line ← first_line e
  single_attr (codes "freeSpacePct") (codes "No valid disk data found") (free_space_pct line)

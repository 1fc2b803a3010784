-- ===== src/Parsers/CheckUsers.antt =====
-- ngsi_adapter/lib/parsers/nagios/check_users.js
pub mod Reads
use fiware_monitoring.Base.{Option, Result, get_elem?, if◌then◌else◌, none, some, ◌>>=◌}
use fiware_monitoring.Domain.{Error}
use fiware_monitoring.Js.Number.{Numeral, parse_float}
use fiware_monitoring.Js.Object.{Attrs}
use fiware_monitoring.Js.Text.{JsString, codes, first, is_truthy, split, trim}
use fiware_monitoring.Parsers.Nagios.{EntityData}
use fiware_monitoring.Parsers.Probe.{first_line, single_attr, when_truthy}

-- `attrs.users`, from the first line.
unfoldable pub users : JsString → Option Numeral
users line =
    when_truthy (get_elem? (split b'-' line) 1)
      (λ item. parse_float (first (split b' ' (trim item))))

unfoldable pub get_context_attrs : EntityData → Result Error Attrs
unfolding single_attr users
get_context_attrs e = do
  line ← first_line e
  single_attr (codes "users") (codes "No valid users data found") (users line)

-- ===== src/Parsers/Bundled.antt =====
-- The parsers that come with the adapter: the modules of ngsi_adapter/lib/parsers/nagios, each an object whose
-- prototype is `nagiosParser`.
pub mod Missing
use fiware_monitoring.Base.{Result, ok, ◌>>=◌}
use fiware_monitoring.Domain.{Error}
use fiware_monitoring.Js.Object.{Attrs}
use fiware_monitoring.Parsers.BaseParser.{Parser}
use fiware_monitoring.Parsers.Nagios.{EntityData, parse_request}
use fiware_monitoring.Parsers.CheckDisk
use fiware_monitoring.Parsers.CheckLoad
use fiware_monitoring.Parsers.CheckMem
use fiware_monitoring.Parsers.CheckProcs
use fiware_monitoring.Parsers.CheckUsers

-- `Object.create(nagios.parser)` with its own `getContextAttrs`; `parseRequest` leaves the domain as
-- it is.
abbrev pub nagios_parser : (EntityData → Result Error Attrs) → Parser
nagios_parser attrs_of = record {
  parse_request = λ reqdomain. parse_request reqdomain >>= λ e. ok (e, reqdomain);
  get_context_attrs = attrs_of;
}

abbrev pub check_disk : Parser
check_disk = nagios_parser CheckDisk.get_context_attrs

abbrev pub check_load : Parser
check_load = nagios_parser CheckLoad.get_context_attrs

abbrev pub check_mem : Parser
check_mem = nagios_parser CheckMem.get_context_attrs

abbrev pub check_procs : Parser
check_procs = nagios_parser CheckProcs.get_context_attrs

abbrev pub check_users : Parser
check_users = nagios_parser CheckUsers.get_context_attrs

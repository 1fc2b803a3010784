-- ===== src/Parsers/Bundled/Missing.antt =====
-- What the parsers of the bundled probes do without the separator that they look for.
use fiware_monitoring.Base.{err, ok, ℕ, ◌≡◌}
use fiware_monitoring.Domain.{Error, text}
use fiware_monitoring.Js.Text.{JsString, codes}
use fiware_monitoring.Js.Text.Split.{Free}
use fiware_monitoring.Parsers.BaseParser.{Parser}
use fiware_monitoring.Parsers.Bundled.{check_disk, check_load, check_mem, check_procs, check_users}
use fiware_monitoring.Parsers.Nagios.{EntityData, parse_body}
use fiware_monitoring.Parsers.Probe.Body.{head_text}
use fiware_monitoring.Parsers.CheckDisk.Reads.{check_disk_missing}
use fiware_monitoring.Parsers.CheckLoad.Reads.{check_load_missing}
use fiware_monitoring.Parsers.CheckMem.Reads.{check_mem_missing}
use fiware_monitoring.Parsers.CheckProcs.Reads.{check_procs_missing}
use fiware_monitoring.Parsers.CheckUsers.Reads.{check_users_missing}

pub data BundledProbe : Type 0 where
  disk_probe load_probe mem_probe procs_probe users_probe : BundledProbe

abbrev pub parser_for : BundledProbe → Parser
parser_for disk_probe = check_disk
parser_for load_probe = check_load
parser_for mem_probe = check_mem
parser_for procs_probe = check_procs
parser_for users_probe = check_users

-- The separator that the data stand behind: a colon, or a dash.
abbrev pub separator_for : BundledProbe → ℕ
separator_for mem_probe = b'-'
separator_for users_probe = b'-'
separator_for _ = b':'

abbrev pub missing_error : BundledProbe → Error
missing_error disk_probe = codes "No valid disk data found"
missing_error load_probe = codes "No valid load data found"
missing_error mem_probe = codes "No valid memory data found"
missing_error procs_probe = codes "No valid procs data found"
missing_error users_probe = codes "No valid users data found"

-- When what stands before the bar of the first line of an accepted body lacks the separator of a
-- bundled probe, the colon of disk, load and procs or the dash of mem and users, its parser fails
-- with the error of that probe.
pub bundled_missing :
    (probe : BundledProbe) (s : JsString) (e : EntityData)
    → parse_body (text s) ≡ ok e
    → Free (separator_for probe) (head_text s)
    → (parser_for probe).get_context_attrs e ≡ err (missing_error probe)
bundled_missing disk_probe = check_disk_missing
bundled_missing load_probe = check_load_missing
bundled_missing mem_probe = check_mem_missing
bundled_missing procs_probe = check_procs_missing
bundled_missing users_probe = check_users_missing

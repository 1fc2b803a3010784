-- ===== src/Tests/Readings.antt =====
-- The theorems about the parsers of the probes, for outputs of the probes.
use fiware_monitoring.Js.Text.Split.{is_free-Free}
use fiware_monitoring.Parsers.Bundled.Missing.{
  bundled_missing, mem_probe, missing_error, parser_for,
}
use fiware_monitoring.Parsers.CheckDisk.Reads.{IsGroup, check_disk_reads}
use fiware_monitoring.Parsers.CheckMem.Reads.{check_mem_reads}
use fiware_monitoring.Parsers.CheckProcs.Reads.{check_procs_reads}
use fiware_monitoring.Parsers.CheckUsers.Reads.{check_users_reads}
use fiware_monitoring.Parsers.CheckDisk
use fiware_monitoring.Parsers.CheckLoad
use fiware_monitoring.Parsers.CheckMem
use fiware_monitoring.Parsers.CheckProcs
use fiware_monitoring.Parsers.CheckUsers
use fiware_monitoring.Base.{[], none, ok, refl, some, ◌↔◌, ◌∷◌, ◌≡◌, err, false}
use fiware_monitoring.Domain.{text}
use fiware_monitoring.Js.Number.{is_digit, decimal}
use fiware_monitoring.Js.Number.Decimal.{plain_numeral}
use fiware_monitoring.Js.Object.{number}
use fiware_monitoring.Js.Text.{JsString, codes, is_space, split}
use fiware_monitoring.Parsers.CheckLoad.Reads.{check_load_reads}
use fiware_monitoring.Parsers.Nagios.{EntityData, parse_body}
use fiware_monitoring.Parsers.Nagios.Format.{IsProbeOutput}
use fiware_monitoring.Parsers.Nagios.Refines.{parse_body-IsProbeOutput}
use fiware_monitoring.Tests.Sample.{load_body, load_line, all-All, two_lines}

abbrev parsed : JsString → JsString → EntityData
parsed t p = record { text_data = some t; perf_data = some p }

parse_body-IsProbeOutput_example :
    (parse_body (text two_lines) ≡ ok (parsed (codes "TEXT\nLONG 1\nLONG 2") (codes "P1\nP2\nP3")))
    ↔ IsProbeOutput
        (split b'\n' two_lines)
        (parsed (codes "TEXT\nLONG 1\nLONG 2") (codes "P1\nP2\nP3"))
parse_body-IsProbeOutput_example =
    parse_body-IsProbeOutput two_lines (parsed (codes "TEXT\nLONG 1\nLONG 2") (codes "P1\nP2\nP3"))

abbrev plain_text : JsString → EntityData
plain_text t = record { text_data = some t; perf_data = none }

check_load_reads_example :
    CheckLoad.get_context_attrs (parsed load_line (codes "load1=0.360;1.000;1.000;0;"))
    ≡ ok ((codes "cpuLoadPct", number (plain_numeral (codes "0") (some (codes "36")))) ∷ [])
unfolding parse_body split is_digit is_space
check_load_reads_example =
    check_load_reads load_body (parsed load_line (codes "load1=0.360;1.000;1.000;0;"))
      (codes "OK - load average") (codes " ") (codes "0") (some (codes "36")) (codes " 0.25, 0.24")
      refl refl (is_free-Free b':' (codes "OK - load average") refl)
      (all-All is_space (codes " ") refl)
      (all-All is_digit (codes "0") refl, cc, all-All is_digit (codes "36") refl)

abbrev mem_line : JsString
mem_line = codes "Memory: OK Total: 1877 MB - Used: 369 MB - 19% used"

check_mem_reads_example :
    CheckMem.get_context_attrs (plain_text mem_line)
    ≡ ok ((codes "usedMemPct", number (plain_numeral (codes "19") none)) ∷ [])
unfolding parse_body split is_digit is_space
check_mem_reads_example =
    check_mem_reads mem_line (plain_text mem_line) (codes "Memory: OK Total: 1877 MB ")
      (codes " Used: 369 MB ") (codes " ") (codes "19") none (codes " used") refl refl
      (is_free-Free b'-' (codes "Memory: OK Total: 1877 MB ") refl)
      (is_free-Free b'-' (codes " Used: 369 MB ") refl) (all-All is_space (codes " ") refl)
      (all-All is_digit (codes "19") refl, cc)

check_procs_reads_example :
    CheckProcs.get_context_attrs (plain_text (codes "PROCS OK: 136 processes"))
    ≡ ok ((codes "procs", number (plain_numeral (codes "136") none)) ∷ [])
unfolding parse_body split is_digit is_space
check_procs_reads_example =
    check_procs_reads (codes "PROCS OK: 136 processes")
      (plain_text (codes "PROCS OK: 136 processes")) (codes "PROCS OK") (codes " ") (codes "136")
      none (codes "processes") refl refl (is_free-Free b':' (codes "PROCS OK") refl)
      (all-All is_space (codes " ") refl) (all-All is_digit (codes "136") refl, cc)

check_users_reads_example :
    CheckUsers.get_context_attrs (plain_text (codes "USERS OK - 1 users currently logged in"))
    ≡ ok ((codes "users", number (plain_numeral (codes "1") none)) ∷ [])
unfolding parse_body split is_digit is_space
check_users_reads_example =
    check_users_reads (codes "USERS OK - 1 users currently logged in")
      (plain_text (codes "USERS OK - 1 users currently logged in")) (codes "USERS OK ") (codes " ")
      (codes "1") none (codes "users currently logged in") refl refl
      (is_free-Free b'-' (codes "USERS OK ") refl) (all-All is_space (codes " ") refl)
      (all-All is_digit (codes "1") refl, cc)

abbrev disk_line : JsString
disk_line = codes "DISK OK - free space: mygroup 25484 MB (85% inode=95%);"

mygroup-IsGroup : IsGroup (codes " mygroup 25484 MB ") (codes "85") (codes " inode=95%")
unfolding is_digit
mygroup-IsGroup = record {
  pre_free = (
    is_free-Free b':' (codes " mygroup 25484 MB ") refl,
    is_free-Free b';' (codes " mygroup 25484 MB ") refl,
    is_free-Free b'(' (codes " mygroup 25484 MB ") refl,
  );
  pre_ne = cc;
  digits = all-All is_digit (codes "85") refl;
  pct_ne = cc;
  post_free = (
    is_free-Free b':' (codes " inode=95%") refl,
    is_free-Free b';' (codes " inode=95%") refl,
    is_free-Free b')' (codes " inode=95%") refl,
  );
  post_ne = cc;
}

check_disk_reads_example :
    CheckDisk.get_context_attrs (plain_text disk_line)
    ≡ ok ((codes "freeSpacePct", number (decimal false (codes "85") [] false [])) ∷ [])
unfolding parse_body split
check_disk_reads_example =
    check_disk_reads disk_line (plain_text disk_line) (codes "DISK OK - free space")
      (codes " mygroup 25484 MB ") (codes "85") (codes " inode=95%") [] refl refl
      (is_free-Free b':' (codes "DISK OK - free space") refl) mygroup-IsGroup tt

abbrev plugin_error : JsString
plugin_error = codes "CRITICAL|x=1"

bundled_missing_example :
    (parser_for mem_probe).get_context_attrs (parsed (codes "CRITICAL") (codes "x=1"))
    ≡ err (missing_error mem_probe)
unfolding parse_body split
bundled_missing_example =
    bundled_missing mem_probe plugin_error (parsed (codes "CRITICAL") (codes "x=1")) refl
      (is_free-Free b'-' (codes "CRITICAL") refl)

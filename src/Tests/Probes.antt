-- ===== src/Tests/Probes.antt =====
-- The samples in the comments of ngsi_adapter/lib/parsers/nagios, and bodies as in test/unit.
use fiware_monitoring.Parsers.Probe.{first_line}
use fiware_monitoring.Tests.Sample.{two_lines}
use fiware_monitoring.Parsers.CheckDisk.Pattern.{match_here, replace_match}
use fiware_monitoring.Base.{String, [], err, false, none, ok, refl, some, true, ◌∷◌, ◌≡◌}
use fiware_monitoring.Domain.{text}
use fiware_monitoring.Js.Number.{decimal, infinity, parse_float}
use fiware_monitoring.Js.Object.{Attrs, number}
use fiware_monitoring.Js.Text.{codes, split, is_space, trim, trim_end}
use fiware_monitoring.Parsers.Nagios.{EntityData, invalid_data, invalid_perfdata, parse_body}
use fiware_monitoring.Parsers.CheckDisk
use fiware_monitoring.Parsers.CheckLoad
use fiware_monitoring.Parsers.CheckMem
use fiware_monitoring.Parsers.CheckProcs
use fiware_monitoring.Parsers.CheckUsers

probes : Unit {0}
unfolding first_line CheckLoad.get_context_attrs CheckMem.get_context_attrs
    CheckProcs.get_context_attrs CheckUsers.get_context_attrs CheckDisk.get_context_attrs match_here
    replace_match split parse_float trim trim_end is_space parse_body
probes = tt

abbrev sample : String → EntityData
sample t = record { text_data = some (codes t); perf_data = none }

abbrev read_number : String → String → String → Attrs
read_number name whole frac =
    (codes name, number (decimal false (codes whole) (codes frac) false [])) ∷ []

load_sample :
    CheckLoad.get_context_attrs (sample "OK - load average: 0.00, 0.00, 0.00")
    ≡ ok (read_number "cpuLoadPct" "0" "00")
unfolding probes
load_sample = refl

mem_sample :
    CheckMem.get_context_attrs (sample "Memory: OK Total: 1877 MB - Used: 369 MB - 19% used")
    ≡ ok (read_number "usedMemPct" "19" "")
unfolding probes
mem_sample = refl

procs_sample :
    CheckProcs.get_context_attrs (sample "PROCS OK: 136 processes")
    ≡ ok (read_number "procs" "136" "")
unfolding probes
procs_sample = refl

users-sample :
    CheckUsers.get_context_attrs (sample "USERS OK - 1 users currently logged in ")
    ≡ ok (read_number "users" "1" "")
unfolding probes
users-sample = refl

disk_sample :
    CheckDisk.get_context_attrs (sample "DISK OK - free space: mygroup 25484 MB (85% inode=95%);")
    ≡ ok (read_number "freeSpacePct" "85" "")
unfolding probes
disk_sample = refl

disk_many :
    CheckDisk.get_context_attrs
      (sample "DISK OK - free space: / 1393 MB (29% inode=66%); /data 4195 MB (87% inode=99%);")
    ≡ err (codes "No valid disk data found")
unfolding probes
disk_many = refl

float_samples :
    (parse_float (codes "  -1.5e3x")
      ≡ some (decimal true (codes "1") (codes "5") false (codes "3")))
    × (parse_float (codes "+.5.") ≡ some (decimal false [] (codes "5") false []))
    × (parse_float (codes "1e+") ≡ some (decimal false (codes "1") [] false []))
    × (parse_float (codes "-Infinity!") ≡ some (infinity true))
    × (parse_float (codes ".") ≡ none)
    × (parse_float (codes "abc") ≡ none)
unfolding probes
float_samples = (refl, refl, refl, refl, refl, refl)

multiline_body :
    parse_body (text two_lines)
    ≡ ok (record {
      text_data = some (codes "TEXT\nLONG 1\nLONG 2");
      perf_data = some (codes "P1\nP2\nP3");
    })
unfolding probes
multiline_body = refl

bad_bodies :
    (parse_body (text (codes "T | P | Q")) ≡ err invalid_data)
    × (parse_body (text (codes "T\nA|P")) ≡ err invalid_perfdata)
    × (parse_body (text (codes "T|P\nA|Q\nB|R")) ≡ err invalid_perfdata)
    × (parse_body (text []) ≡ err invalid_data)
unfolding probes
bad_bodies = (refl, refl, refl, refl)

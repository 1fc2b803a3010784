-- ===== src/Parsers/Nagios.antt =====
-- ngsi_adapter/lib/parsers/common/nagios.js: the base parser of the Nagios probes.
pub mod Format
pub mod Lines
pub mod Refines
pub mod FirstLine
use fiware_monitoring.Base.{
  Bool, List, Option, Result, [], err, false, get_elem?, if◌then◌else◌, length, ltb, none, not, ok,
  some, true, ℕ, ◌++◌, ◌>>=◌, ◌||◌, ◌∷◌,
}
use fiware_monitoring.Domain.{Body, Domain, Error, buffer, text}
use fiware_monitoring.Js.Text.{JsString, codes, first, get_or_undefined, is_truthy, split}

-- `entityData`, also the value that `parseRequest` returns; `none` is an undefined member.
pub record EntityData : Type 0 where
  pub text_data : Option JsString
  pub perf_data : Option JsString

-- The variables that the loop over the lines updates.
pub record Scan : Type 0 where
  pub entity_data : EntityData
  pub is_multiline_perf : Bool

abbrev pub truthy : Option JsString → Bool
truthy none = false
truthy (some s) = is_truthy s

-- `member += '\n' + line`, where an undefined member is read as text.
abbrev pub add_line : Option JsString → JsString → JsString
add_line none line = codes "undefined" ++ (b'\n' ∷ line)
add_line (some s) line = s ++ (b'\n' ∷ line)

abbrev pub invalid_data : Error
invalid_data = codes "Invalid plugin data format"

abbrev pub invalid_perfdata : Error
invalid_perfdata = codes "Invalid optional perfdata format"

-- The body of the loop, over `lineData.length`, `lineData[0]` and `lineData[1]`.
pub scan_fields : Scan → ℕ → JsString → Option JsString → Result Error Scan
scan_fields s n head second =
    let e = s.entity_data in
    if ltb 2 n || not (is_truthy head)
    then err invalid_data
    else if not (truthy e.text_data)
    then ok (record s {
      entity_data = record {
        text_data = some head;
        perf_data = if truthy second then second else e.perf_data;
      };
    })
    else if truthy second
    then (if not (truthy e.perf_data) || s.is_multiline_perf || not (truthy second)
        then err invalid_perfdata
        else ok (record {
          entity_data = record {
            text_data = some (add_line e.text_data head);
            perf_data = some (add_line e.perf_data (get_or_undefined second));
          };
          is_multiline_perf = true;
        }))
    else if s.is_multiline_perf
    then ok (record s { entity_data = record e { perf_data = some (add_line e.perf_data head) } })
    else ok (record s { entity_data = record e { text_data = some (add_line e.text_data head) } })

pub scan_line : Scan → JsString → Result Error Scan
unfolding scan_fields
scan_line s item =
    scan_fields s (length (split b'|' item)) (first (split b'|' item))
      (get_elem? (split b'|' item) 1)

-- `lines.forEach(…)`
pub scan_lines : Scan → List JsString → Result Error Scan
unfolding scan_line
scan_lines s [] = ok s
scan_lines s (item ∷ items) = do t ← scan_line s item; scan_lines t items

abbrev pub empty_scan : Scan
empty_scan = record {
  entity_data = record { text_data = none; perf_data = none };
  is_multiline_perf = false;
}

-- What `nagiosParser.parseRequest` does with a body; a Buffer has no method `split`.
unfoldable pub parse_body : Body → Result Error EntityData
unfolding scan_lines
parse_body (text s) = do scan ← scan_lines empty_scan (split b'\n' s); ok scan.entity_data
parse_body (buffer bytes) = err (codes "reqdomain.body.split is not a function")

unfoldable pub parse_request : Domain → Result Error EntityData
unfolding parse_body
parse_request reqdomain = parse_body reqdomain.body

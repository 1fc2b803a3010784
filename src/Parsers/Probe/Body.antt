-- ===== src/Parsers/Probe/Body.antt =====
-- The first line that the parsers of the probes read, in terms of a request's body.
use fiware_monitoring.Base.{ok, refl, ◌≡◌}
use fiware_monitoring.Domain.{text}
use fiware_monitoring.Js.Text.{JsString, first, split}
use fiware_monitoring.Parsers.Nagios.{EntityData, parse_body}
use fiware_monitoring.Parsers.Nagios.FirstLine.{parse_body-first_line}
use fiware_monitoring.Parsers.Probe.{first_line}

abbrev pub head_text : JsString → JsString
head_text s = first (split b'|' (first (split b'\n' s)))

-- The text that the parsers of the probes read of an accepted body is what stands before the first
-- bar of its first line.
pub first_line-parse_body :
    (s : JsString) (e : EntityData) → parse_body (text s) ≡ ok e → first_line e ≡ ok (head_text s)
unfolding first_line
first_line-parse_body s e h =
    let (t, has, same) = parse_body-first_line s e h in rw (has, same) refl

-- ===== src/Parsers/Probe.antt =====
-- What the parsers of ngsi_adapter/lib/parsers/nagios have in common: each reads one number from the
-- first line of the probe's text, which stays NaN if it is not found, and throws if it is NaN.
pub mod Fields
pub mod Body
use fiware_monitoring.Base.{Option, Result, [], err, none, ok, some, ◌∷◌, if◌then◌else◌}
use fiware_monitoring.Domain.{Error}
use fiware_monitoring.Js.Number.{Numeral}
use fiware_monitoring.Js.Object.{Attrs, number}
use fiware_monitoring.Js.Text.{JsString, codes, first, split, is_truthy}
use fiware_monitoring.Parsers.Nagios.{EntityData}

-- `probeEntityData.data.split('\n')[0]`
unfoldable pub first_line : EntityData → Result Error JsString
first_line e = line_of e.text_data
  where
    line_of : Option JsString → Result Error JsString
    line_of none = err (codes "Cannot read property 'split' of undefined")
    line_of (some t) = ok (first (split b'\n' t))

-- The object `attrs` of one member, checked by `isNaN`.
unfoldable pub single_attr : JsString → Error → Option Numeral → Result Error Attrs
single_attr name message none = err message
single_attr name message (some n) = ok ((name, number n) ∷ [])

-- `if (item) attrs.member = f(item)`, where the member is NaN before; the item may be undefined.
abbrev pub when_truthy : Option JsString → (JsString → Option Numeral) → Option Numeral
when_truthy none f = none
when_truthy (some item) f = if is_truthy item then f item else none

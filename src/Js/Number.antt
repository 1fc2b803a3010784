-- ===== src/Js/Number.antt =====
-- `parseFloat`: the longest prefix that is a StrDecimalLiteral. The literal is kept as it was read,
-- since the rounding to a double is not modelled here; `none` is NaN.
pub mod Decimal
use fiware_monitoring.Base.{
  ℕ, Bool, true, false, ◌&&◌, ◌||◌, [], ◌∷◌, Option, none, some, leb, ◌==◌, if◌then◌else◌,
}
use fiware_monitoring.Js.Text.{JsString, codes, trim_start}

-- `decimal` holds the sign, the digits before and after the point, and the exponent's sign and
-- digits.
pub data Numeral : Type 0 where
  infinity : Bool → Numeral
  decimal : Bool → JsString → JsString → Bool → JsString → Numeral

unfoldable pub is_digit : ℕ → Bool
is_digit c = leb b'0' c && leb c b'9'

-- The longest prefix of digits, and what follows it.
unfoldable pub span_digits : JsString → JsString × JsString
unfolding is_digit
span_digits [] = ([], [])
span_digits (c ∷ s) =
    let rest = span_digits s in if is_digit c then (c ∷ rest.0, rest.1) else ([], c ∷ s)

pub starts_with : JsString → JsString → Bool
starts_with [] s = true
starts_with (x ∷ p) [] = false
starts_with (x ∷ p) (y ∷ s) = x == y && starts_with p s

-- An optional sign; the flag is set for a minus.
unfoldable pub read_sign : JsString → Bool × JsString
read_sign [] = (false, [])
read_sign (c ∷ s) =
    if c == b'-' then (true, s) else if c == b'+' then (false, s) else (false, c ∷ s)

-- An optional exponent: without digits it is not part of the literal.
pub read_exponent : JsString → Bool × JsString
unfolding read_sign span_digits
read_exponent [] = (false, [])
read_exponent (c ∷ s) =
    if c == b'e' || c == b'E'
    then elim (span_digits (read_sign s).1).0 [
      | [] ↦ (false, [])
      | d ∷ ds ↦ ((read_sign s).0, d ∷ ds)
    ]
    else (false, [])

pub with_exponent : Bool → JsString → JsString → Bool × JsString → Option Numeral
with_exponent minus [] [] e = none
with_exponent minus [] (d ∷ ds) e = some (decimal minus [] (d ∷ ds) e.0 e.1)
with_exponent minus (d ∷ ds) frac e = some (decimal minus (d ∷ ds) frac e.0 e.1)

-- What follows the digits before the point.
pub read_fraction : Bool → JsString → JsString → Option Numeral
unfolding with_exponent span_digits read_exponent
read_fraction minus whole [] = with_exponent minus whole [] (false, [])
read_fraction minus whole (c ∷ s) =
    if c == b'.'
    then with_exponent minus whole (span_digits s).0 (read_exponent (span_digits s).1)
    else with_exponent minus whole [] (read_exponent (c ∷ s))

pub read_unsigned : Bool → JsString → Option Numeral
unfolding starts_with span_digits read_fraction
read_unsigned minus s =
    if starts_with (codes "Infinity") s
    then some (infinity minus)
    else read_fraction minus (span_digits s).0 (span_digits s).1

-- `parseFloat(s)`.
unfoldable pub parse_float : JsString → Option Numeral
unfolding trim_start read_sign read_unsigned
parse_float s = read_unsigned (read_sign (trim_start s)).0 (read_sign (trim_start s)).1

-- ===== src/Js/Number/Decimal.antt =====
-- `parseFloat` on plain decimals.
use fiware_monitoring.Js.Text.Trim.{IsBlank, trim_start-StartsSolid, trim_start-blank}
use fiware_monitoring.Base.{
  true, false, [], ◌∷◌, ◌++◌, Option, none, some, ◌≡◌, ◌≢◌, refl, arith, All, Bool, ap,
  append_assoc, ℕ, ◌∙◌,
}
use fiware_monitoring.Js.Text.{JsString, codes, is_space}
use fiware_monitoring.Js.Number.{
  Numeral, decimal, is_digit, span_digits, parse_float, read_exponent, read_fraction, read_sign,
  read_unsigned, starts_with,
}

abbrev pub IsDigits : JsString → Type 0
IsDigits = All (λ c. is_digit c ≡ true)

-- The first character cannot continue a literal.
abbrev pub Stops : JsString → Type 0
Stops [] = Unit
Stops (c ∷ s) = (is_digit c ≡ false) × (c ≢ b'.') × (c ≢ b'e') × (c ≢ b'E')

-- A plain decimal, `12` or `0.25`, as text.
abbrev pub plain : JsString → Option JsString → JsString
plain whole none = whole
plain whole (some frac) = whole ++ (b'.' ∷ frac)

-- The literal that it is.
abbrev pub plain_numeral : JsString → Option JsString → Numeral
plain_numeral whole none = decimal false whole [] false []
plain_numeral whole (some frac) = decimal false whole frac false []

abbrev pub PlainDigits : JsString → Option JsString → Type 0
PlainDigits whole none = IsDigits whole × (whole ≢ [])
PlainDigits whole (some frac) = IsDigits whole × (whole ≢ []) × IsDigits frac

abbrev NoDigit : JsString → Type 0
NoDigit [] = Unit
NoDigit (c ∷ s) = is_digit c ≡ false

span_digits-append :
    (ds rest : JsString) → IsDigits ds → NoDigit rest → span_digits (ds ++ rest) ≡ (ds, rest)
unfolding span_digits
span_digits-append [] [] h st = refl
span_digits-append [] (c ∷ s) h st = ground arith
span_digits-append (d ∷ ds) rest h st = ground (arith, span_digits-append ds rest h.1 st)

Stops-NoDigit : (rest : JsString) → Stops rest → NoDigit rest
Stops-NoDigit [] h = tt
Stops-NoDigit (c ∷ s) h = h.0

read_exponent-Stops : (rest : JsString) → Stops rest → read_exponent rest ≡ (false, [])
unfolding read_exponent
read_exponent-Stops [] h = refl
read_exponent-Stops (c ∷ s) h = ground arith

read_fraction-Stops :
    (minus : Bool) (d : ℕ) (ds rest : JsString)
    → Stops rest
    → read_fraction minus (d ∷ ds) rest ≡ some (decimal minus (d ∷ ds) [] false [])
unfolding read_fraction
read_fraction-Stops minus d ds [] h = refl
read_fraction-Stops minus d ds (c ∷ s) h = ground (arith, read_exponent-Stops (c ∷ s) h)

read_fraction-point :
    (minus : Bool) (d : ℕ) (ds frac rest : JsString)
    → IsDigits frac
    → Stops rest
    → read_fraction minus (d ∷ ds) (b'.' ∷ (frac ++ rest))
      ≡ some (decimal minus (d ∷ ds) frac false [])
unfolding read_fraction
read_fraction-point minus d ds frac rest h st =
    rw (span_digits-append frac rest h (Stops-NoDigit rest st), read_exponent-Stops rest st) refl

pub digit_starts_numeral :
    (d : ℕ) (s : JsString)
    → is_digit d ≡ true
    → (is_space d ≡ false)
      × (read_sign (d ∷ s) ≡ (false, d ∷ s))
      × (starts_with (codes "Infinity") (d ∷ s) ≡ false)
unfolding is_digit is_space read_sign starts_with
digit_starts_numeral d s h = (ground arith, ground arith, ground arith)

-- Once blanks are cut, a text that starts with a digit is read from that digit.
parse_float-digit :
    (b : JsString) (d : ℕ) (ds rest : JsString)
    → IsBlank b
    → IsDigits (d ∷ ds)
    → NoDigit rest
    → parse_float (b ++ ((d ∷ ds) ++ rest)) ≡ read_fraction false (d ∷ ds) rest
unfolding parse_float read_unsigned
parse_float-digit b d ds rest hb hd hr =
    let (solid, unsigned, finite) = digit_starts_numeral d (ds ++ rest) hd.0 in
    rw (
      trim_start-blank b ((d ∷ ds) ++ rest) hb,
      trim_start-StartsSolid (d ∷ (ds ++ rest)) solid,
      unsigned,
      finite,
      span_digits-append (d ∷ ds) rest hd hr,
    )

pub parse_float-plain :
    (b whole : JsString) (frac : Option JsString) (rest : JsString)
    → IsBlank b
    → PlainDigits whole frac
    → Stops rest
    → parse_float (b ++ (plain whole frac ++ rest)) ≡ some (plain_numeral whole frac)
parse_float-plain b [] none rest hb hd st = absurd (hd.1 refl)
parse_float-plain b [] (some f) rest hb hd st = absurd (hd.1 refl)
parse_float-plain b (d ∷ ds) none rest hb hd st =
    parse_float-digit b d ds rest hb hd.0 (Stops-NoDigit rest st)
    ∙ read_fraction-Stops false d ds rest st
parse_float-plain b (d ∷ ds) (some f) rest hb hd st =
    ap (λ t. parse_float (b ++ t)) (append_assoc (d ∷ ds) (b'.' ∷ f) rest)
    ∙ parse_float-digit b d ds (b'.' ∷ (f ++ rest)) hb hd.0 (unfold is_digit in refl)
    ∙ read_fraction-point false d ds f rest hd.2 st

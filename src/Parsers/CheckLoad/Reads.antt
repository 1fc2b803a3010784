-- ===== src/Parsers/CheckLoad/Reads.antt =====
-- What check_load reads.
use fiware_monitoring.Domain.{text}
use fiware_monitoring.Js.Object.{number}
use fiware_monitoring.Parsers.Nagios.{EntityData, parse_body}
use fiware_monitoring.Parsers.Probe.{single_attr}
use fiware_monitoring.Parsers.Probe.Body.{first_line-parse_body, head_text}
use fiware_monitoring.Js.Number.{is_digit}
use fiware_monitoring.Parsers.Probe.Fields.{
  IsBlank-Free, field_keeps, is_truthy-middle, parse_float-field, plain-Free, plain-ne,
  second_field, no_second_field,
}
use fiware_monitoring.Base.{Option, some, ◌++◌, ◌∷◌, ◌≡◌, arith, refl, [], err, ok}
use fiware_monitoring.Js.Number.Decimal.{PlainDigits, plain, plain_numeral}
use fiware_monitoring.Js.Text.{JsString, first, split, is_space, codes}
use fiware_monitoring.Js.Text.Split.{Free}
use fiware_monitoring.Js.Text.Trim.{IsBlank}
use fiware_monitoring.Parsers.CheckLoad.{cpu_load_pct, get_context_attrs}

-- The load is the number between the first colon and the comma behind it, if that is a plain
-- decimal after blanks, whatever else the line holds.
pub cpu_load_pct-plain :
    (label b whole : JsString) (frac : Option JsString) (rest : JsString)
    → Free b':' label
    → IsBlank b
    → PlainDigits whole frac
    → cpu_load_pct (label ++ (b':' ∷ (b ++ (plain whole frac ++ (b',' ∷ rest)))))
      ≡ some (plain_numeral whole frac)
unfolding cpu_load_pct
cpu_load_pct-plain label b whole frac rest hl hb hd =
    let p = plain whole frac in
    rw
      (
        second_field b':' label (b ++ (p ++ (b',' ∷ rest))) hl,
        field_keeps b':' b',' b p rest (IsBlank-Free b':' b (unfold is_space in refl) hb)
            (plain-Free b':' whole frac (unfold is_digit in refl) (omega arith) hd) (omega arith),
        is_truthy-middle b p (b',' ∷ first (split b':' rest)) (plain-ne whole frac hd),
      )
      (parse_float-field b',' b whole frac (first (split b':' rest)) (unfold is_space in refl)
        (unfold is_digit in refl) (omega arith) hb hd)

-- From an accepted body whose first line has, before any bar, a label, a colon, a plain decimal
-- after blanks and a comma, check_load reads that decimal as the only attribute.
pub check_load_reads :
    (s : JsString) (e : EntityData) (label b whole : JsString) (frac : Option JsString)
    (rest : JsString)
    → parse_body (text s) ≡ ok e
    → head_text s ≡ label ++ (b':' ∷ (b ++ (plain whole frac ++ (b',' ∷ rest))))
    → Free b':' label
    → IsBlank b
    → PlainDigits whole frac
    → get_context_attrs e ≡ ok ((codes "cpuLoadPct", number (plain_numeral whole frac)) ∷ [])
unfolding get_context_attrs
check_load_reads s e label b whole frac rest accepted shape hl hb hd =
    rw
      (
        first_line-parse_body s e accepted,
        shape,
        cpu_load_pct-plain label b whole frac rest hl hb hd,
      )
      (unfold single_attr in refl)

-- Without a colon in what stands before the bar of its first line, an accepted body gives the
-- error "No valid load data found" in check_load.
pub check_load_missing :
    (s : JsString) (e : EntityData)
    → parse_body (text s) ≡ ok e
    → Free b':' (head_text s)
    → get_context_attrs e ≡ err (codes "No valid load data found")
unfolding get_context_attrs
check_load_missing s e accepted free =
    rw (first_line-parse_body s e accepted, no_second_field b':' (head_text s) free)
      (unfold single_attr in refl)

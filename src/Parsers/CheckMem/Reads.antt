-- ===== src/Parsers/CheckMem/Reads.antt =====
-- What check_mem.sh reads.
use fiware_monitoring.Domain.{text}
use fiware_monitoring.Js.Object.{number}
use fiware_monitoring.Parsers.Nagios.{EntityData, parse_body}
use fiware_monitoring.Parsers.Probe.{single_attr}
use fiware_monitoring.Parsers.Probe.Body.{first_line-parse_body, head_text}
use fiware_monitoring.Base.{Option, arith, refl, some, ◌++◌, ◌∷◌, ◌≡◌, [], err, ok}
use fiware_monitoring.Js.Number.{is_digit}
use fiware_monitoring.Js.Number.Decimal.{PlainDigits, plain, plain_numeral}
use fiware_monitoring.Js.Text.{JsString, first, is_space, split, codes}
use fiware_monitoring.Js.Text.Split.{Free}
use fiware_monitoring.Js.Text.Trim.{IsBlank}
use fiware_monitoring.Parsers.CheckMem.{used_mem_pct, get_context_attrs}
use fiware_monitoring.Parsers.Probe.Fields.{
  IsBlank-Free, field_keeps, is_truthy-middle, parse_float-field, plain-Free, plain-ne, third_field,
  no_third_field,
}

-- The used memory is the number between the second dash and the percent sign behind it, if that is
-- a plain decimal after blanks, whatever else the line holds.
pub used_mem_pct-plain :
    (label label' b whole : JsString) (frac : Option JsString) (rest : JsString)
    → Free b'-' label
    → Free b'-' label'
    → IsBlank b
    → PlainDigits whole frac
    → used_mem_pct
        (label ++ (b'-' ∷ (label' ++ (b'-' ∷ (b ++ (plain whole frac ++ (b'%' ∷ rest)))))))
      ≡ some (plain_numeral whole frac)
unfolding used_mem_pct
used_mem_pct-plain label label' b whole frac rest hl hl' hb hd =
    let p = plain whole frac in
    rw
      (
        third_field b'-' label label' (b ++ (p ++ (b'%' ∷ rest))) hl hl',
        field_keeps b'-' b'%' b p rest (IsBlank-Free b'-' b (unfold is_space in refl) hb)
            (plain-Free b'-' whole frac (unfold is_digit in refl) (omega arith) hd) (omega arith),
        is_truthy-middle b p (b'%' ∷ first (split b'-' rest)) (plain-ne whole frac hd),
      )
      (parse_float-field b'%' b whole frac (first (split b'-' rest)) (unfold is_space in refl)
        (unfold is_digit in refl) (omega arith) hb hd)

-- From an accepted body whose first line has, before any bar, two dashes, a plain decimal after
-- blanks and a percent sign, check_mem.sh reads that decimal as the only attribute.
pub check_mem_reads :
    (s : JsString) (e : EntityData) (label label' b whole : JsString) (frac : Option JsString)
    (rest : JsString)
    → parse_body (text s) ≡ ok e
    → head_text s
      ≡ label ++ (b'-' ∷ (label' ++ (b'-' ∷ (b ++ (plain whole frac ++ (b'%' ∷ rest))))))
    → Free b'-' label
    → Free b'-' label'
    → IsBlank b
    → PlainDigits whole frac
    → get_context_attrs e ≡ ok ((codes "usedMemPct", number (plain_numeral whole frac)) ∷ [])
unfolding get_context_attrs
check_mem_reads s e label label' b whole frac rest accepted shape hl hl' hb hd =
    rw
      (
        first_line-parse_body s e accepted,
        shape,
        used_mem_pct-plain label label' b whole frac rest hl hl' hb hd,
      )
      (unfold single_attr in refl)

-- Without a dash in what stands before the bar of its first line, an accepted body gives the error
-- "No valid memory data found" in check_mem.sh.
pub check_mem_missing :
    (s : JsString) (e : EntityData)
    → parse_body (text s) ≡ ok e
    → Free b'-' (head_text s)
    → get_context_attrs e ≡ err (codes "No valid memory data found")
unfolding get_context_attrs
check_mem_missing s e accepted free =
    rw (first_line-parse_body s e accepted, no_third_field b'-' (head_text s) free)
      (unfold single_attr in refl)

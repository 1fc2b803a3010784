-- ===== src/Parsers/CheckDisk/Reads.antt =====
-- What check_disk reads.
use fiware_monitoring.Domain.{text}
use fiware_monitoring.Js.Object.{number}
use fiware_monitoring.Parsers.Nagios.{EntityData, parse_body}
use fiware_monitoring.Parsers.Probe.Body.{first_line-parse_body, head_text}
use fiware_monitoring.Parsers.Probe.{when_truthy, single_attr}
use fiware_monitoring.Parsers.CheckDisk.Pattern.{replace_match}
use fiware_monitoring.Parsers.CheckDisk.Pattern.Matches.{replace_match-group}
use fiware_monitoring.Base.{
  [], arith, false, refl, some, ℕ, ◌++◌, ◌∷◌, ◌≡◌, ◌≢◌, All, List, append-ne, none, Bool-cases,
  Option, ap, inl, inr, not, sym, true, ◌∙◌, err, ok,
}
use fiware_monitoring.Js.Number.{decimal, is_digit, Numeral, parse_float}
use fiware_monitoring.Js.Number.Decimal.{IsDigits}
use fiware_monitoring.Js.Text.{JsString, is_space, join, is_truthy, split, trim, codes}
use fiware_monitoring.Js.Text.Split.{Free, Free-append, split-Free, split-append, split-join}
use fiware_monitoring.Js.Text.Trim.{IsBlank, trim-nil_iff}
use fiware_monitoring.Parsers.CheckDisk.{free_space_pct, group_pct, get_context_attrs}
use fiware_monitoring.Parsers.Probe.Fields.{
  IsBlank-Free, is_truthy-middle, second_field, IsDigits-Free, parse_float-end, no_second_field,
}

-- The description of a group of partitions, `pre(pct%post)`, holds none of the characters that
-- structure the line.
pub record IsGroup (pre pct post : JsString) : Type 0 where
  pub pre_free : Free b':' pre × Free b';' pre × Free b'(' pre
  pub pre_ne : pre ≢ []
  pub digits : IsDigits pct
  pub pct_ne : pct ≢ []
  pub post_free : Free b':' post × Free b';' post × Free b')' post
  pub post_ne : post ≢ []

abbrev pub group_text : JsString → JsString → JsString → JsString
group_text pre pct post = pre ++ (b'(' ∷ (pct ++ (b'%' ∷ (post ++ (b')' ∷ [])))))

group_text-Free :
    (c : ℕ) (pre pct post : JsString)
    → Free c pre
    → IsDigits pct
    → Free c post
    → is_digit c ≡ false
    → b'(' ≢ c
    → b'%' ≢ c
    → b')' ≢ c
    → Free c (group_text pre pct post)
group_text-Free c pre pct post h d k dg n1 n2 n3 =
    Free-append c pre _ h
      (n1, Free-append c pct _ (IsDigits-Free c pct dg d) (n2, Free-append c post _ k (n3, tt)))

-- For one group of partitions, `label: description (pct% more);`, the free space is the number
-- `pct`, whatever the label and the description are.
pub free_space_pct-group :
    (label pre pct post b : JsString)
    → Free b':' label
    → IsGroup pre pct post
    → IsBlank b
    → free_space_pct (label ++ (b':' ∷ (group_text pre pct post ++ (b';' ∷ b))))
      ≡ some (decimal false pct [] false [])
unfolding free_space_pct
free_space_pct-group label pre pct post b hl h hb =
    let g : JsString = group_text pre pct post in
    let colon : Free b':' g =
      group_text-Free b':' pre pct post h.pre_free.0 h.digits h.post_free.0
        (unfold is_digit in refl) (omega arith) (omega arith) (omega arith) in
    let semi : Free b';' g =
      group_text-Free b';' pre pct post h.pre_free.1 h.digits h.post_free.1
        (unfold is_digit in refl) (omega arith) (omega arith) (omega arith) in
    let rest : Free b':' (b';' ∷ b) =
      (omega arith, IsBlank-Free b':' b (unfold is_space in refl) hb) in
    rw
      (
        second_field b':' label (g ++ (b';' ∷ b)) hl,
        split-Free b':' (g ++ (b';' ∷ b)) (Free-append b':' g (b';' ∷ b) colon rest),
        is_truthy-middle [] g (b';' ∷ b) (append-ne pre _ h.pre_ne),
        split-append b';' g b semi,
        split-Free b';' b (IsBlank-Free b';' b (unfold is_space in refl) hb),
      )
      (rw
        (
          (trim-nil_iff b).1 hb,
          replace_match-group pre pct post h.pre_free.2 h.pre_ne h.digits h.pct_ne h.post_free.2
              h.post_ne,
        )
        (parse_float-end [] pct none tt (h.digits, h.pct_ne)))

Free-join :
    (c sep : ℕ) (ps : List JsString) → sep ≢ c → All (Free c) ps → Free c (join (sep ∷ []) ps)
unfolding join
Free-join c sep [] ne h = tt
Free-join c sep (p ∷ []) ne h = h.0
Free-join c sep (p ∷ q ∷ ps) ne h = Free-append c p _ h.0 (ne, Free-join c sep (q ∷ ps) ne h.1)

when_truthy-some :
    (item : JsString) (f : JsString → Option Numeral) (n : Numeral)
    → when_truthy (some item) f ≡ some n
    → f item ≡ some n
when_truthy-some [] f n e = absurd (cc e)
when_truthy-some (c ∷ item) f n e = e

is_truthy-nil : (s : JsString) → not (is_truthy s) ≡ true → s ≡ []
is_truthy-nil [] e = refl
is_truthy-nil (c ∷ s) e = absurd (cc e)

group_pct_single :
    (g : JsString) (gs : List JsString) (n : Numeral)
    → group_pct (g ∷ gs) ≡ some n
    → (b : JsString) × (gs ≡ b ∷ []) × IsBlank b × (parse_float (replace_match g) ≡ some n)
unfolding group_pct
group_pct_single g [] n e = absurd (cc e)
group_pct_single g (b ∷ []) n e = elim (Bool-cases (not (is_truthy (trim b)))) [
  | inl blank ↦ (b, refl, (trim-nil_iff b).0 (is_truthy-nil (trim b) blank), rw blank at e)
  | inr solid ↦ absurd (cc (rw solid at e))
]
group_pct_single g (b ∷ c ∷ gs) n e = absurd (cc e)

-- A line with groups `gs` behind its first colon has a value only if there are two, of which the
-- second is blank: several partitions that are not grouped are not supported.
pub free_space_pct_single :
    (label g : JsString) (gs : List JsString) (n : Numeral)
    → Free b':' label
    → All (Free b':') (g ∷ gs)
    → All (Free b';') (g ∷ gs)
    → free_space_pct (label ++ (b':' ∷ join (b';' ∷ []) (g ∷ gs))) ≡ some n
    → (b : JsString) × (gs ≡ b ∷ []) × IsBlank b × (parse_float (replace_match g) ≡ some n)
unfolding free_space_pct
free_space_pct_single label g gs n hl hc hs e =
    let item : JsString = join (b';' ∷ []) (g ∷ gs) in
    let picked : when_truthy (some item) (λ t. group_pct (split b';' t)) ≡ some n =
      rw
        (
          second_field b':' label item hl,
          split-Free b':' item (Free-join b':' b';' (g ∷ gs) (omega arith) hc),
        )
        at e in
    group_pct_single g gs n (
      ap group_pct (sym (split-join b';' g gs hs))
      ∙ when_truthy-some item (λ t. group_pct (split b';' t)) n picked)

-- From an accepted body whose first line has, before any bar, a label, a colon, the description of
-- one group and a semicolon with blanks behind it, check_disk reads the percentage in the
-- description as the only attribute.
pub check_disk_reads :
    (s : JsString) (e : EntityData) (label pre pct post b : JsString)
    → parse_body (text s) ≡ ok e
    → head_text s ≡ label ++ (b':' ∷ (group_text pre pct post ++ (b';' ∷ b)))
    → Free b':' label
    → IsGroup pre pct post
    → IsBlank b
    → get_context_attrs e ≡ ok ((codes "freeSpacePct", number (decimal false pct [] false [])) ∷ [])
unfolding get_context_attrs
check_disk_reads s e label pre pct post b accepted shape hl h hb =
    rw
      (first_line-parse_body s e accepted, shape, free_space_pct-group label pre pct post b hl h hb)
      (unfold single_attr in refl)

-- Without a colon in what stands before the bar of its first line, an accepted body gives the
-- error "No valid disk data found" in check_disk.
pub check_disk_missing :
    (s : JsString) (e : EntityData)
    → parse_body (text s) ≡ ok e
    → Free b':' (head_text s)
    → get_context_attrs e ≡ err (codes "No valid disk data found")
unfolding get_context_attrs
check_disk_missing s e accepted free =
    rw (first_line-parse_body s e accepted, no_second_field b':' (head_text s) free)
      (unfold single_attr in refl)

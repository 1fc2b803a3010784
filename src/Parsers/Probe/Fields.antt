-- ===== src/Parsers/Probe/Fields.antt =====
-- The fields of a probe's first line: what `split` gives at a place where a separator is known to
-- stand, and how a number in it is read.
use fiware_monitoring.Js.Text.Words.{IsSolid, first-split-trim}
use fiware_monitoring.Parsers.Nagios.FirstLine.{split-append_first}
use fiware_monitoring.Base.{
  Option, [], ap, append-nil, false, get_elem?, none, refl, some, sym, true, ℕ, ◌++◌, ◌∙◌, ◌∷◌, ◌≡◌,
  ◌≢◌, append_assoc, All-append, arith,
}
use fiware_monitoring.Js.Number.{is_digit, parse_float}
use fiware_monitoring.Js.Number.Decimal.{
  IsDigits, PlainDigits, parse_float-plain, plain, plain_numeral,
}
use fiware_monitoring.Js.Text.{JsString, first, is_space, is_truthy, split, trim}
use fiware_monitoring.Js.Text.Split.{Free, Free-append, split-Free, split-append, split-cons}
use fiware_monitoring.Js.Text.Trim.{IsBlank}

pub second_field :
    (c : ℕ) (label rest : JsString)
    → Free c label
    → get_elem? (split c (label ++ (c ∷ rest))) 1 ≡ some (first (split c rest))
second_field c label rest h =
    let (q, qs, e) = split-cons c rest in rw (split-append c label rest h, e) refl

pub third_field :
    (c : ℕ) (label label' rest : JsString)
    → Free c label
    → Free c label'
    → get_elem? (split c (label ++ (c ∷ (label' ++ (c ∷ rest))))) 2 ≡ some (first (split c rest))
third_field c label label' rest h k =
    rw (split-append c label (label' ++ (c ∷ rest)) h) (second_field c label' rest k)

pub no_second_field : (c : ℕ) (s : JsString) → Free c s → get_elem? (split c s) 1 ≡ none
no_second_field c s h = rw (split-Free c s h) refl

pub first_field : (c : ℕ) (s t : JsString) → Free c s → first (split c (s ++ (c ∷ t))) ≡ s
first_field c s t h = rw (split-append c s t h) refl

pub is_truthy-middle : (b p t : JsString) → p ≢ [] → is_truthy (b ++ (p ++ t)) ≡ true
is_truthy-middle [] [] t h = absurd (h refl)
is_truthy-middle [] (c ∷ p) t h = refl
is_truthy-middle (c ∷ b) p t h = refl

pub IsBlank-Free : (c : ℕ) (b : JsString) → is_space c ≡ false → IsBlank b → Free c b
IsBlank-Free c [] h k = tt
IsBlank-Free c (x ∷ b) h (p, k) = ((λ e. cc (ap is_space e)), IsBlank-Free c b h k)

pub IsDigits-Free : (c : ℕ) (ds : JsString) → is_digit c ≡ false → IsDigits ds → Free c ds
IsDigits-Free c [] h k = tt
IsDigits-Free c (x ∷ ds) h (p, k) = ((λ e. cc (ap is_digit e)), IsDigits-Free c ds h k)

pub plain-Free :
    (c : ℕ) (whole : JsString) (frac : Option JsString)
    → is_digit c ≡ false
    → c ≢ b'.'
    → PlainDigits whole frac
    → Free c (plain whole frac)
plain-Free c whole none h ne (d, _) = IsDigits-Free c whole h d
plain-Free c whole (some f) h ne (d, _, g) =
    Free-append c whole (b'.' ∷ f) (IsDigits-Free c whole h d)
      ((λ e. ne (sym e)), IsDigits-Free c f h g)

pub plain-ne :
    (whole : JsString) (frac : Option JsString) → PlainDigits whole frac → plain whole frac ≢ []
plain-ne [] none h = h.1
plain-ne [] (some f) h = absurd (h.1 refl)
plain-ne (d ∷ ds) none h = cc
plain-ne (d ∷ ds) (some f) h = cc

-- The number at the end of a field.
pub parse_float-end :
    (b whole : JsString) (frac : Option JsString)
    → IsBlank b
    → PlainDigits whole frac
    → parse_float (b ++ plain whole frac) ≡ some (plain_numeral whole frac)
parse_float-end b whole frac hb hd =
    ap (λ t. parse_float (b ++ t)) (sym (append-nil (plain whole frac)))
    ∙ parse_float-plain b whole frac [] hb hd tt

-- A separator that is not in the field keeps the field whole.
pub field_keeps :
    (c d : ℕ) (b p rest : JsString)
    → Free c b
    → Free c p
    → d ≢ c
    → first (split c (b ++ (p ++ (d ∷ rest)))) ≡ b ++ (p ++ (d ∷ first (split c rest)))
field_keeps c d b p rest hb hp ne =
    split-append_first c b (p ++ (d ∷ rest)) hb
    ∙ ap (◌++◌ b) (
        split-append_first c p (d ∷ rest) hp
        ∙ ap (◌++◌ p) (split-append_first c (d ∷ []) rest (ne, tt)))

-- A field that ends in the number and the separator.
pub parse_float-field :
    (c : ℕ) (b whole : JsString) (frac : Option JsString) (rest : JsString)
    → is_space c ≡ false
    → is_digit c ≡ false
    → c ≢ b'.'
    → IsBlank b
    → PlainDigits whole frac
    → parse_float (first (split c (b ++ (plain whole frac ++ (c ∷ rest)))))
      ≡ some (plain_numeral whole frac)
parse_float-field c b whole frac rest sp dg pt hb hd =
    ap parse_float (
      ap (λ t. first (split c t)) (sym (append_assoc b (plain whole frac) (c ∷ rest)))
      ∙ first_field c (b ++ plain whole frac) rest
          (Free-append c b _ (IsBlank-Free c b sp hb) (plain-Free c whole frac dg pt hd)))
    ∙ parse_float-end b whole frac hb hd

digit-solid : (c : ℕ) → is_digit c ≡ true → is_space c ≡ false
unfolding is_digit is_space
digit-solid c h = ground arith

IsDigits-IsSolid : (ds : JsString) → IsDigits ds → IsSolid ds
IsDigits-IsSolid [] h = tt
IsDigits-IsSolid (d ∷ ds) (p, h) = (digit-solid d p, IsDigits-IsSolid ds h)

plain-IsSolid :
    (whole : JsString) (frac : Option JsString)
    → PlainDigits whole frac
    → IsSolid (plain whole frac)
plain-IsSolid whole none (d, _) = IsDigits-IsSolid whole d
plain-IsSolid whole (some f) (d, _, g) =
    All-append (λ c. is_space c ≡ false) whole (b'.' ∷ f) (IsDigits-IsSolid whole d)
      (unfold is_space in refl, IsDigits-IsSolid f g)

-- A number that is the first word of a field.
pub parse_float-word :
    (b whole : JsString) (frac : Option JsString) (rest : JsString)
    → IsBlank b
    → PlainDigits whole frac
    → parse_float (first (split b' ' (trim (b ++ (plain whole frac ++ (b' ' ∷ rest))))))
      ≡ some (plain_numeral whole frac)
parse_float-word b whole frac rest hb hd =
    ap parse_float (
      first-split-trim b (plain whole frac) rest hb (plain-IsSolid whole frac hd)
        (plain-ne whole frac hd))
    ∙ parse_float-end [] whole frac tt hd

pub no_third_field : (c : ℕ) (s : JsString) → Free c s → get_elem? (split c s) 2 ≡ none
no_third_field c s h = rw (split-Free c s h) refl

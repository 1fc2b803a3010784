-- ===== src/Js/Json/Parse/RoundTrip.antt =====
-- `JSON.parse` on the string literals that `JSON.stringify` writes.
use fiware_monitoring.Base.{
  [], false, refl, some, true, ◌≡◌, arith, ℕ, ◌<◌, ◌∷◌, ap, suc, ◌%◌, ◌*◌, ◌++◌, ◌+◌, ◌/◌, ◌∙◌,
}
use fiware_monitoring.Js.Json.{
  arr, boolean, cons, end, member, nil, null, num, obj, str, hex_digit, quote_onto, quote_unit,
}
use fiware_monitoring.Js.Json.Parse.{json_parse, between, digits, hex_value, read_string, add_unit}
use fiware_monitoring.Js.Number.{decimal}
use fiware_monitoring.Js.Text.{codes, JsString}

json_sample :
    json_parse (codes " {\"a\" : [\"x\\n\", -1.5e2,true , null], \"\":{}}")
    ≡ some (
        obj (
          member
            (codes "a")
            (arr (
              cons (str (codes "x\n")) (
                cons
                  (num (decimal true (codes "1") (codes "5") false (codes "2")))
                  (cons (boolean true) (cons null nil)))))
            (member [] (obj end) end)))
unfolding json_parse
json_sample = refl

hex_value-hex_digit : (n : ℕ) → n < 16 → hex_value (hex_digit n) ≡ some n
unfolding hex_value hex_digit
hex_value-hex_digit n h = ground arith

read_digit-more :
    (left value n : ℕ) (s : JsString)
    → n < 16
    → read_string (digits (suc left) value) (hex_digit n ∷ s)
      ≡ read_string (digits left (value * 16 + n)) s
unfolding read_string
read_digit-more left value n s h = rw (hex_value-hex_digit n h) refl

read_digit-last :
    (value n : ℕ) (s : JsString)
    → n < 16
    → read_string (digits 0 value) (hex_digit n ∷ s)
      ≡ add_unit (value * 16 + n) (read_string between s)
unfolding read_string
read_digit-last value n s h = rw (hex_value-hex_digit n h) refl

read_string-prefix :
    (t : JsString)
    → read_string between (b'\\' ∷ b'u' ∷ b'0' ∷ b'0' ∷ t) ≡ read_string (digits 1 0) t
unfolding read_string
read_string-prefix t = refl

-- A control character, written with four digits.
read_string-control :
    (c : ℕ) (t : JsString)
    → c < 32
    → read_string between (b'\\' ∷ b'u' ∷ b'0' ∷ b'0' ∷ hex_digit (c / 16) ∷ hex_digit (c % 16) ∷ t)
      ≡ add_unit c (read_string between t)
read_string-control c t h =
    read_string-prefix _
    ∙ read_digit-more 0 0 (c / 16) (hex_digit (c % 16) ∷ t) (omega arith)
    ∙ read_digit-last (0 * 16 + c / 16) (c % 16) t (omega arith)
    ∙ ap (λ k. add_unit k (read_string between t)) (omega arith)

read_string-quote_unit :
    (c : ℕ) (t : JsString)
    → read_string between (quote_unit c ++ t) ≡ add_unit c (read_string between t)
unfolding quote_unit read_string
read_string-quote_unit c t = ground (arith, read_string-control c t)

-- A string literal gives the string back, whatever follows its closing quote.
pub read_string-quote_onto :
    (s rest : JsString) → read_string between (quote_onto s rest) ≡ some (s, rest)
unfolding quote_onto
read_string-quote_onto [] rest = unfold read_string in refl
read_string-quote_onto (c ∷ s) rest =
    rw (read_string-quote_unit c (quote_onto s rest), read_string-quote_onto s rest) refl

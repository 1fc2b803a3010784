-- ===== src/Js/Json/Parse.antt =====
-- `JSON.parse`.
pub mod RoundTrip
pub mod Fuel
pub mod Consumes
pub mod Readers
pub mod Enough
pub mod Values
use fiware_monitoring.Base.{
  Bool, Option, [], false, if◌then◌else◌, leb, ltb, none, some, ℕ, ◌&&◌, ◌+◌, ◌-◌, ◌==◌, ◌||◌, ◌∷◌,
  suc, true, zero, ◌++◌, length, ◌*◌,
}
use fiware_monitoring.Js.Json.{
  Json, num, Items, Members, arr, cons, end, member, nil, obj, str, boolean, null,
}
use fiware_monitoring.Js.Number.{decimal, read_sign, span_digits}
use fiware_monitoring.Js.Text.{JsString, codes, is_truthy}

-- JSONWhiteSpace.
pub is_json_space : ℕ → Bool
is_json_space c = c == b' ' || c == b'\t' || c == b'\n' || c == b'\r'

pub skip_space : JsString → JsString
unfolding is_json_space
skip_space [] = []
skip_space (c ∷ s) = let rest = skip_space s in if is_json_space c then rest else c ∷ s

-- A hexadecimal digit of either case.
pub hex_value : ℕ → Option ℕ
hex_value c =
    if leb b'0' c && leb c b'9'
    then some (c - b'0')
    else if leb b'a' c && leb c b'f'
    then some (c - b'a' + 10)
    else if leb b'A' c && leb c b'F'
    then some (c - b'A' + 10)
    else none

-- The escapes of one character.
pub unescape : ℕ → Option ℕ
unescape c =
    if c == b'"' || c == b'\\' || c == b'/'
    then some c
    else if c == b'b'
    then some 8
    else if c == b'f'
    then some 12
    else if c == b'n'
    then some b'\n'
    else if c == b'r'
    then some b'\r'
    else if c == b't'
    then some b'\t'
    else none

-- Where a string literal is being read: between characters, after a backslash, or within the four
-- digits of an escape, with their number left, less one, and their value so far.
pub data Place : Type 0 where
  between : Place
  escaped : Place
  digits : ℕ → ℕ → Place

-- What the next character does: it ends the literal, moves on, adds a code unit, or is an error.
pub data Next : Type 0 where
  close : Next
  move : Place → Next
  unit : ℕ → Next
  fail : Next

abbrev pub add_digit : ℕ → ℕ → Option ℕ → Next
add_digit left value none = fail
add_digit zero value (some d) = unit (value * 16 + d)
add_digit (suc left) value (some d) = move (digits left (value * 16 + d))

pub unit_or_fail : Option ℕ → Next
unit_or_fail none = fail
unit_or_fail (some c) = unit c

pub next_of : Place → ℕ → Next
unfolding unit_or_fail unescape hex_value
next_of between c =
    if c == b'"'
    then close
    else if c == b'\\'
    then move escaped
    else if ltb c 32
    then fail
    else unit c
next_of escaped c = if c == b'u' then move (digits 3 0) else unit_or_fail (unescape c)
next_of (digits left value) c = add_digit left value (hex_value c)

-- A literal with one more code unit.
abbrev pub add_unit : ℕ → Option (JsString × JsString) → Option (JsString × JsString)
add_unit c none = none
add_unit c (some (s, rest)) = some (c ∷ s, rest)

-- Lazy in the rest of the text, which is read only if the literal goes on.
abbrev pub go_on :
    (Place → Option (JsString × JsString)) → JsString → Next → Option (JsString × JsString)
go_on later rest close = some ([], rest)
go_on later rest (move place) = later place
go_on later rest (unit c) = add_unit c (later between)
go_on later rest fail = none

-- The rest of a string literal: its value, and what follows the closing quote.
unfoldable pub read_string : Place → JsString → Option (JsString × JsString)
unfolding next_of
read_string place [] = none
read_string place (c ∷ s) = go_on (λ p. read_string p s) s (next_of place c)

pub strip : JsString → JsString → Option JsString
strip [] s = some s
strip (x ∷ p) [] = none
strip (x ∷ p) (y ∷ s) = if x == y then strip p s else none

abbrev pub Read : Type 0
Read = Option (Json × JsString)

-- JSONNumber: an integer part without leading zeros, a fraction with digits, and an exponent with
-- digits.
pub with_exponent : Bool → JsString → JsString → Bool → JsString × JsString → Read
with_exponent minus whole frac down ([], rest) = none
with_exponent minus whole frac down (d ∷ ds, rest) =
    some (num (decimal minus whole frac down (d ∷ ds)), rest)

pub read_exponent : Bool → JsString → JsString → JsString → Read
unfolding with_exponent read_sign span_digits
read_exponent minus whole frac [] = some (num (decimal minus whole frac false []), [])
read_exponent minus whole frac (c ∷ s) =
    if c == b'e' || c == b'E'
    then with_exponent minus whole frac (read_sign s).0 (span_digits (read_sign s).1)
    else some (num (decimal minus whole frac false []), c ∷ s)

pub with_fraction : Bool → JsString → JsString × JsString → Read
unfolding read_exponent
with_fraction minus whole ([], rest) = none
with_fraction minus whole (d ∷ ds, rest) = read_exponent minus whole (d ∷ ds) rest

pub read_fraction : Bool → JsString → JsString → Read
unfolding with_fraction span_digits read_exponent
read_fraction minus whole [] = read_exponent minus whole [] []
read_fraction minus whole (c ∷ s) =
    if c == b'.'
    then with_fraction minus whole (span_digits s)
    else read_exponent minus whole [] (c ∷ s)

-- Digits that begin with 0 end there.
pub with_whole : Bool → JsString × JsString → Read
unfolding read_fraction
with_whole minus ([], rest) = none
with_whole minus (d ∷ ds, rest) =
    if d == b'0'
    then read_fraction minus (d ∷ []) (ds ++ rest)
    else read_fraction minus (d ∷ ds) rest

pub read_number : JsString → Read
unfolding with_whole span_digits
read_number [] = none
read_number (c ∷ s) =
    if c == b'-' then with_whole true (span_digits s) else with_whole false (span_digits (c ∷ s))

abbrev pub word : Json → Option JsString → Read
word v none = none
word v (some rest) = some (v, rest)

abbrev pub text_value : Option (JsString × JsString) → Read
text_value none = none
text_value (some (s, rest)) = some (str s, rest)

-- How a value starts: with an array, an object, or a value without parts.
pub data Start : Type 0 where
  array_start : JsString → Start
  object_start : JsString → Start
  simple : Read → Start

-- The start of a value, white space being skipped.
unfoldable pub start_of : JsString → Start
unfolding read_string strip read_number
start_of [] = simple none
start_of (c ∷ s) =
    if c == b'['
    then array_start s
    else if c == b'{'
    then object_start s
    else if c == b'"'
    then simple (text_value (read_string between s))
    else if c == b't'
    then simple (word (boolean true) (strip (codes "rue") s))
    else if c == b'f'
    then simple (word (boolean false) (strip (codes "alse") s))
    else if c == b'n'
    then simple (word null (strip (codes "ull") s))
    else simple (read_number (c ∷ s))

-- What separates the parts of an array or an object: its end, a comma, or something else.
pub data Mark : Type 0 where
  closed : JsString → Mark
  comma : JsString → Mark
  no_mark : JsString → Mark

unfoldable pub mark : ℕ → JsString → Mark
mark closing [] = no_mark []
mark closing (c ∷ s) =
    if c == closing then closed s else if c == b',' then comma s else no_mark (c ∷ s)

-- The name of a member and its colon.
pub after_name : JsString → JsString → Option (JsString × JsString)
after_name name [] = none
after_name name (c ∷ s) = if c == b':' then some (name, s) else none

pub name_then : Option (JsString × JsString) → Option (JsString × JsString)
unfolding skip_space after_name
name_then none = none
name_then (some (name, rest)) = after_name name (skip_space rest)

unfoldable pub read_name : JsString → Option (JsString × JsString)
unfolding read_string name_then
read_name [] = none
read_name (c ∷ s) = if c == b'"' then name_then (read_string between s) else none

infixl 5 ◌>>=◌
abbrev ◌>>=◌ {ℓ κ} : {A : Type ℓ} {B : Type κ} → Option A → (A → Option B) → Option B
none >>= f = none
some a >>= f = f a

-- With fuel; `more` tells whether a part stands in front.
mutual
  unfolding skip_space start_of mark read_name

  pub read_value : ℕ → JsString → Read
  read_value zero s = none
  read_value (suc f) s = elim (start_of (skip_space s)) [
    | simple r ↦ r
    | array_start rest ↦ (read_items f false rest >>= λ r. some (arr r.0, r.1))
    | object_start rest ↦ (read_members f false rest >>= λ r. some (obj r.0, r.1))
  ]

  pub read_items : ℕ → Bool → JsString → Option (Items × JsString)
  read_items zero more s = none
  read_items (suc f) false s = elim (mark b']' (skip_space s)) [
    | closed rest ↦ some (nil, rest)
    | _ ↦ read_item f s
  ]
  read_items (suc f) true s = elim (mark b']' (skip_space s)) [
    | closed rest ↦ some (nil, rest)
    | comma rest ↦ read_item f rest
    | no_mark rest ↦ none
  ]

  pub read_item : ℕ → JsString → Option (Items × JsString)
  read_item zero s = none
  read_item (suc f) s =
      read_value f s >>= λ r. (read_items f true r.1 >>= λ rs. some (cons r.0 rs.0, rs.1))

  pub read_members : ℕ → Bool → JsString → Option (Members × JsString)
  read_members zero more s = none
  read_members (suc f) false s = elim (mark b'}' (skip_space s)) [
    | closed rest ↦ some (end, rest)
    | _ ↦ read_member f s
  ]
  read_members (suc f) true s = elim (mark b'}' (skip_space s)) [
    | closed rest ↦ some (end, rest)
    | comma rest ↦ read_member f rest
    | no_mark rest ↦ none
  ]

  pub read_member : ℕ → JsString → Option (Members × JsString)
  read_member zero s = none
  read_member (suc f) s = read_name (skip_space s) >>= λ n.
      (read_value f n.1 >>= λ r.
      (read_members f true r.1 >>= λ rs. some (member n.0 r.0 rs.0, rs.1)))

pub end_of_text : Read → Option Json
unfolding skip_space
end_of_text none = none
end_of_text (some (v, rest)) = if is_truthy (skip_space rest) then none else some v

-- Three steps for each character, and three more.
abbrev pub fuel_for : JsString → ℕ
fuel_for s = 3 * length s + 3

-- `JSON.parse(s)`, where `none` is a SyntaxError.
unfoldable pub json_parse : JsString → Option Json
unfolding end_of_text read_value
json_parse s = end_of_text (read_value (fuel_for s) s)

-- ===== src/Js/Json.antt =====
-- JSON values and `JSON.stringify`.
pub mod Parse
use fiware_monitoring.Base.{
  Bool, [], false, if◌then◌else◌, ltb, true, ℕ, ◌%◌, ◌++◌, ◌+◌, ◌-◌, ◌/◌, ◌==◌, ◌∷◌, Option, none,
  some,
}
use fiware_monitoring.Js.Number.{Numeral}
use fiware_monitoring.Js.Text.{JsString, codes, equal}

mutual
  pub data Json : Type 0 where
    null : Json
    boolean : Bool → Json
    num : Numeral → Json
    str : JsString → Json
    arr : Items → Json
    obj : Members → Json

  pub data Items : Type 0 where
    nil : Items
    cons : Json → Items → Items

  -- The members in the order of the text; of two with one name the later counts.
  pub data Members : Type 0 where
    end : Members
    member : JsString → Json → Members → Members

abbrev pub or_earlier : Option Json → Option Json → Option Json
or_earlier none v = v
or_earlier (some v) w = some v

-- `members[name]`: of two members with one name the later counts.
unfoldable pub member_of : JsString → Members → Option Json
unfolding equal
member_of name end = none
member_of name (member key v members) =
    or_earlier (member_of name members) (if equal key name then some v else none)

-- A lower case hexadecimal digit.
pub hex_digit : ℕ → ℕ
hex_digit n = if ltb n 10 then b'0' + n else b'a' + (n - 10)

-- QuoteJSONString, for one code unit.
pub quote_unit : ℕ → JsString
quote_unit c =
    if c == b'"'
    then b'\\' ∷ b'"' ∷ []
    else if c == b'\\'
    then b'\\' ∷ b'\\' ∷ []
    else if c == 8
    then b'\\' ∷ b'b' ∷ []
    else if c == 12
    then b'\\' ∷ b'f' ∷ []
    else if c == b'\n'
    then b'\\' ∷ b'n' ∷ []
    else if c == b'\r'
    then b'\\' ∷ b'r' ∷ []
    else if c == b'\t'
    then b'\\' ∷ b't' ∷ []
    else if ltb c 32
    then b'\\' ∷ b'u' ∷ b'0' ∷ b'0' ∷ hex_digit (c / 16) ∷ hex_digit (c % 16) ∷ []
    else c ∷ []

-- The quoted units, the closing quote and what follows it.
pub quote_onto : JsString → JsString → JsString
quote_onto [] rest = b'"' ∷ rest
quote_onto (c ∷ s) rest = quote_unit c ++ quote_onto s rest

pub quote : JsString → JsString
unfolding quote_onto
quote s = b'"' ∷ quote_onto s []

-- `JSON.stringify(value)` without white space, in front of what follows; numbers are printed by
-- `print`.
module _ (print : Numeral → JsString) where
  mutual
    pub stringify_onto : Json → JsString → JsString
    stringify_onto null rest = codes "null" ++ rest
    stringify_onto (boolean true) rest = codes "true" ++ rest
    stringify_onto (boolean false) rest = codes "false" ++ rest
    stringify_onto (num n) rest = print n ++ rest
    stringify_onto (str s) rest = b'"' ∷ quote_onto s rest
    stringify_onto (arr items) rest = b'[' ∷ first_item items rest
    stringify_onto (obj members) rest = b'{' ∷ first_member members rest

    pub first_item : Items → JsString → JsString
    first_item nil rest = b']' ∷ rest
    first_item (cons v items) rest = stringify_onto v (more_items items rest)

    pub more_items : Items → JsString → JsString
    more_items nil rest = b']' ∷ rest
    more_items (cons v items) rest = b',' ∷ stringify_onto v (more_items items rest)

    pub first_member : Members → JsString → JsString
    first_member end rest = b'}' ∷ rest
    first_member (member name v members) rest =
        b'"' ∷ quote_onto name (b':' ∷ stringify_onto v (more_members members rest))

    pub more_members : Members → JsString → JsString
    more_members end rest = b'}' ∷ rest
    more_members (member name v members) rest =
        b',' ∷ b'"' ∷ quote_onto name (b':' ∷ stringify_onto v (more_members members rest))

  unfoldable pub stringify : Json → JsString
  unfolding stringify_onto quote_onto quote_unit hex_digit
  stringify v = stringify_onto v []

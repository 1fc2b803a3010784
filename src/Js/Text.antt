-- ===== src/Js/Text.antt =====
-- JavaScript strings as lists of UTF-16 code units, with the methods of `String.prototype` and
-- `Array.prototype` that the adapter calls.
pub mod Split
pub mod Equality
pub mod Trim
pub mod Words
pub mod Utf8
use fiware_monitoring.Base.{
  ℕ, code, String, Bool, true, false, ◌&&◌, ◌||◌, List, [], ◌∷◌, ◌++◌, reverse, leb, ◌==◌,
  if◌then◌else◌, Option, none, some,
}

abbrev pub JsString : Type 0
JsString = List ℕ

-- The code units of a literal of the source; every one of them is ASCII.
abbrev pub codes : String → JsString
codes String.[] = []
codes (String.◌∷◌ c s) = code c ∷ codes s

-- `===` on strings.
unfoldable pub equal : JsString → JsString → Bool
equal [] [] = true
equal (x ∷ xs) (y ∷ ys) = x == y && equal xs ys
equal _ _ = false

-- `!s` is false: a string is truthy unless it is empty.
abbrev pub is_truthy : JsString → Bool
is_truthy [] = false
is_truthy (_ ∷ _) = true

abbrev pub cons_head : ℕ → List JsString → List JsString
cons_head x [] = (x ∷ []) ∷ []
cons_head x (p ∷ ps) = (x ∷ p) ∷ ps

-- `s.split(c)` for a separator of one code unit.
unfoldable pub split : ℕ → JsString → List JsString
split c [] = [] ∷ []
split c (x ∷ s) = let rest = split c s in if x == c then [] ∷ rest else cons_head x rest

-- `parts.join(sep)`.
unfoldable pub join : JsString → List JsString → JsString
join sep [] = []
join sep (p ∷ []) = p
join sep (p ∷ q ∷ ps) = p ++ (sep ++ join sep (q ∷ ps))

-- WhiteSpace and LineTerminator of the ECMAScript grammar.
unfoldable pub is_space : ℕ → Bool
is_space c =
    (leb 9 c && leb c 13)
    || c == 32
    || c == 160
    || c == 5760
    || c == 6158
    || (leb 8192 c && leb c 8202)
    || c == 8232
    || c == 8233
    || c == 8239
    || c == 8287
    || c == 12288
    || c == 65279

unfoldable pub trim_start : JsString → JsString
trim_start [] = []
trim_start (c ∷ s) = let rest = trim_start s in if is_space c then rest else c ∷ s

unfoldable pub trim_end : JsString → JsString
unfolding trim_start
trim_end s = reverse (trim_start (reverse s))

-- `s.trim()`.
unfoldable pub trim : JsString → JsString
trim s = trim_end (trim_start s)

-- `parts[0]` of the pieces of a split, of which there is always one.
abbrev pub first : List JsString → JsString
first [] = codes "undefined"
first (p ∷ ps) = p

-- A value in a concatenation, where undefined is read as text.
abbrev pub get_or_undefined : Option JsString → JsString
get_or_undefined none = codes "undefined"
get_or_undefined (some s) = s

-- `list.indexOf(s) !== -1`
unfoldable pub contains : List JsString → JsString → Bool
unfolding equal
contains [] s = false
contains (t ∷ l) s = equal t s || contains l s

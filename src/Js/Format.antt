-- ===== src/Js/Format.antt =====
-- `util.format` of Node.js: what it makes of the placeholders of a format string.
pub mod Plain
use fiware_monitoring.Base.{Bool, List, [], false, if◌then◌else◌, true, ℕ, ◌++◌, ◌==◌, ◌∷◌}
use fiware_monitoring.Js.Integer.{show_nat}
use fiware_monitoring.Js.Json.{quote}
use fiware_monitoring.Js.Text.{JsString}

-- An argument: a string, an object that has a `toString` of its own, or a natural number.
pub data Argument : Type 0 where
  text_arg : JsString → Argument
  nat_arg : ℕ → Argument

-- `String(arg)`
unfoldable pub string_of : Argument → JsString
unfolding show_nat
string_of (text_arg s) = s
string_of (nat_arg n) = show_nat n

-- What the character after a percent sign asks for.
pub data Directive : Type 0 where
  as_string as_number as_json percent other_char : Directive

abbrev pub directive_of : ℕ → Directive
directive_of c =
    if c == b's'
    then as_string
    else if c == b'd'
    then as_number
    else if c == b'j'
    then as_json
    else if c == b'%'
    then percent
    else other_char

-- The scan of a format string: what a character adds, whether it is a percent sign that waits for its
-- directive, and the arguments that are left.
pub record Scanned : Type 0 where
  pub added : JsString
  pub after_percent : Bool
  pub left : List Argument

module _ (number_of : JsString → JsString) where
  -- `String(Number(arg))`, where the argument is the one on strings.
  unfoldable pub number_text : Argument → JsString
  unfolding show_nat
  number_text (text_arg s) = number_of s
  number_text (nat_arg n) = show_nat n

  -- `JSON.stringify(arg)`
  unfoldable pub json_text : Argument → JsString
  unfolding show_nat
  json_text (text_arg s) = quote s
  json_text (nat_arg n) = show_nat n

  -- A directive with no argument left stays as it is.
  unfoldable pub substitute : ℕ → Directive → List Argument → JsString × List Argument
  unfolding string_of number_text json_text
  substitute c percent args = (b'%' ∷ [], args)
  substitute c other_char args = (b'%' ∷ c ∷ [], args)
  substitute c directive [] = (b'%' ∷ c ∷ [], [])
  substitute c as_string (a ∷ args) = (string_of a, args)
  substitute c as_number (a ∷ args) = (number_text a, args)
  substitute c as_json (a ∷ args) = (json_text a, args)

  unfoldable pub scan_char : Bool → ℕ → List Argument → Scanned
  unfolding substitute
  scan_char true c args = record {
    added = (substitute c (directive_of c) args).0;
    after_percent = false;
    left = (substitute c (directive_of c) args).1;
  }
  scan_char false c args = record {
    added = if c == b'%' then [] else c ∷ [];
    after_percent = c == b'%';
    left = args;
  }

  -- The arguments without a placeholder are appended; no call of the source leaves an object over.
  unfoldable pub append_args : List Argument → JsString
  unfolding string_of
  append_args [] = []
  append_args (a ∷ args) = b' ' ∷ (string_of a ++ append_args args)

  unfoldable pub fill : Bool → JsString → List Argument → JsString
  unfolding scan_char append_args
  fill true [] args = b'%' ∷ append_args args
  fill false [] args = append_args args
  fill after_percent (c ∷ s) args =
      let next = scan_char after_percent c args in next.added ++ fill next.after_percent s next.left

  -- `util.format(f, …args)`: with no argument the format string is returned as it is.
  unfoldable pub util_format : JsString → List Argument → JsString
  unfolding fill
  util_format f [] = f
  util_format f (a ∷ args) = fill false f (a ∷ args)

-- ===== src/Parsers/CheckDisk/Pattern.antt =====
-- The regular expression of check_disk, /([^(]+\()(\w+)%([^)]+\))/. Each of its repetitions is
-- followed by a character that it cannot match, so the first way to match is the only one.
pub mod Matches
use fiware_monitoring.Base.{
  Bool, Option, [], if◌then◌else◌, leb, none, not, some, ℕ, ◌&&◌, ◌++◌, ◌==◌, ◌||◌, ◌∷◌,
}
use fiware_monitoring.Js.Number.{is_digit}
use fiware_monitoring.Js.Text.{JsString}

pub span : (ℕ → Bool) → JsString → JsString × JsString
span p [] = ([], [])
span p (c ∷ s) = let rest = span p s in if p c then (c ∷ rest.0, rest.1) else ([], c ∷ s)

-- `\w`
pub is_word : ℕ → Bool
unfolding is_digit
is_word c = (leb b'A' c && leb c b'Z') || (leb b'a' c && leb c b'z') || is_digit c || c == b'_'

-- The end of a repetition: at least one character was taken, and `closing` follows.
pub close_run : ℕ → JsString → JsString → Option (JsString × JsString)
close_run closing [] rest = none
close_run closing (d ∷ run) [] = none
close_run closing (d ∷ run) (c ∷ rest) = if c == closing then some (d ∷ run, rest) else none

-- One or more characters of a class, and then the character `closing`.
pub run_then : (ℕ → Bool) → ℕ → JsString → Option (JsString × JsString)
unfolding span close_run
run_then p closing s = close_run closing (span p s).0 (span p s).1

infixl 5 ◌>>=◌
abbrev ◌>>=◌ {ℓ κ} : {A : Type ℓ} {B : Type κ} → Option A → (A → Option B) → Option B
none >>= f = none
some a >>= f = f a

-- A match at the start of the string: its second group, and what follows the match.
unfoldable pub match_here : JsString → Option (JsString × JsString)
unfolding run_then is_word
match_here s = do
  before ← run_then (λ c. not (c == b'(')) b'(' s
  group ← run_then is_word b'%' before.1
  after ← run_then (λ c. not (c == b')')) b')' group.1
  some (group.0, after.1)

-- The string with a match at its start replaced, or with its first character kept.
abbrev replaced : ℕ → JsString → Option (JsString × JsString) → JsString
replaced c later none = c ∷ later
replaced c later (some (group, rest)) = group ++ rest

-- `s.replace(pattern, '$2')`: the leftmost match is replaced by its second group.
unfoldable pub replace_match : JsString → JsString
replace_match [] = []
replace_match (c ∷ s) = let later = replace_match s in replaced c later (match_here (c ∷ s))

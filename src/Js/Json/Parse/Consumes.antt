-- ===== src/Js/Json/Parse/Consumes.antt =====
-- How much of the text each reader of `JSON.parse` consumes.
use fiware_monitoring.Base.{
  Bool, Option, [], arith, false, if◌then◌else◌, length, length-append, none, some, suc, true, ℕ,
  ◌++◌, ◌+◌, ◌<◌, ◌==◌, ◌||◌, ◌∷◌, ◌≡◌, ◌≤◌,
}
use fiware_monitoring.Js.Json.{Json, boolean, null}
use fiware_monitoring.Js.Json.Parse.{
  Next, Place, add_unit, between, close, fail, go_on, is_json_space, move, next_of, read_exponent,
  read_fraction, read_number, read_string, skip_space, strip, unit, with_exponent, with_fraction,
  with_whole, word, Mark, Start, after_name, array_start, closed, comma, mark, name_then, no_mark,
  object_start, read_name, simple, start_of, text_value,
}
use fiware_monitoring.Js.Number.{is_digit, read_sign, span_digits}
use fiware_monitoring.Js.Text.{JsString, codes}

-- What is left is shorter than `n`, if anything was read.
abbrev pub After {ℓ} : {A : Type ℓ} → ℕ → Option (A × JsString) → Type 0
After n none = Unit
After n (some (a, rest)) = length rest < n

-- The same, where nothing needs to be consumed.
abbrev pub UpTo {ℓ} : {A : Type ℓ} → ℕ → Option (A × JsString) → Type 0
UpTo n none = Unit
UpTo n (some (a, rest)) = length rest ≤ n

pub After-weaken {ℓ} :
    {A : Type ℓ} {m n : ℕ} (r : Option (A × JsString)) → m ≤ n → After m r → After n r
After-weaken none le h = tt
After-weaken (some (a, rest)) le h = omega arith

UpTo-weaken {ℓ} : {A : Type ℓ} {m n : ℕ} (r : Option (A × JsString)) → m ≤ n → UpTo m r → UpTo n r
UpTo-weaken none le h = tt
UpTo-weaken (some (a, rest)) le h = omega arith

pub if_keeps {ℓ κ} :
    {A : Type ℓ} (P : A → Type κ) (b : Bool) {x y : A} → P x → P y → P (if b then x else y)
if_keeps P true h k = h
if_keeps P false h k = k

pub length-skip_space : (s : JsString) → length (skip_space s) ≤ length s
unfolding skip_space
length-skip_space [] = omega arith
length-skip_space (c ∷ s) =
    if_keeps (λ t. length t ≤ suc (length s)) (is_json_space c) {x = skip_space s} {y = c ∷ s}
      (omega (arith, length-skip_space s)) (omega arith)

add_unit-After :
    (n c : ℕ) (r : Option (JsString × JsString)) → After n r → After (suc n) (add_unit c r)
add_unit-After n c none h = tt
add_unit-After n c (some (s, rest)) h = omega arith

go_on-After :
    (later : Place → Option (JsString × JsString)) (s : JsString)
    → ((p : Place) → After (length s) (later p))
    → (next : Next) → After (suc (length s)) (go_on later s next)
go_on-After later s h close = omega arith
go_on-After later s h (move p) = After-weaken (later p) (omega arith) (h p)
go_on-After later s h (unit c) = add_unit-After (length s) c (later between) (h between)
go_on-After later s h fail = tt

read_string-After : (s : JsString) (place : Place) → After (length s) (read_string place s)
unfolding read_string
read_string-After [] place = tt
read_string-After (c ∷ s) place =
    go_on-After (λ p. read_string p s) s (read_string-After s) (next_of place c)

strip-UpTo : (v : Json) (p s : JsString) → UpTo (length s) (word v (strip p s))
unfolding strip
strip-UpTo v [] s = omega arith
strip-UpTo v (x ∷ p) [] = tt
strip-UpTo v (x ∷ p) (y ∷ s) =
    if_keeps (λ r. UpTo (suc (length s)) (word v r)) (x == y)
      (UpTo-weaken (word v (strip p s)) (omega arith) (strip-UpTo v p s)) tt

span_digits-length : (s : JsString) → length (span_digits s).0 + length (span_digits s).1 ≡ length s
unfolding span_digits
span_digits-length [] = omega arith
span_digits-length (c ∷ s) =
    if_keeps (λ (r : JsString × JsString). length r.0 + length r.1 ≡ suc (length s)) (is_digit c)
      (omega (arith, span_digits-length s)) (omega arith)

read_sign-length : (s : JsString) → length (read_sign s).1 ≤ length s
unfolding read_sign
read_sign-length [] = omega arith
read_sign-length (c ∷ s) =
    if_keeps (λ (r : Bool × JsString). length r.1 ≤ suc (length s)) (c == b'-') (omega arith)
      (if_keeps (λ (r : Bool × JsString). length r.1 ≤ suc (length s)) (c == b'+') (omega arith)
        (omega arith))

with_exponent-UpTo :
    (minus : Bool) (whole frac : JsString) (down : Bool) (e : JsString × JsString)
    → UpTo (length e.1) (with_exponent minus whole frac down e)
unfolding with_exponent
with_exponent-UpTo minus whole frac down ([], rest) = tt
with_exponent-UpTo minus whole frac down (d ∷ ds, rest) = omega arith

read_exponent-UpTo :
    (minus : Bool) (whole frac s : JsString) → UpTo (length s) (read_exponent minus whole frac s)
unfolding read_exponent
read_exponent-UpTo minus whole frac [] = omega arith
read_exponent-UpTo minus whole frac (c ∷ s) =
    if_keeps (UpTo (suc (length s))) (c == b'e' || c == b'E')
      (UpTo-weaken _ (omega (arith, read_sign-length s, span_digits-length (read_sign s).1))
        (with_exponent-UpTo minus whole frac (read_sign s).0 (span_digits (read_sign s).1)))
      (omega arith)

with_fraction-UpTo :
    (minus : Bool) (whole : JsString) (e : JsString × JsString)
    → UpTo (length e.1) (with_fraction minus whole e)
unfolding with_fraction
with_fraction-UpTo minus whole ([], rest) = tt
with_fraction-UpTo minus whole (d ∷ ds, rest) = read_exponent-UpTo minus whole (d ∷ ds) rest

read_fraction-UpTo :
    (minus : Bool) (whole s : JsString) → UpTo (length s) (read_fraction minus whole s)
unfolding read_fraction
read_fraction-UpTo minus whole [] = read_exponent-UpTo minus whole [] []
read_fraction-UpTo minus whole (c ∷ s) =
    if_keeps (UpTo (suc (length s))) (c == b'.')
      (UpTo-weaken _ (omega (arith, span_digits-length s))
        (with_fraction-UpTo minus whole (span_digits s)))
      (read_exponent-UpTo minus whole [] (c ∷ s))

UpTo-After {ℓ} : {A : Type ℓ} {m n : ℕ} (r : Option (A × JsString)) → m < n → UpTo m r → After n r
UpTo-After none lt h = tt
UpTo-After (some (a, rest)) lt h = omega arith

with_whole-After :
    (minus : Bool) (e : JsString × JsString) → After (length e.0 + length e.1) (with_whole minus e)
unfolding with_whole
with_whole-After minus ([], rest) = tt
with_whole-After minus (d ∷ ds, rest) =
    if_keeps (After (suc (length ds) + length rest)) (d == b'0')
      (UpTo-After _ (omega (arith, length-append ds rest))
        (read_fraction-UpTo minus (d ∷ []) (ds ++ rest)))
      (UpTo-After _ (omega arith) (read_fraction-UpTo minus (d ∷ ds) rest))

read_number-After : (s : JsString) → After (length s) (read_number s)
unfolding read_number
read_number-After [] = tt
read_number-After (c ∷ s) =
    if_keeps (After (suc (length s))) (c == b'-')
      (After-weaken _ (omega (arith, span_digits-length s)) (with_whole-After true (span_digits s)))
      (After-weaken _ (omega (arith, span_digits-length (c ∷ s)))
        (with_whole-After false (span_digits (c ∷ s))))

-- What a start leaves is shorter than `n`.
abbrev pub Fits : ℕ → Start → Type 0
Fits n (array_start rest) = length rest < n
Fits n (object_start rest) = length rest < n
Fits n (simple r) = After n r

text_value-After :
    (n : ℕ) (r : Option (JsString × JsString)) → After n r → After (suc n) (text_value r)
text_value-After n none h = tt
text_value-After n (some (t, rest)) h = omega arith

pub start_of-Fits : (s : JsString) → Fits (length s) (start_of s)
unfolding start_of
start_of-Fits [] = tt
start_of-Fits (c ∷ s) =
    let P = Fits (suc (length s)) in
    if_keeps P (c == b'[') (omega arith) (
      if_keeps P (c == b'{') (omega arith) (
        if_keeps P (c == b'"') (text_value-After (length s) _ (read_string-After s between)) (
          if_keeps P (c == b't')
            (UpTo-After _ (omega arith) (strip-UpTo (boolean true) (codes "rue") s))
            (if_keeps P (c == b'f')
              (UpTo-After _ (omega arith) (strip-UpTo (boolean false) (codes "alse") s))
              (if_keeps P (c == b'n') (UpTo-After _ (omega arith) (strip-UpTo null (codes "ull") s))
                (read_number-After (c ∷ s)))))))

after_name-After : (name s : JsString) → After (length s) (after_name name s)
unfolding after_name
after_name-After name [] = tt
after_name-After name (c ∷ s) = if_keeps (After (suc (length s))) (c == b':') (omega arith) tt

name_then-After : (n : ℕ) (r : Option (JsString × JsString)) → After n r → After n (name_then r)
unfolding name_then
name_then-After n none h = tt
name_then-After n (some (name, rest)) h =
    After-weaken _ (omega (arith, length-skip_space rest)) (after_name-After name (skip_space rest))

pub read_name-After : (s : JsString) → After (length s) (read_name s)
unfolding read_name
read_name-After [] = tt
read_name-After (c ∷ s) =
    if_keeps (After (suc (length s))) (c == b'"')
      (After-weaken _ (omega arith) (name_then-After (length s) _ (read_string-After s between))) tt

-- What a mark leaves.
abbrev pub MarkFits : JsString → Mark → Type 0
MarkFits s (closed rest) = length rest < length s
MarkFits s (comma rest) = length rest < length s
MarkFits s (no_mark rest) = Unit

pub mark-MarkFits : (closing : ℕ) (s : JsString) → MarkFits s (mark closing s)
unfolding mark
mark-MarkFits closing [] = tt
mark-MarkFits closing (c ∷ s) =
    if_keeps (MarkFits (c ∷ s)) (c == closing) (omega arith)
      (if_keeps (MarkFits (c ∷ s)) (c == b',') (omega arith) tt)

-- ===== src/Parsers/CheckDisk/Pattern/Matches.antt =====
-- How the pattern of check_disk matches the description of one group of partitions.
use fiware_monitoring.Base.{
  All, Bool, [], arith, false, not, refl, some, true, ℕ, ◌++◌, ◌==◌, ◌∷◌, ◌≡◌, ◌≢◌, append-nil,
}
use fiware_monitoring.Js.Number.{is_digit}
use fiware_monitoring.Js.Number.Decimal.{IsDigits}
use fiware_monitoring.Js.Text.{JsString}
use fiware_monitoring.Js.Text.Split.{Free}
use fiware_monitoring.Parsers.CheckDisk.Pattern.{
  close_run, is_word, replace_match, run_then, span, match_here,
}

-- Every character is in the class.
abbrev InClass : (ℕ → Bool) → JsString → Type 0
InClass p = All (λ c. p c ≡ true)

span-InClass :
    (p : ℕ → Bool) (run : JsString) (c : ℕ) (rest : JsString)
    → InClass p run
    → p c ≡ false
    → span p (run ++ (c ∷ rest)) ≡ (run, c ∷ rest)
unfolding span
span-InClass p [] c rest h e = rw e refl
span-InClass p (x ∷ run) c rest (h, k) e = ground (arith, span-InClass p run c rest k e, h)

run_then-InClass :
    (p : ℕ → Bool) (closing : ℕ) (run rest : JsString)
    → InClass p run
    → run ≢ []
    → p closing ≡ false
    → run_then p closing (run ++ (closing ∷ rest)) ≡ some (run, rest)
unfolding run_then
run_then-InClass p closing [] rest h ne e = absurd (ne refl)
run_then-InClass p closing (x ∷ run) rest h ne e =
    rw (span-InClass p (x ∷ run) closing rest h e) (unfold close_run in ground arith)

Free-InClass : (c : ℕ) (s : JsString) → Free c s → InClass (λ x. not (x == c)) s
Free-InClass c [] h = tt
Free-InClass c (x ∷ s) (p, h) = (ground arith, Free-InClass c s h)

digit-is_word : (c : ℕ) → is_digit c ≡ true → is_word c ≡ true
unfolding is_word
digit-is_word c h = rw h (ground arith)

IsDigits-InClass : (ds : JsString) → IsDigits ds → InClass is_word ds
IsDigits-InClass [] h = tt
IsDigits-InClass (d ∷ ds) (p, h) = (digit-is_word d p, IsDigits-InClass ds h)

match_here-group :
    (pre pct post : JsString)
    → Free b'(' pre
    → pre ≢ []
    → IsDigits pct
    → pct ≢ []
    → Free b')' post
    → post ≢ []
    → match_here (pre ++ (b'(' ∷ (pct ++ (b'%' ∷ (post ++ (b')' ∷ [])))))) ≡ some (pct, [])
unfolding match_here
match_here-group pre pct post h1 n1 h2 n2 h3 n3 =
    rw
      (
        run_then-InClass (λ c. not (c == b'(')) b'(' pre _ (Free-InClass b'(' pre h1) n1 refl,
        run_then-InClass is_word b'%' pct _ (IsDigits-InClass pct h2) n2
            (unfold is_word is_digit in refl),
        run_then-InClass (λ c. not (c == b')')) b')' post [] (Free-InClass b')' post h3) n3 refl,
      )
      refl

-- The whole of `pre (pct% post)` is the match.
pub replace_match-group :
    (pre pct post : JsString)
    → Free b'(' pre
    → pre ≢ []
    → IsDigits pct
    → pct ≢ []
    → Free b')' post
    → post ≢ []
    → replace_match (pre ++ (b'(' ∷ (pct ++ (b'%' ∷ (post ++ (b')' ∷ [])))))) ≡ pct
unfolding replace_match
replace_match-group [] pct post h1 n1 h2 n2 h3 n3 = absurd (n1 refl)
replace_match-group (c ∷ pre) pct post h1 n1 h2 n2 h3 n3 =
    rw (match_here-group (c ∷ pre) pct post h1 n1 h2 n2 h3 n3) (append-nil pct)

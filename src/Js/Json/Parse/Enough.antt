-- ===== src/Js/Json/Parse/Enough.antt =====
-- The fuel of `JSON.parse` against the length of the text.
use fiware_monitoring.Base.{
  Bool, Option, ap, arith, false, length, none, refl, some, suc, true, zero, ℕ, ◌*◌, ◌+◌, ◌<◌, ◌∙◌,
  ◌≡◌, ◌≤◌,
}
use fiware_monitoring.Js.Json.{arr, cons, member, obj}
use fiware_monitoring.Js.Json.Parse.Consumes.{
  After, After-weaken, length-skip_space, read_name-After,
}
use fiware_monitoring.Js.Json.Parse.Readers.{consumes, Fits-mark, Fits-start}
use fiware_monitoring.Js.Text.{JsString}
use fiware_monitoring.Js.Json.Parse.{
  ◌>>=◌, Mark, Start, array_start, closed, comma, end_of_text, fuel_for, json_parse, mark, no_mark,
  object_start, read_item, read_items, read_member, read_members, read_name, read_value, simple,
  skip_space, start_of,
}

bind-same {ℓ κ} :
    {A : Type ℓ} {B : Type κ} {n : ℕ} (r : Option (A × JsString))
    (next next' : A × JsString → Option B)
    → After n r
    → ((a : A) (rest : JsString) → length rest < n → next (a, rest) ≡ next' (a, rest))
    → (r >>= next) ≡ (r >>= next')
bind-same none next next' h k = refl
bind-same (some (a, rest)) next next' h k = k a rest h

-- One more unit of fuel changes nothing where there is enough for the text.
record Stable (f : ℕ) : Type 0 where
  value : (s : JsString) → 3 * length s + 1 ≤ f → read_value (suc f) s ≡ read_value f s
  items :
      (more : Bool) (s : JsString)
      → 3 * length s + 3 ≤ f
      → read_items (suc f) more s ≡ read_items f more s
  item : (s : JsString) → 3 * length s + 2 ≤ f → read_item (suc f) s ≡ read_item f s
  members :
      (more : Bool) (s : JsString)
      → 3 * length s + 3 ≤ f
      → read_members (suc f) more s ≡ read_members f more s
  member_ : (s : JsString) → 3 * length s + 2 ≤ f → read_member (suc f) s ≡ read_member f s

value-Stable :
    (f : ℕ) (s : JsString) (start : Start)
    → Stable f
    → start_of (skip_space s) ≡ start
    → 3 * length s + 1 ≤ suc f
    → read_value (suc (suc f)) s ≡ read_value (suc f) s
unfolding read_value
value-Stable f s (simple r) ih e le = rw (e, read_value) refl
value-Stable f s (array_start rest) ih e le =
    rw (e, read_value)
      (ap (λ r. r >>= λ x. some (arr x.0, x.1))
        (ih.items false rest (omega (arith, Fits-start s e, length-skip_space s))))
value-Stable f s (object_start rest) ih e le =
    rw (e, read_value)
      (ap (λ r. r >>= λ x. some (obj x.0, x.1))
        (ih.members false rest (omega (arith, Fits-start s e, length-skip_space s))))

items-Stable :
    (f : ℕ) (more : Bool) (s : JsString) (m : Mark)
    → Stable f
    → mark b']' (skip_space s) ≡ m
    → 3 * length s + 3 ≤ suc f
    → read_items (suc (suc f)) more s ≡ read_items (suc f) more s
unfolding read_value
items-Stable f false s (closed rest) ih e le = rw (e, read_items) refl
items-Stable f false s (comma rest) ih e le = rw (e, read_items) (ih.item s (omega arith))
items-Stable f false s (no_mark rest) ih e le = rw (e, read_items) (ih.item s (omega arith))
items-Stable f true s (closed rest) ih e le = rw (e, read_items) refl
items-Stable f true s (comma rest) ih e le =
    rw (e, read_items) (ih.item rest (omega (arith, Fits-mark b']' s e, length-skip_space s)))
items-Stable f true s (no_mark rest) ih e le = rw (e, read_items) refl

members-Stable :
    (f : ℕ) (more : Bool) (s : JsString) (m : Mark)
    → Stable f
    → mark b'}' (skip_space s) ≡ m
    → 3 * length s + 3 ≤ suc f
    → read_members (suc (suc f)) more s ≡ read_members (suc f) more s
unfolding read_value
members-Stable f false s (closed rest) ih e le = rw (e, read_members) refl
members-Stable f false s (comma rest) ih e le = rw (e, read_members) (ih.member_ s (omega arith))
members-Stable f false s (no_mark rest) ih e le = rw (e, read_members) (ih.member_ s (omega arith))
members-Stable f true s (closed rest) ih e le = rw (e, read_members) refl
members-Stable f true s (comma rest) ih e le =
    rw (e, read_members) (ih.member_ rest (omega (arith, Fits-mark b'}' s e, length-skip_space s)))
members-Stable f true s (no_mark rest) ih e le = rw (e, read_members) refl

item-Stable :
    (f : ℕ) (s : JsString)
    → Stable f
    → 3 * length s + 2 ≤ suc f
    → read_item (suc (suc f)) s ≡ read_item (suc f) s
unfolding read_value
item-Stable f s ih le =
    ap (λ r. r >>= λ x. (read_items (suc f) true x.1 >>= λ xs. some (cons x.0 xs.0, xs.1)))
      (ih.value s (omega arith))
    ∙ bind-same (read_value f s) _ _ ((consumes f).value s) (λ v left lt.
      ap (λ r. r >>= λ xs. some (cons v xs.0, xs.1)) (ih.items true left (omega arith)))

member-Stable :
    (f : ℕ) (s : JsString)
    → Stable f
    → 3 * length s + 2 ≤ suc f
    → read_member (suc (suc f)) s ≡ read_member (suc f) s
unfolding read_value
member-Stable f s ih le =
    bind-same (read_name (skip_space s)) _ _
      (After-weaken _ (length-skip_space s) (read_name-After (skip_space s)))
      (λ name left lt.
        ap
          (λ r.
            r >>= λ x. (read_members (suc f) true x.1 >>= λ xs. some (member name x.0 xs.0, xs.1)))
          (ih.value left (omega arith))
        ∙ bind-same (read_value f left) _ _ ((consumes f).value left) (λ v left' lt'.
          ap (λ r. r >>= λ xs. some (member name v xs.0, xs.1))
            (ih.members true left' (omega arith))))

stable : (f : ℕ) → Stable f
stable zero = record {
  value = λ s le. absurd (omega arith);
  items = λ more s le. absurd (omega arith);
  item = λ s le. absurd (omega arith);
  members = λ more s le. absurd (omega arith);
  member_ = λ s le. absurd (omega arith);
}
stable (suc f) =
    let ih = stable f in
    record {
      value = λ s le. value-Stable f s (start_of (skip_space s)) ih refl le;
      items = λ more s le. items-Stable f more s (mark b']' (skip_space s)) ih refl le;
      item = λ s le. item-Stable f s ih le;
      members = λ more s le. members-Stable f more s (mark b'}' (skip_space s)) ih refl le;
      member_ = λ s le. member-Stable f s ih le;
    }

-- With more fuel than `JSON.parse` is given it returns the same.
pub json_parse-enough :
    (s : JsString) (extra : ℕ) → end_of_text (read_value (extra + fuel_for s) s) ≡ json_parse s
unfolding json_parse
json_parse-enough s zero = ap (λ f. end_of_text (read_value f s)) (omega arith)
json_parse-enough s (suc extra) =
    let sum : suc extra + fuel_for s ≡ suc (extra + fuel_for s) = omega arith in
    ap (λ f. end_of_text (read_value f s)) sum
    ∙ ap end_of_text ((stable (extra + fuel_for s)).value s (omega arith))
    ∙ json_parse-enough s extra

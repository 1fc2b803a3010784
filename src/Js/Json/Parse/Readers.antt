-- ===== src/Js/Json/Parse/Readers.antt =====
-- How much of the text the readers of values, items and members consume.
use fiware_monitoring.Base.{
  Bool, Option, arith, false, length, none, refl, some, suc, true, zero, ℕ, ◌<◌, ◌≡◌,
}
use fiware_monitoring.Js.Json.{arr, obj}
use fiware_monitoring.Js.Json.Parse.Consumes.{
  After, After-weaken, Fits, MarkFits, length-skip_space, mark-MarkFits, read_name-After,
  start_of-Fits,
}
use fiware_monitoring.Js.Text.{JsString}
use fiware_monitoring.Js.Json.Parse.{
  ◌>>=◌, Mark, Start, array_start, closed, comma, mark, no_mark, object_start, read_item,
  read_items, read_member, read_members, read_name, read_value, simple, skip_space, start_of,
}

bind-After {ℓ κ} :
    {A : Type ℓ} {B : Type κ} {n : ℕ} (r : Option (A × JsString))
    (next : A × JsString → Option (B × JsString))
    → After n r
    → ((a : A) (rest : JsString) → length rest < n → After n (next (a, rest)))
    → After n (r >>= next)
bind-After none next h k = tt
bind-After (some (a, rest)) next h k = k a rest h

pub Fits-start :
    (s : JsString) {start : Start}
    → start_of (skip_space s) ≡ start
    → Fits (length (skip_space s)) start
Fits-start s e = rw e at (start_of-Fits (skip_space s))

pub Fits-mark :
    (closing : ℕ) (s : JsString) {m : Mark}
    → mark closing (skip_space s) ≡ m
    → MarkFits (skip_space s) m
Fits-mark closing s e = rw e at (mark-MarkFits closing (skip_space s))

-- What the readers consume with the fuel `f`.
pub record Consumes (f : ℕ) : Type 0 where
  pub value : (s : JsString) → After (length s) (read_value f s)
  pub items : (more : Bool) (s : JsString) → After (length s) (read_items f more s)
  pub item : (s : JsString) → After (length s) (read_item f s)
  pub members : (more : Bool) (s : JsString) → After (length s) (read_members f more s)
  pub member_ : (s : JsString) → After (length s) (read_member f s)

value-After :
    (f : ℕ) (s : JsString) (start : Start)
    → Consumes f
    → start_of (skip_space s) ≡ start
    → After (length s) (read_value (suc f) s)
unfolding read_value
value-After f s (simple r) ih e =
    rw (e, After) (After-weaken r (length-skip_space s) (Fits-start s e))
value-After f s (array_start rest) ih e =
    rw (e, After)
      (bind-After (read_items f false rest) (λ r. some (arr r.0, r.1))
        (After-weaken _ (omega (arith, Fits-start s e, length-skip_space s)) (ih.items false rest))
        (λ a left lt. lt))
value-After f s (object_start rest) ih e =
    rw (e, After)
      (bind-After (read_members f false rest) (λ r. some (obj r.0, r.1))
        (After-weaken _ (omega (arith, Fits-start s e, length-skip_space s))
          (ih.members false rest))
        (λ a left lt. lt))

items-After :
    (f : ℕ) (more : Bool) (s : JsString) (m : Mark)
    → Consumes f
    → mark b']' (skip_space s) ≡ m
    → After (length s) (read_items (suc f) more s)
unfolding read_value
items-After f false s (closed rest) ih e =
    rw (e, After) (omega (arith, Fits-mark b']' s e, length-skip_space s))
items-After f false s (comma rest) ih e = rw (e, After) (ih.item s)
items-After f false s (no_mark rest) ih e = rw (e, After) (ih.item s)
items-After f true s (closed rest) ih e =
    rw (e, After) (omega (arith, Fits-mark b']' s e, length-skip_space s))
items-After f true s (comma rest) ih e =
    rw (e, After)
      (After-weaken _ (omega (arith, Fits-mark b']' s e, length-skip_space s)) (ih.item rest))
items-After f true s (no_mark rest) ih e = rw (e, After) tt

members-After :
    (f : ℕ) (more : Bool) (s : JsString) (m : Mark)
    → Consumes f
    → mark b'}' (skip_space s) ≡ m
    → After (length s) (read_members (suc f) more s)
unfolding read_value
members-After f false s (closed rest) ih e =
    rw (e, After) (omega (arith, Fits-mark b'}' s e, length-skip_space s))
members-After f false s (comma rest) ih e = rw (e, After) (ih.member_ s)
members-After f false s (no_mark rest) ih e = rw (e, After) (ih.member_ s)
members-After f true s (closed rest) ih e =
    rw (e, After) (omega (arith, Fits-mark b'}' s e, length-skip_space s))
members-After f true s (comma rest) ih e =
    rw (e, After)
      (After-weaken _ (omega (arith, Fits-mark b'}' s e, length-skip_space s)) (ih.member_ rest))
members-After f true s (no_mark rest) ih e = rw (e, After) tt

item-After : (f : ℕ) (s : JsString) → Consumes f → After (length s) (read_item (suc f) s)
unfolding read_value
item-After f s ih = bind-After (read_value f s) _ (ih.value s) (λ v left lt.
    bind-After (read_items f true left) _ (After-weaken _ (omega arith) (ih.items true left))
      (λ vs left' lt'. lt'))

member-After : (f : ℕ) (s : JsString) → Consumes f → After (length s) (read_member (suc f) s)
unfolding read_value
member-After f s ih =
    bind-After (read_name (skip_space s)) _
      (After-weaken _ (length-skip_space s) (read_name-After (skip_space s)))
      (λ name left lt.
        bind-After (read_value f left) _ (After-weaken _ (omega arith) (ih.value left))
          (λ v left' lt'.
            bind-After (read_members f true left') _
              (After-weaken _ (omega arith) (ih.members true left')) (λ vs l lt''. lt'')))

pub consumes : (f : ℕ) → Consumes f
consumes zero = record {
  value = λ s. unfold read_value in tt;
  items = λ more s. unfold read_value in tt;
  item = λ s. unfold read_value in tt;
  members = λ more s. unfold read_value in tt;
  member_ = λ s. unfold read_value in tt;
}
consumes (suc f) =
    let ih = consumes f in
    record {
      value = λ s. value-After f s (start_of (skip_space s)) ih refl;
      items = λ more s. items-After f more s (mark b']' (skip_space s)) ih refl;
      item = λ s. item-After f s ih;
      members = λ more s. members-After f more s (mark b'}' (skip_space s)) ih refl;
      member_ = λ s. member-After f s ih;
    }

-- ===== src/Js/Json/Parse/Values.antt =====
-- `JSON.parse` on the values that `JSON.stringify` writes, numbers left aside.
use fiware_monitoring.Base.{[], arith, false, refl, some, suc, true, zero, ℕ, ◌+◌, ◌∷◌, ◌≡◌, ◌≤◌}
use fiware_monitoring.Js.Json.{
  Items, Json, Members, arr, boolean, cons, end, first_item, first_member, member, more_items,
  more_members, nil, null, num, obj, quote_onto, str, stringify, stringify_onto,
}
use fiware_monitoring.Js.Json.Parse.{
  after_name, end_of_text, fuel_for, json_parse, mark, name_then, no_mark, read_item, read_items,
  read_member, read_members, read_name, read_value, skip_space,
}
use fiware_monitoring.Js.Json.Parse.Fuel.{
  ArePlain, HavePlain, IsPlain, need, need-pos, need-stringify_onto, need_items, need_items-pos,
  need_members, need_members-pos,
}
use fiware_monitoring.Js.Json.Parse.RoundTrip.{read_string-quote_onto}
use fiware_monitoring.Js.Number.{Numeral}
use fiware_monitoring.Js.Text.{JsString}

module _ (print : Numeral → JsString) where
  -- No value starts with the end of an array.
  mark-stringify_onto :
      (v : Json) (rest : JsString)
      → IsPlain v
      → mark b']' (skip_space (stringify_onto print v rest)) ≡ no_mark (stringify_onto print v rest)
  unfolding stringify_onto skip_space mark IsPlain
  mark-stringify_onto null rest h = refl
  mark-stringify_onto (boolean true) rest h = refl
  mark-stringify_onto (boolean false) rest h = refl
  mark-stringify_onto (num n) rest h = absurd h
  mark-stringify_onto (str s) rest h = refl
  mark-stringify_onto (arr items) rest h = refl
  mark-stringify_onto (obj members) rest h = refl

  read_name-quote_onto :
      (name rest : JsString) → read_name (b'"' ∷ quote_onto name (b':' ∷ rest)) ≡ some (name, rest)
  unfolding read_name
  read_name-quote_onto name rest =
      rw (read_string-quote_onto name (b':' ∷ rest))
        (unfold name_then skip_space after_name in refl)

  mutual
    unfolding read_value stringify_onto need IsPlain

    pub read_value-stringify_onto :
        (f : ℕ) (v : Json) (rest : JsString)
        → IsPlain v
        → need v ≤ f
        → read_value f (stringify_onto print v rest) ≡ some (v, rest)
    read_value-stringify_onto zero v rest h le = absurd (omega (arith, need-pos v h))
    read_value-stringify_onto (suc f) null rest h le = refl
    read_value-stringify_onto (suc f) (boolean true) rest h le = refl
    read_value-stringify_onto (suc f) (boolean false) rest h le = refl
    read_value-stringify_onto (suc f) (num n) rest h le = absurd h
    read_value-stringify_onto (suc f) (str s) rest h le = rw (read_string-quote_onto s rest) refl
    read_value-stringify_onto (suc f) (arr items) rest h le =
        rw (read_items-first_item f items rest h (omega arith)) refl
    read_value-stringify_onto (suc f) (obj members) rest h le =
        rw (read_members-first_member f members rest h (omega arith)) refl

    read_items-first_item :
        (f : ℕ) (items : Items) (rest : JsString)
        → ArePlain items
        → need_items items ≤ f
        → read_items f false (first_item print items rest) ≡ some (items, rest)
    read_items-first_item zero items rest h le = absurd (omega (arith, need_items-pos items))
    read_items-first_item (suc f) nil rest h le = refl
    read_items-first_item (suc f) (cons v items) rest h le =
        rw (mark-stringify_onto v (more_items print items rest) (h.0))
          (read_item-stringify_onto f v items rest h.0 h.1 (omega arith))

    read_item-stringify_onto :
        (f : ℕ) (v : Json) (items : Items) (rest : JsString)
        → IsPlain v
        → ArePlain items
        → suc (need v + need_items items) ≤ f
        → read_item f (stringify_onto print v (more_items print items rest))
          ≡ some (cons v items, rest)
    read_item-stringify_onto zero v items rest h hs le = absurd (omega arith)
    read_item-stringify_onto (suc f) v items rest h hs le =
        rw
          (
            read_value-stringify_onto f v (more_items print items rest) h (omega arith),
            read_items-more_items f items rest hs (omega arith),
          )
          refl

    read_items-more_items :
        (f : ℕ) (items : Items) (rest : JsString)
        → ArePlain items
        → need_items items ≤ f
        → read_items f true (more_items print items rest) ≡ some (items, rest)
    read_items-more_items zero items rest h le = absurd (omega (arith, need_items-pos items))
    read_items-more_items (suc f) nil rest h le = refl
    read_items-more_items (suc f) (cons v items) rest h le =
        read_item-stringify_onto f v items rest h.0 h.1 (omega arith)

    read_members-first_member :
        (f : ℕ) (members : Members) (rest : JsString)
        → HavePlain members
        → need_members members ≤ f
        → read_members f false (first_member print members rest) ≡ some (members, rest)
    read_members-first_member zero members rest h le =
        absurd (omega (arith, need_members-pos members))
    read_members-first_member (suc f) end rest h le = refl
    read_members-first_member (suc f) (member name v members) rest h le =
        read_member-stringify_onto f name v members rest h.0 h.1 (omega arith)

    read_member-stringify_onto :
        (f : ℕ) (name : JsString) (v : Json) (members : Members) (rest : JsString)
        → IsPlain v
        → HavePlain members
        → suc (need v + need_members members) ≤ f
        → read_member f (
            b'"'
            ∷ quote_onto name (b':' ∷ stringify_onto print v (more_members print members rest)))
          ≡ some (member name v members, rest)
    read_member-stringify_onto zero name v members rest h hs le = absurd (omega arith)
    read_member-stringify_onto (suc f) name v members rest h hs le =
        rw
          (
            read_name-quote_onto name (stringify_onto print v (more_members print members rest)),
            read_value-stringify_onto f v (more_members print members rest) h (omega arith),
            read_members-more_members f members rest hs (omega arith),
          )
          refl

    read_members-more_members :
        (f : ℕ) (members : Members) (rest : JsString)
        → HavePlain members
        → need_members members ≤ f
        → read_members f true (more_members print members rest) ≡ some (members, rest)
    read_members-more_members zero members rest h le =
        absurd (omega (arith, need_members-pos members))
    read_members-more_members (suc f) end rest h le = refl
    read_members-more_members (suc f) (member name v members) rest h le =
        read_member-stringify_onto f name v members rest h.0 h.1 (omega arith)

  -- What `JSON.stringify` writes of a value without numbers is read back as that value.
  pub json_parse-stringify : (v : Json) → IsPlain v → json_parse (stringify print v) ≡ some v
  unfolding json_parse stringify
  json_parse-stringify v h =
      rw
        (read_value-stringify_onto (fuel_for (stringify_onto print v [])) v [] h
          (omega (arith, need-stringify_onto print v [])))
        (unfold end_of_text in refl)

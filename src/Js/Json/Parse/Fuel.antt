-- ===== src/Js/Json/Parse/Fuel.antt =====
-- The fuel of `JSON.parse` and the length of what `JSON.stringify` writes.
use fiware_monitoring.Base.{
  [], arith, false, length, length-append, suc, true, ℕ, ◌*◌, ◌+◌, ◌∷◌, ◌≤◌,
}
use fiware_monitoring.Js.Json.{
  Items, Json, Members, arr, boolean, cons, end, first_item, first_member, member, more_items,
  more_members, nil, null, num, obj, quote_onto, quote_unit, str, stringify_onto,
}
use fiware_monitoring.Js.Number.{Numeral}
use fiware_monitoring.Js.Text.{JsString}

-- No numbers, whose text is not decided here.
unfoldable mutual
  pub IsPlain : Json → Type 0
  IsPlain null = Unit
  IsPlain (boolean b) = Unit
  IsPlain (num n) = ⊥
  IsPlain (str s) = Unit
  IsPlain (arr items) = ArePlain items
  IsPlain (obj members) = HavePlain members

  pub ArePlain : Items → Type 0
  ArePlain nil = Unit
  ArePlain (cons v items) = IsPlain v × ArePlain items

  pub HavePlain : Members → Type 0
  HavePlain end = Unit
  HavePlain (member name v members) = IsPlain v × HavePlain members

-- The fuel that is used up to read a value, its items or its members.
unfoldable mutual
  pub need : Json → ℕ
  need null = 1
  need (boolean b) = 1
  need (num n) = 0
  need (str s) = 1
  need (arr items) = suc (need_items items)
  need (obj members) = suc (need_members members)

  pub need_items : Items → ℕ
  need_items nil = 1
  need_items (cons v items) = 2 + (need v + need_items items)

  pub need_members : Members → ℕ
  need_members end = 1
  need_members (member name v members) = 2 + (need v + need_members members)

pub need-pos : (v : Json) → IsPlain v → 1 ≤ need v
unfolding need IsPlain
need-pos null h = omega arith
need-pos (boolean b) h = omega arith
need-pos (num n) h = absurd h
need-pos (str s) h = omega arith
need-pos (arr items) h = omega arith
need-pos (obj members) h = omega arith

pub need_items-pos : (items : Items) → 1 ≤ need_items items
unfolding need_items
need_items-pos nil = omega arith
need_items-pos (cons v items) = omega arith

pub need_members-pos : (members : Members) → 1 ≤ need_members members
unfolding need_members
need_members-pos end = omega arith
need_members-pos (member name v members) = omega arith

module _ (print : Numeral → JsString) where
  -- The text of a value is long enough for the fuel.
  quote_onto-length : (s rest : JsString) → suc (length rest) ≤ length (quote_onto s rest)
  unfolding quote_onto
  quote_onto-length [] rest = omega arith
  quote_onto-length (c ∷ s) rest =
      omega (arith, length-append (quote_unit c) (quote_onto s rest), quote_onto-length s rest)

  mutual
    unfolding stringify_onto need

    pub need-stringify_onto :
        (v : Json) (rest : JsString)
        → need v + 3 * length rest ≤ 3 * length (stringify_onto print v rest)
    need-stringify_onto null rest = omega arith
    need-stringify_onto (boolean true) rest = omega arith
    need-stringify_onto (boolean false) rest = omega arith
    need-stringify_onto (num n) rest = omega (arith, length-append (print n) rest)
    need-stringify_onto (str s) rest = omega (arith, quote_onto-length s rest)
    need-stringify_onto (arr items) rest = omega (arith, need-first_item items rest)
    need-stringify_onto (obj members) rest = omega (arith, need-first_member members rest)

    need-first_item :
        (items : Items) (rest : JsString)
        → need_items items + 3 * length rest ≤ 3 * length (first_item print items rest) + 2
    need-first_item nil rest = omega arith
    need-first_item (cons v items) rest =
        omega
          (arith, need-stringify_onto v (more_items print items rest), need-more_items items rest)

    need-more_items :
        (items : Items) (rest : JsString)
        → need_items items + 3 * length rest ≤ 3 * length (more_items print items rest)
    need-more_items nil rest = omega arith
    need-more_items (cons v items) rest =
        omega
          (arith, need-stringify_onto v (more_items print items rest), need-more_items items rest)

    need-first_member :
        (members : Members) (rest : JsString)
        → need_members members + 3 * length rest ≤ 3 * length (first_member print members rest) + 2
    need-first_member end rest = omega arith
    need-first_member (member name v members) rest = omega (
      arith,
      quote_onto-length name (b':' ∷ stringify_onto print v (more_members print members rest)),
      need-stringify_onto v (more_members print members rest),
      need-more_members members rest,
    )

    need-more_members :
        (members : Members) (rest : JsString)
        → need_members members + 3 * length rest ≤ 3 * length (more_members print members rest)
    need-more_members end rest = omega arith
    need-more_members (member name v members) rest = omega (
      arith,
      quote_onto-length name (b':' ∷ stringify_onto print v (more_members print members rest)),
      need-stringify_onto v (more_members print members rest),
      need-more_members members rest,
    )

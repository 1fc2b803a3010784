-- ===== src/Js/Integer.antt =====
-- `n.toString()` for a number that is a natural number.
use fiware_monitoring.Base.{[], if◌then◌else◌, ltb, suc, zero, ℕ, ◌%◌, ◌*◌, ◌+◌, ◌-◌, ◌/◌, ◌∷◌}
use fiware_monitoring.Js.Text.{JsString}

-- With fuel above `n`.
pub show_onto : ℕ → ℕ → JsString → JsString
show_onto zero n acc = acc
show_onto (suc f) n acc =
    let more = show_onto f (n / 10) ((b'0' + n % 10) ∷ acc) in
    if ltb n 10 then (b'0' + n) ∷ acc else more

unfoldable pub show_nat : ℕ → JsString
unfolding show_onto
show_nat n = show_onto (suc n) n []

-- The number that digits stand for, after those that stand for `acc`.
abbrev pub value_from : ℕ → JsString → ℕ
value_from acc [] = acc
value_from acc (c ∷ s) = value_from (acc * 10 + (c - b'0')) s

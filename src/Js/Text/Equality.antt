-- ===== src/Js/Text/Equality.antt =====
-- `===` and truthiness of strings.
use fiware_monitoring.Base.{true, ◌∷◌, ◌≡◌, ◌↔◌, refl, arith}
use fiware_monitoring.Js.Text.{JsString, equal}

pub equal_iff : (s t : JsString) → (equal s t ≡ true) ↔ (s ≡ t)
unfolding equal
equal_iff (x ∷ s) (y ∷ t) = ground (arith, equal_iff s t)
equal_iff _ _ = ground arith

pub equal_self : (s : JsString) → equal s s ≡ true
equal_self s = (equal_iff s s).1 refl

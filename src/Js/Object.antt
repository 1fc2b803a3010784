-- ===== src/Js/Object.antt =====
-- Objects used as dictionaries, in the order in which `for (name in object)` enumerates them, and
-- the values that the adapter stores in them.
pub mod Lookup
use fiware_monitoring.Base.{List, Option, [], if◌then◌else◌, none, some, ℕ, ◌∷◌}
use fiware_monitoring.Js.Number.{Numeral}
use fiware_monitoring.Js.Text.{JsString, equal}

-- `number` is a number that `parseFloat` returned, `integer` a timestamp, and `nullish` undefined or
-- null, as it is spelled.
pub data Value : Type 0 where
  number : Numeral → Value
  integer : ℕ → Value
  string : JsString → Value
  nullish : JsString → Value

module _ {ℓ} {V : Type ℓ} where
  -- `object[key]`
  unfoldable pub lookup : JsString → List (JsString × V) → Option V
  unfolding equal
  lookup key [] = none
  lookup key ((name, v) ∷ rest) = if equal name key then some v else lookup key rest

  -- `object[key] = v`: a member keeps its place, a new one comes last.
  unfoldable pub insert : JsString → V → List (JsString × V) → List (JsString × V)
  unfolding equal
  insert key v [] = (key, v) ∷ []
  insert key v ((name, w) ∷ rest) =
      if equal name key then (name, v) ∷ rest else (name, w) ∷ insert key v rest

abbrev pub Attrs : Type 0
Attrs = List (JsString × Value)

-- ===== src/Js/Object/Lookup.antt =====
-- The members of a dictionary after an assignment.
use fiware_monitoring.Base.{
  Bool-cases, List, [], arith, if◌then◌else◌, inl, inr, refl, some, ◌∙◌, ◌∷◌, ◌≡◌, ◌≢◌,
}
use fiware_monitoring.Js.Object.{insert, lookup}
use fiware_monitoring.Js.Text.{JsString, equal}
use fiware_monitoring.Js.Text.Equality.{equal_iff, equal_self}

module _ {ℓ} {V : Type ℓ} where
  pub lookup-insert :
      (key other : JsString) (v : V) (object : List (JsString × V))
      → lookup other (insert key v object)
        ≡ (if equal key other then some v else lookup other object)
  unfolding lookup insert
  lookup-insert key other v [] = refl
  lookup-insert key other v ((name, w) ∷ object) =
      let later = lookup-insert key other v object in
      ground (equal_iff key other, equal_iff name key, equal_iff name other, later, arith)

  pub lookup-insert_self :
      (k : JsString) (v : V) (m : List (JsString × V)) → lookup k (insert k v m) ≡ some v
  lookup-insert_self k v m = lookup-insert k k v m ∙ rw (equal_self k) refl

  pub lookup-insert_ne :
      (k j : JsString) (v : V) (m : List (JsString × V))
      → k ≢ j
      → lookup j (insert k v m) ≡ lookup j m
  lookup-insert_ne k j v m ne = lookup-insert k j v m ∙ elim (Bool-cases (equal k j)) [
    | inl e ↦ absurd (ne ((equal_iff k j).0 e))
    | inr e ↦ rw e refl
  ]

-- ===== src/Js/Format/Plain.antt =====
-- Format strings without placeholders.
use fiware_monitoring.Base.{
  Bool-cases, List, [], ap, append-nil, arith, false, inl, inr, refl, sym, ◌++◌, ◌==◌, ◌∙◌, ◌∷◌,
  ◌≡◌,
}
use fiware_monitoring.Js.Format.{Argument, append_args, fill, scan_char}
use fiware_monitoring.Js.Text.{JsString}
use fiware_monitoring.Js.Text.Split.{Free}

module _ (number_of : JsString → JsString) where
  -- A text without a percent sign stands as it is before what follows.
  pub fill-append :
      (s t : JsString) (args : List Argument)
      → Free b'%' s
      → fill number_of false (s ++ t) args ≡ s ++ fill number_of false t args
  unfolding fill scan_char
  fill-append [] t args h = refl
  fill-append (c ∷ s) t args (ne, h) = elim (Bool-cases (c == b'%')) [
    | inl e ↦ absurd (ground arith)
    | inr e ↦ rw e (ap (◌∷◌ c) (fill-append s t args h))
  ]

  pub fill-Free : (s : JsString) → Free b'%' s → fill number_of false s [] ≡ s
  fill-Free s h =
      ap (λ t. fill number_of false t []) (sym (append-nil s))
      ∙ fill-append s [] [] h
      ∙ unfold fill append_args in append-nil s

-- ===== src/Js/Text/Trim.antt =====
-- `trim` and the white space at the ends.
use fiware_monitoring.Base.{
  ℕ, true, false, [], ◌∷◌, ◌++◌, ◌≡◌, refl, sym, ap, ◌∙◌, reverse, Bool-cases, inl, inr, All,
  reverse-append, reverse-cons, reverse-reverse, append_assoc, append-nil, ◌↔◌,
}
use fiware_monitoring.Js.Text.{JsString, is_space, trim_start, trim_end, trim}

-- Only white space.
abbrev pub IsBlank : JsString → Type 0
IsBlank = All (λ c. is_space c ≡ true)

-- No white space at the left end.
abbrev pub StartsSolid : JsString → Type 0
StartsSolid [] = Unit
StartsSolid (c ∷ s) = is_space c ≡ false

pub trim_start-blank : (b s : JsString) → IsBlank b → trim_start (b ++ s) ≡ trim_start s
unfolding trim_start
trim_start-blank [] s h = refl
trim_start-blank (c ∷ b) s (p, h) = rw p (trim_start-blank b s h)

pub trim_start-StartsSolid : (s : JsString) → StartsSolid s → trim_start s ≡ s
unfolding trim_start
trim_start-StartsSolid [] h = refl
trim_start-StartsSolid (c ∷ s) h = rw h refl

pub StartsSolid-trim_start : (s : JsString) → StartsSolid (trim_start s)
unfolding trim_start
StartsSolid-trim_start [] = tt
StartsSolid-trim_start (c ∷ s) = elim (Bool-cases (is_space c)) [
  | inl e ↦ rw e (StartsSolid-trim_start s)
  | inr e ↦ rw e e
]

pub trim_start-append :
    (s t : JsString) (c : ℕ)
    → is_space c ≡ false
    → trim_start (s ++ (c ∷ t)) ≡ trim_start (s ++ (c ∷ [])) ++ t
unfolding trim_start
trim_start-append [] t c h = rw h refl
trim_start-append (x ∷ s) t c h = elim (Bool-cases (is_space x)) [
  | inl e ↦ rw e (trim_start-append s t c h)
  | inr e ↦ rw e (ap (◌∷◌ x) (sym (rw append_assoc' refl)))
]
  where
    append_assoc' : (s ++ (c ∷ [])) ++ t ≡ s ++ (c ∷ t)
    append_assoc' = append_assoc s (c ∷ []) t

trim_start-snoc :
    (s : JsString) (c : ℕ)
    → is_space c ≡ false
    → trim_start (s ++ (c ∷ [])) ≡ trim_start s ++ (c ∷ [])
unfolding trim_start
trim_start-snoc [] c h = rw h refl
trim_start-snoc (x ∷ s) c h = elim (Bool-cases (is_space x)) [
  | inl e ↦ rw e (trim_start-snoc s c h)
  | inr e ↦ rw e refl
]

-- `trim` cuts nothing to the left of the last solid character.
pub trim_end-solid :
    (s t : JsString) (c : ℕ) → is_space c ≡ false → trim_end (s ++ (c ∷ t)) ≡ s ++ (c ∷ trim_end t)
unfolding trim_end
trim_end-solid s t c h = simp (
  reverse-append,
  reverse-cons,
  append_assoc,
  trim_start-append (reverse t) (reverse s) c h,
  trim_start-snoc (reverse t) c h,
  reverse-reverse,
)

trim_start-suffix : (s : JsString) → (b : JsString) × (s ≡ b ++ trim_start s)
unfolding trim_start
trim_start-suffix [] = ([], refl)
trim_start-suffix (c ∷ s) = elim (Bool-cases (is_space c)) [
  | inl e ↦ let (b, h) = trim_start-suffix s in (c ∷ b, rw e (ap (◌∷◌ c) h))
  | inr e ↦ ([], rw e refl)
]

-- What `trim_end` returns is a prefix.
pub trim_end-prefix : (s : JsString) → (b : JsString) × (s ≡ trim_end s ++ b)
unfolding trim_end
trim_end-prefix s =
    let (b, h) = trim_start-suffix (reverse s) in
    (reverse b, sym (reverse-reverse s) ∙ ap reverse h ∙ reverse-append b _)

IsBlank-of_trim_start : (s : JsString) → trim_start s ≡ [] → IsBlank s
unfolding trim_start
IsBlank-of_trim_start [] h = tt
IsBlank-of_trim_start (c ∷ s) h = elim (Bool-cases (is_space c)) [
  | inl e ↦ (e, IsBlank-of_trim_start s (rw e at h))
  | inr e ↦ absurd (cc (rw e at h))
]

trim_end-nil : (s : JsString) → StartsSolid s → trim_end s ≡ [] → s ≡ []
trim_end-nil [] p h = refl
trim_end-nil (c ∷ s) p h = absurd (cc (trim_end-solid [] s c p, h))

-- A string is trimmed to nothing exactly when it is blank.
pub trim-nil_iff : (s : JsString) → (trim s ≡ []) ↔ IsBlank s
unfolding trim
trim-nil_iff s = (
  λ h. IsBlank-of_trim_start s (trim_end-nil (trim_start s) (StartsSolid-trim_start s) h),
  λ h. ap trim_end (ap trim_start (sym (append-nil s)) ∙ trim_start-blank s [] h) ∙ trim_end_nil,
)
  where
    trim_end_nil : trim_end (trim_start []) ≡ []
    trim_end_nil = unfold trim_start trim_end in refl

-- ===== src/Js/Text/Utf8.antt =====
-- The number of bytes of a string in UTF-8.
use fiware_monitoring.Base.{
  All, Bool, [], arith, false, if◌then◌else◌, leb, length, ltb, refl, true, ℕ, ◌&&◌, ◌+◌, ◌<◌, ◌↔◌,
  ◌∷◌, ◌≡◌, ◌≤◌, ap, suc, ◌∙◌, Bool-cases, inl, inr,
}
use fiware_monitoring.Js.Text.{JsString}

abbrev pub is_high : ℕ → Bool
is_high c = leb 55296 c && ltb c 56320

abbrev pub is_low : ℕ → Bool
is_low c = leb 56320 c && ltb c 57344

-- The bytes of a code unit that is no half of a pair; a lone surrogate becomes U+FFFD.
pub unit_size : ℕ → ℕ
unit_size c = if ltb c 128 then 1 else if ltb c 2048 then 2 else 3

-- A pair of surrogates has four bytes, of which one is counted for its second half.
pub utf8_from : Bool → JsString → ℕ
unfolding unit_size
utf8_from after_high [] = 0
utf8_from after_high (c ∷ s) =
    (if after_high && is_low c then 1 else unit_size c) + utf8_from (is_high c) s

-- `Buffer.byteLength(s)`
unfoldable pub utf8_length : JsString → ℕ
unfolding utf8_from
utf8_length s = utf8_from false s

unit_size-pos : (c : ℕ) → 1 ≤ unit_size c
unfolding unit_size
unit_size-pos c = ground arith

length-utf8_from : (after_high : Bool) (s : JsString) → length s ≤ utf8_from after_high s
unfolding utf8_from
length-utf8_from after_high [] = omega arith
length-utf8_from true (c ∷ s) = ground (arith, unit_size-pos c, length-utf8_from (is_high c) s)
length-utf8_from false (c ∷ s) = ground (arith, unit_size-pos c, length-utf8_from (is_high c) s)

abbrev pub IsAscii : JsString → Type 0
IsAscii = All (λ c. c < 128)

unit_size-ascii : (c : ℕ) → c < 128 → (unit_size c ≡ 1) × (is_high c ≡ false)
unfolding unit_size
unit_size-ascii c h = (ground arith, ground arith)

unit_size-large : (c : ℕ) → 128 ≤ c → 2 ≤ unit_size c
unfolding unit_size
unit_size-large c h = ground arith

utf8_from-ascii :
    (c : ℕ) (s : JsString) → c < 128 → utf8_from false (c ∷ s) ≡ suc (utf8_from false s)
unfolding utf8_from
utf8_from-ascii c s h =
    let (one_byte, no_high) = unit_size-ascii c h in rw (one_byte, no_high) (omega arith)

utf8_from-large : (c : ℕ) (s : JsString) → 128 ≤ c → suc (length s) < utf8_from false (c ∷ s)
unfolding utf8_from
utf8_from-large c s h = omega (arith, unit_size-large c h, length-utf8_from (is_high c) s)

utf8_from-IsAscii : (s : JsString) → (utf8_from false s ≡ length s) ↔ IsAscii s
utf8_from-IsAscii [] = (λ e. tt, λ h. unfold utf8_from in refl)
utf8_from-IsAscii (c ∷ s) = elim (Bool-cases (ltb c 128)) [
  | inl e ↦
      let h : c < 128 = ground arith in
      let ih = utf8_from-IsAscii s in
      (
        λ same. (h, ih.0 (omega (arith, utf8_from-ascii c s h))),
        λ ascii. utf8_from-ascii c s h ∙ ap suc (ih.1 ascii.1),
      )
  | inr e ↦
      let h : 128 ≤ c = ground arith in
      (
        λ same. absurd (omega (arith, utf8_from-large c s h)),
        λ ascii. absurd (omega (arith, ascii.0)),
      )
]

-- It is the number of code units exactly for ASCII.
pub utf8_length-IsAscii : (s : JsString) → (utf8_length s ≡ length s) ↔ IsAscii s
unfolding utf8_length
utf8_length-IsAscii s = utf8_from-IsAscii s

pub length-utf8_length : (s : JsString) → length s ≤ utf8_length s
unfolding utf8_length
length-utf8_length s = length-utf8_from false s

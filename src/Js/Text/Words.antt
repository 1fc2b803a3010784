-- ===== src/Js/Text/Words.antt =====
-- The first word of a trimmed string.
use fiware_monitoring.Base.{All, [], ap, false, refl, true, ◌++◌, ◌∙◌, ◌∷◌, ◌≡◌, ◌≢◌, append-nil}
use fiware_monitoring.Js.Text.{JsString, first, is_space, split, trim, trim_end}
use fiware_monitoring.Js.Text.Split.{Free, split-Free, split-append}
use fiware_monitoring.Js.Text.Trim.{
  IsBlank, trim_end-solid, trim_end-prefix, trim_start-StartsSolid, trim_start-blank,
}

-- No white space at all.
abbrev pub IsSolid : JsString → Type 0
IsSolid = All (λ c. is_space c ≡ false)

trim_end-append : (w t : JsString) → IsSolid w → trim_end (w ++ t) ≡ w ++ trim_end t
trim_end-append [] t h = refl
trim_end-append (c ∷ w) t (p, h) =
    trim_end-solid [] (w ++ t) c p ∙ ap (◌∷◌ c) (trim_end-append w t h)

space : is_space b' ' ≡ true
unfolding is_space
space = refl

IsSolid-Free : (w : JsString) → IsSolid w → Free b' ' w
IsSolid-Free [] h = tt
IsSolid-Free (c ∷ w) (p, h) = ((λ e. cc (ap is_space e, space)), IsSolid-Free w h)

-- The word before a space is the first one, also where the rest is cut short.
first-split-word :
    (w t u v : JsString) → Free b' ' w → (b' ' ∷ t) ≡ u ++ v → first (split b' ' (w ++ u)) ≡ w
first-split-word w t [] v h e = rw (append-nil w, split-Free b' ' w h) refl
first-split-word w t (x ∷ u) v h e =
    let at_space : x ≡ b' ' = cc in rw (at_space, split-append b' ' w u h) refl

pub first-split-trim :
    (b w t : JsString)
    → IsBlank b
    → IsSolid w
    → w ≢ []
    → first (split b' ' (trim (b ++ (w ++ (b' ' ∷ t))))) ≡ w
unfolding trim
first-split-trim b [] t hb hw ne = absurd (ne refl)
first-split-trim b (c ∷ w) t hb hw ne =
    let (v, e) = trim_end-prefix (b' ' ∷ t) in
    rw
      (
        trim_start-blank b ((c ∷ w) ++ (b' ' ∷ t)) hb,
        trim_start-StartsSolid (c ∷ (w ++ (b' ' ∷ t))) hw.0,
        trim_end-append (c ∷ w) (b' ' ∷ t) hw,
      )
      (first-split-word (c ∷ w) t (trim_end (b' ' ∷ t)) v (IsSolid-Free (c ∷ w) hw) e)

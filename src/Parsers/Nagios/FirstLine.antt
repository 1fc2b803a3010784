-- ===== src/Parsers/Nagios/FirstLine.antt =====
-- The first line of the text in the entity data, which the probes' parsers read.
use fiware_monitoring.Base.{All, List, Option, [], ap, ok, refl, some, sym, ℕ, ◌++◌, ◌∙◌, ◌∷◌, ◌≡◌}
use fiware_monitoring.Domain.{text}
use fiware_monitoring.Js.Text.{JsString, first, join, split}
use fiware_monitoring.Js.Text.Split.{
  All-Free-split, Free, Free-append_left, split-Free, split-append, split-cons, split-step_ne,
}
use fiware_monitoring.Parsers.Nagios.{EntityData, parse_body}
use fiware_monitoring.Parsers.Nagios.Format.{IsLine, IsProbeOutput, bare, barred, compound, output}
use fiware_monitoring.Parsers.Nagios.Refines.{parse_body-IsProbeOutput}

pub split-append_first :
    (c : ℕ) (s t : JsString) → Free c s → first (split c (s ++ t)) ≡ s ++ first (split c t)
split-append_first c [] t h = refl
split-append_first c (x ∷ s) t (p, h) =
    let (q, qs, e) = split-cons c (s ++ t) in
    ap first (split-step_ne c x (s ++ t) p)
    ∙ rw e (ap (◌∷◌ x) (sym (ap first e) ∙ split-append_first c s t h))

first-split-join :
    (c : ℕ) (d : JsString) (ts : List JsString)
    → Free c d
    → first (split c (join (c ∷ []) (d ∷ ts))) ≡ d
unfolding join
first-split-join c d [] h = rw (split-Free c d h) refl
first-split-join c d (t ∷ ts) h = rw (split-append c d _ h) refl

-- The text of a readable line is what stands before its first bar.
IsLine-first :
    {item d : JsString} {p : Option JsString} → IsLine item d p → first (split b'|' item) ≡ d
IsLine-first (bare d f ne) = rw (split-Free b'|' d f) refl
IsLine-first (barred d item f ne e) = rw (e, split-append b'|' d [] f) refl
IsLine-first (compound d p item f ne g np e) = rw (e, split-append b'|' d p f) refl

IsLine-Free :
    {item d : JsString} {p : Option JsString} (c : ℕ) → IsLine item d p → Free c item → Free c d
IsLine-Free c (bare d f ne) h = h
IsLine-Free c (barred d item f ne e) h = Free-append_left c d _ (rw e at h)
IsLine-Free c (compound d p item f ne g np e) h = Free-append_left c d _ (rw e at h)

IsProbeOutput-first_line :
    (items : List JsString) (e : EntityData)
    → All (Free b'\n') items
    → IsProbeOutput items e
    → (t : JsString) × (e.text_data ≡ some t)
      × (first (split b'\n' t) ≡ first (split b'|' (first items)))
IsProbeOutput-first_line _ e h (output {d} {ts} l ls eq) = (
  join (b'\n' ∷ []) (d ∷ ts),
  ap (λ (x : EntityData). x.text_data) eq,
  first-split-join b'\n' d ts (IsLine-Free b'\n' l h.0) ∙ sym (IsLine-first l),
)

-- When a body is accepted, the first line of the text that is kept is what stands before the bar in
-- the first line of the body.
pub parse_body-first_line :
    (s : JsString) (e : EntityData)
    → parse_body (text s) ≡ ok e
    → (t : JsString) × (e.text_data ≡ some t)
      × (first (split b'\n' t) ≡ first (split b'|' (first (split b'\n' s))))
parse_body-first_line s e h =
    IsProbeOutput-first_line (split b'\n' s) e (All-Free-split b'\n' s)
      ((parse_body-IsProbeOutput s e).0 h)

-- ===== src/Parsers/Nagios/Refines.antt =====
-- `parseRequest` of ngsi_adapter/lib/parsers/common/nagios.js against the documented format.
use fiware_monitoring.Js.Text.Split.{split-cons}
use fiware_monitoring.Domain.{text}
use fiware_monitoring.Base.{
  List, Option, [], none, ok, refl, some, ◌++◌, ◌∷◌, ◌≡◌, ◌≢◌, ap, ◌>>=◌, ◌↔◌, ◌∙◌, >>=-eq-ok, sym,
  append-ne,
}
use fiware_monitoring.Js.Text.{JsString, split, join}
use fiware_monitoring.Parsers.Nagios.{Scan, scan_lines, EntityData, parse_body, empty_scan}
use fiware_monitoring.Parsers.Nagios.Format.{
  IsLine, PlainLines, and_line, no_line, IsProbeOutput, LongLines, multi, stop, more_text, output,
  perf_lines,
}
use fiware_monitoring.Parsers.Nagios.Lines.{
  IsLine-ne, IsLine-perf_ne, accept-multiline-none, accept-multiline-some, add_lines, multiline,
  scan_line-IsLine, accept, accept-no_perf, accept-reading-none, accept-reading-some, line_view,
  reading, malformed, unbarred, with_perf, IsLine-ne_some_nil, accept-first, add_lines-join,
}

-- The loop in the multi-line performance data.
scan_lines-PlainLines :
    {items ds : List JsString} (t perf : JsString)
    → t ≢ []
    → PlainLines items ds
    → scan_lines (multiline t perf) items ≡ ok (multiline t (add_lines perf ds))
unfolding scan_lines
scan_lines-PlainLines t perf ht no_line = refl
scan_lines-PlainLines t perf ht (and_line {item} {d} l ls) =
    rw (scan_line-IsLine (multiline t perf) l, accept-multiline-none t perf d ht (IsLine-ne l))
      (scan_lines-PlainLines t (perf ++ (b'\n' ∷ d)) ht ls)

scan_lines-multiline :
    (items : List JsString) (t perf : JsString) {s : Scan}
    → t ≢ []
    → scan_lines (multiline t perf) items ≡ ok s
    → (ds : List JsString) × PlainLines items ds
unfolding scan_lines
scan_lines-multiline [] t perf ht e = ([], no_line)
scan_lines-multiline (item ∷ items) t perf {s} ht e = elim (line_view item) [
  | malformed bad ↦ absurd (cc (rw (bad (multiline t perf)) at e))
  | with_perf d p l ↦ absurd (
      cc (
        rw
          (
            scan_line-IsLine (multiline t perf) l,
            accept-multiline-some t perf d p ht (IsLine-ne l) (IsLine-perf_ne l),
          )
          at e))
  | unbarred d l ↦
      let e' : scan_lines (multiline t (perf ++ (b'\n' ∷ d))) items ≡ ok s =
        rw (scan_line-IsLine (multiline t perf) l, accept-multiline-none t perf d ht (IsLine-ne l))
          at e in
      let (ds, ls) = scan_lines-multiline items t (perf ++ (b'\n' ∷ d)) ht e' in
      (d ∷ ds, and_line l ls)
]

-- The members at the end of the loop.
abbrev final : JsString → Option JsString → List JsString → List JsString → EntityData
final t none ts ps = record { text_data = some (add_lines t ts); perf_data = none }
final t (some p) ts ps = record {
  text_data = some (add_lines t ts);
  perf_data = some (add_lines p ps);
}

final-step :
    (t d : JsString) (perf : Option JsString) (ts ps : List JsString)
    → final (t ++ (b'\n' ∷ d)) perf ts ps ≡ final t perf (d ∷ ts) ps
final-step t d none ts ps = refl
final-step t d (some p) ts ps = refl

-- The loop after the first line accepts the lines that follow the format.
scan_lines-LongLines :
    (perf : Option JsString) (t : JsString) {items ts ps : List JsString}
    → t ≢ []
    → perf ≢ some []
    → LongLines perf items ts ps
    → (s : Scan) × (scan_lines (reading t perf) items ≡ ok s) × (s.entity_data ≡ final t perf ts ps)
unfolding scan_lines
scan_lines-LongLines none t ht hp stop = (reading t none, refl, refl)
scan_lines-LongLines (some p) t ht hp stop = (reading t (some p), refl, refl)
scan_lines-LongLines perf t ht hp (more_text {item} {d} {ts = us} {ps = qs} l ls) =
    let (s, run, e) = scan_lines-LongLines perf (t ++ (b'\n' ∷ d)) (append-ne t _ ht) hp ls in
    (
      s,
      rw (scan_line-IsLine (reading t perf) l, accept-reading-none t d perf ht (IsLine-ne l)) run,
      e ∙ final-step t d perf us qs,
    )
scan_lines-LongLines none t ht hp (multi some_perf l ls) = absurd (some_perf refl)
scan_lines-LongLines (some perf) t ht hp
      (multi {item} {d} {p} {items = rest} {ps = qs} some_perf l ls) =
    let t' : JsString = t ++ (b'\n' ∷ d) in
    let perf' : JsString = perf ++ (b'\n' ∷ p) in
    (
      multiline t' (add_lines perf' qs),
      rw
          (
            scan_line-IsLine (reading t (some perf)) l,
            accept-reading-some t perf d p ht (λ e. hp (ap some e)) (IsLine-ne l)
                (IsLine-perf_ne l),
          )
          (scan_lines-PlainLines t' perf' (append-ne t _ ht) ls),
      refl,
    )

-- A line with performance data after the first starts the multi-line performance data.
scan_lines-compound :
    (items : List JsString) (t : JsString) (perf : Option JsString) {item d p : JsString} {s : Scan}
    → t ≢ []
    → perf ≢ some []
    → IsLine item d (some p)
    → (accept (reading t perf) d (some p) >>= λ u. scan_lines u items) ≡ ok s
    → (ts : List JsString) × (ps : List JsString) × LongLines perf (item ∷ items) ts ps
scan_lines-compound items t none {d} {p} ht hp l e =
    absurd (cc (rw (accept-no_perf t d p ht (IsLine-ne l) (IsLine-perf_ne l)) at e))
scan_lines-compound items t (some perf) {d} {p} {s} ht hp l e =
    let e' : scan_lines (multiline (t ++ (b'\n' ∷ d)) (perf ++ (b'\n' ∷ p))) items ≡ ok s =
      rw (accept-reading-some t perf d p ht (λ q. hp (ap some q)) (IsLine-ne l) (IsLine-perf_ne l))
        at e in
    let (ds, ls) = scan_lines-multiline items _ _ (append-ne t _ ht) e' in
    (d ∷ [], p ∷ ds, multi (cc) l ls)

-- What the loop after the first line has read follows the format.
scan_lines-reading :
    (items : List JsString) (t : JsString) (perf : Option JsString) {s : Scan}
    → t ≢ []
    → perf ≢ some []
    → scan_lines (reading t perf) items ≡ ok s
    → (ts : List JsString) × (ps : List JsString) × LongLines perf items ts ps
unfolding scan_lines
scan_lines-reading [] t perf ht hp e = ([], [], stop)
scan_lines-reading (item ∷ items) t perf {s} ht hp e = elim (line_view item) [
  | malformed bad ↦ absurd (cc (rw (bad (reading t perf)) at e))
  | unbarred d l ↦
      let e' : scan_lines (reading (t ++ (b'\n' ∷ d)) perf) items ≡ ok s =
        rw (scan_line-IsLine (reading t perf) l, accept-reading-none t d perf ht (IsLine-ne l)) at
          e in
      let (ts, ps, ls) =
        scan_lines-reading items (t ++ (b'\n' ∷ d)) perf (append-ne t _ ht) hp e' in
      (d ∷ ts, ps, more_text l ls)
  | with_perf d p l ↦
      scan_lines-compound items t perf ht hp l (rw (scan_line-IsLine (reading t perf) l) at e)
]

final-perf_lines :
    (d : JsString) (perf : Option JsString) (ts ps : List JsString)
    → final d perf ts ps
      ≡ record { text_data = some (join (b'\n' ∷ []) (d ∷ ts)); perf_data = perf_lines perf ps }
final-perf_lines d none ts ps = rw (add_lines-join d ts) refl
final-perf_lines d (some p) ts ps = rw (add_lines-join d ts, add_lines-join p ps) refl

-- The first line that the loop reads decides whether there is performance data at all.
scan_lines-first :
    {item d : JsString} {p : Option JsString} (items : List JsString)
    → IsLine item d p
    → scan_lines empty_scan (item ∷ items) ≡ scan_lines (reading d p) items
unfolding scan_lines
scan_lines-first {d} {p} items l =
    rw (scan_line-IsLine empty_scan l, accept-first d p (IsLine-ne l) (IsLine-ne_some_nil l)) refl

parse_body_complete :
    (items : List JsString) (e : EntityData)
    → IsProbeOutput items e
    → (scan_lines empty_scan items >>= λ scan. ok scan.entity_data) ≡ ok e
parse_body_complete _ e (output {item} {d} {perf} {items} {ts} {ps} l ls eq) =
    let (s, run, se) = scan_lines-LongLines perf d (IsLine-ne l) (IsLine-ne_some_nil l) ls in
    rw (scan_lines-first items l, run) (ap ok (se ∙ final-perf_lines d perf ts ps ∙ sym eq))

IsProbeOutput-run :
    {item d : JsString} {p : Option JsString} {items ts ps : List JsString} (e : EntityData)
    → IsLine item d p
    → LongLines p items ts ps
    → (scan_lines empty_scan (item ∷ items) >>= λ scan. ok scan.entity_data) ≡ ok e
    → IsProbeOutput (item ∷ items) e
IsProbeOutput-run e l ls h = output l ls (cc (h, parse_body_complete _ _ (output l ls refl)))

IsProbeOutput-first :
    {item d : JsString} {p : Option JsString} (items : List JsString) (e : EntityData)
    → IsLine item d p
    → (scan_lines empty_scan (item ∷ items) >>= λ scan. ok scan.entity_data) ≡ ok e
    → IsProbeOutput (item ∷ items) e
IsProbeOutput-first {d} {p} items e l h =
    let read =
      >>=-eq-ok (scan_lines (reading d p) items) (λ scan. ok scan.entity_data)
        (rw (scan_lines-first items l) at h) in
    let (ts, ps, ls) = scan_lines-reading items d p (IsLine-ne l) (IsLine-ne_some_nil l) read.1 in
    IsProbeOutput-run e l ls h

parse_body_sound :
    (items : List JsString) (e : EntityData)
    → items ≢ []
    → (scan_lines empty_scan items >>= λ scan. ok scan.entity_data) ≡ ok e
    → IsProbeOutput items e
unfolding scan_lines
parse_body_sound [] e ne h = absurd (ne refl)
parse_body_sound (item ∷ items) e ne h = elim (line_view item) [
  | malformed bad ↦ absurd (cc (rw (bad empty_scan) at h))
  | unbarred d l ↦ IsProbeOutput-first items e l h
  | with_perf d p l ↦ IsProbeOutput-first items e l h
]

-- The Nagios parser returns entity data for a text body exactly when the lines of the body are the
-- output of a probe in the documented format, and the data are then the text and the performance
-- data of that output.
pub parse_body-IsProbeOutput :
    (s : JsString) (e : EntityData) → (parse_body (text s) ≡ ok e) ↔ IsProbeOutput (split b'\n' s) e
unfolding parse_body
parse_body-IsProbeOutput s e =
    let (p, ps, h) = split-cons b'\n' s in
    (λ r. parse_body_sound (split b'\n' s) e (rw h (cc)) r, parse_body_complete (split b'\n' s) e)

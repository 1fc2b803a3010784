-- ===== src/Parsers/Nagios/Format.antt =====
-- The output format of a Nagios probe as the comment of `parseRequest` draws it: lines of text,
-- where the first may carry performance data, a later one may start the multi-line performance
-- data if the first did, and what follows that one is performance data.
use fiware_monitoring.Base.{List, Option, [], none, some, ◌++◌, ◌∷◌, ◌≡◌, ◌≢◌}
use fiware_monitoring.Js.Text.{JsString, join}
use fiware_monitoring.Js.Text.Split.{Free}
use fiware_monitoring.Parsers.Nagios.{EntityData}

-- A line with text and, behind a bar, performance data; a bar with nothing behind it counts for
-- nothing.
pub data IsLine : JsString → JsString → Option JsString → Type 0 where
  bare : (d : JsString) → Free b'|' d → d ≢ [] → IsLine d d none
  barred : (d item : JsString) → Free b'|' d → d ≢ [] → item ≡ d ++ (b'|' ∷ []) → IsLine item d none
  compound :
      (d p item : JsString)
      → Free b'|' d
      → d ≢ []
      → Free b'|' p
      → p ≢ []
      → item ≡ d ++ (b'|' ∷ p)
      → IsLine item d (some p)

-- Lines with no performance data, and their texts.
pub data PlainLines : List JsString → List JsString → Type 0 where
  no_line : PlainLines [] []
  and_line :
      {item d : JsString} {items ds : List JsString}
      → IsLine item d none
      → PlainLines items ds
      → PlainLines (item ∷ items) (d ∷ ds)

-- The lines after the first, whose performance data is `perf`; with the text lines and the
-- performance lines that they hold.
pub data LongLines (perf : Option JsString)
    : List JsString → List JsString → List JsString → Type 0 where
  stop : LongLines perf [] [] []
  more_text :
      {item d : JsString} {items ts ps : List JsString}
      → IsLine item d none
      → LongLines perf items ts ps
      → LongLines perf (item ∷ items) (d ∷ ts) ps
  multi :
      {item d p : JsString} {items ps : List JsString}
      → perf ≢ none
      → IsLine item d (some p)
      → PlainLines items ps
      → LongLines perf (item ∷ items) (d ∷ []) (p ∷ ps)

-- All performance lines: none at all if the first line has none.
abbrev pub perf_lines : Option JsString → List JsString → Option JsString
perf_lines none ps = none
perf_lines (some p) ps = some (join (b'\n' ∷ []) (p ∷ ps))

-- The lines of a probe's output, and the entity data that they stand for.
pub data IsProbeOutput : List JsString → EntityData → Type 0 where
  output :
      {item d : JsString} {perf : Option JsString} {items ts ps : List JsString} {e : EntityData}
      → IsLine item d perf
      → LongLines perf items ts ps
      → e ≡ record { text_data = some (join (b'\n' ∷ []) (d ∷ ts)); perf_data = perf_lines perf ps }
      → IsProbeOutput (item ∷ items) e

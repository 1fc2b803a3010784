-- ===== src/Tests/Traces.antt =====
-- The theorems about the traces, at concrete inputs.
use fiware_monitoring.Base.{[], false, none, refl, some, ◌++◌, ◌∷◌, ◌≡◌}
use fiware_monitoring.Js.Format.{
  append_args, fill, nat_arg, number_text, scan_char, string_of, substitute, text_arg,
}
use fiware_monitoring.Js.Integer.{show_nat}
use fiware_monitoring.Js.Text.{JsString, codes, split}
use fiware_monitoring.Js.Text.Split.{is_free-Free}
use fiware_monitoring.Logger.{LogContext, format_trace}
use fiware_monitoring.Logger.Layout.{split-format_trace}

abbrev no_number : JsString → JsString
no_number s = codes "NaN"

abbrev traced : LogContext
traced = record { corr = some (codes "7af94c40"); trans = some (codes "ci2627bx"); op = none }

abbrev at_time : JsString
at_time = codes "2015-08-01T08:00:00.511Z"

status_filled :
    fill no_number false (codes "Response status %d %s") (nat_arg 200 ∷ text_arg (codes "OK") ∷ [])
    ≡ codes "Response status 200 OK"
unfolding fill scan_char substitute number_text string_of append_args show_nat
status_filled = refl

-- Without arguments, two percent signs in a message become one in its trace.
percent_halved :
    fill no_number false (codes "Unknown probe \"a%%b\"") [] ≡ codes "Unknown probe \"a%b\""
unfolding fill scan_char substitute append_args
percent_halved = refl

split-format_trace_example :
    split b'|' (format_trace no_number at_time (codes "INFO") traced (codes "Server stopped") [])
    ≡ (codes "time=" ++ (at_time ++ codes " "))
      ∷ (codes " lvl=" ++ (codes "INFO" ++ codes " "))
      ∷ (codes " corr=" ++ (codes "7af94c40" ++ codes " "))
      ∷ (codes " trans=" ++ (codes "ci2627bx" ++ codes " "))
      ∷ (codes " op=" ++ (codes "n/a" ++ codes " "))
      ∷ split b'|' (codes " msg=" ++ codes "Server stopped")
split-format_trace_example =
    split-format_trace no_number at_time (codes "INFO") traced (codes "Server stopped")
      (is_free-Free b'|' at_time refl) (is_free-Free b'|' (codes "INFO") refl)
      (is_free-Free b'|' (codes "7af94c40") refl) (is_free-Free b'|' (codes "ci2627bx") refl)
      (is_free-Free b'|' (codes "n/a") refl) (is_free-Free b'%' (codes "Server stopped") refl)

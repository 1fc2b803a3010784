-- ===== src/Logger/Layout.antt =====
-- What a trace shows.
use fiware_monitoring.Js.Format.Plain.{fill-Free}
use fiware_monitoring.Base.{
  List, [], ap, append_assoc, arith, false, refl, sym, ◌++◌, ◌∙◌, ◌∷◌, ◌≡◌, All, Option, none, some,
}
use fiware_monitoring.Js.Format.{Argument, fill, scan_char, string_of, substitute}
use fiware_monitoring.Js.Text.{JsString, codes, split}
use fiware_monitoring.Js.Text.Split.{Free, Free-append, is_free-Free, split-append}
use fiware_monitoring.Logger.{LogContext, format_trace, or_na}

-- The layout that the manual describes.
abbrev pub trace_with : JsString → JsString → JsString → JsString → JsString → JsString → JsString
trace_with time level corr trans op msg =
    codes "time="
    ++ (time
        ++ (codes " | lvl="
            ++ (level
                ++ (codes " | corr="
                    ++ (corr
                        ++ (codes " | trans="
                            ++ (trans ++ (codes " | op=" ++ (op ++ (codes " | msg=" ++ msg))))))))))

format_trace-trace_with :
    (number_of : JsString → JsString) (time level : JsString) (context : LogContext)
    (message : JsString) (args : List Argument)
    → format_trace number_of time level context message args
      ≡ trace_with time level
          (or_na context.corr)
          (or_na context.trans)
          (or_na context.op)
          (fill number_of false message args)
unfolding format_trace fill scan_char substitute string_of
format_trace-trace_with number_of time level context message args = refl

-- What a trace shows for a member of the context.
abbrev pub shown : Option JsString → JsString
shown none = codes "n/a"
shown (some []) = codes "n/a"
shown (some (c ∷ s)) = c ∷ s

or_na-shown : (m : Option JsString) → or_na m ≡ shown m
or_na-shown none = refl
or_na-shown (some []) = refl
or_na-shown (some (c ∷ s)) = refl

-- One labelled field, before a bar.
split_field :
    (label value t : JsString)
    → Free b'|' label
    → Free b'|' value
    → split b'|' (label ++ (value ++ (b' ' ∷ b'|' ∷ t)))
      ≡ (label ++ (value ++ (b' ' ∷ []))) ∷ split b'|' t
split_field label value t hl hv =
    ap (λ s. split b'|' (label ++ s)) (sym (append_assoc value (b' ' ∷ []) (b'|' ∷ t)))
    ∙ ap (split b'|') (sym (append_assoc label (value ++ (b' ' ∷ [])) (b'|' ∷ t)))
    ∙ split-append b'|' (label ++ (value ++ (b' ' ∷ []))) t
        (Free-append b'|' label _ hl (Free-append b'|' value (b' ' ∷ []) hv (ground arith)))

-- Fields before a text, each followed by a bar.
abbrev fields_before : JsString → List (JsString × JsString) → JsString
fields_before t [] = t
fields_before t ((label, value) ∷ fields) =
    label ++ (value ++ (b' ' ∷ b'|' ∷ fields_before t fields))

abbrev pieces_before : List JsString → List (JsString × JsString) → List JsString
pieces_before ps [] = ps
pieces_before ps ((label, value) ∷ fields) =
    (label ++ (value ++ (b' ' ∷ []))) ∷ pieces_before ps fields

abbrev HasNoBar : JsString × JsString → Type 0
HasNoBar (label, value) = Free b'|' label × Free b'|' value

split_fields :
    (t : JsString) (fields : List (JsString × JsString))
    → All HasNoBar fields
    → split b'|' (fields_before t fields) ≡ pieces_before (split b'|' t) fields
split_fields t [] h = refl
split_fields t ((label, value) ∷ fields) h =
    split_field label value (fields_before t fields) h.0.0 h.0.1
    ∙ ap (◌∷◌ (label ++ (value ++ (b' ' ∷ [])))) (split_fields t fields h.1)

-- A trace without more arguments, whose message has no percent sign and whose time, level and
-- members of the context have no bar, splits at its bars into the labelled fields with their
-- values, n/a for a member that is missing or empty, and then the message with its label.
pub split-format_trace :
    (number_of : JsString → JsString) (time level : JsString) (context : LogContext)
    (message : JsString)
    → Free b'|' time
    → Free b'|' level
    → Free b'|' (shown context.corr)
    → Free b'|' (shown context.trans)
    → Free b'|' (shown context.op)
    → Free b'%' message
    → split b'|' (format_trace number_of time level context message [])
      ≡ (codes "time=" ++ (time ++ codes " "))
        ∷ (codes " lvl=" ++ (level ++ codes " "))
        ∷ (codes " corr=" ++ (shown context.corr ++ codes " "))
        ∷ (codes " trans=" ++ (shown context.trans ++ codes " "))
        ∷ (codes " op=" ++ (shown context.op ++ codes " "))
        ∷ split b'|' (codes " msg=" ++ message)
split-format_trace number_of time level context message ht hl hc hr ho hm =
    ap (split b'|') (
      format_trace-trace_with number_of time level context message []
      ∙ rw (or_na-shown context.corr, or_na-shown context.trans, or_na-shown context.op) refl
      ∙ ap (trace_with time level (shown context.corr) (shown context.trans) (shown context.op))
          (fill-Free number_of message hm))
    ∙ split_fields (codes " msg=" ++ message)
        ((codes "time=", time)
          ∷ (codes " lvl=", level)
          ∷ (codes " corr=", shown context.corr)
          ∷ (codes " trans=", shown context.trans)
          ∷ (codes " op=", shown context.op)
          ∷ [])
        (
          (is_free-Free b'|' (codes "time=") refl, ht),
          (
            (is_free-Free b'|' (codes " lvl=") refl, hl),
            (
              (is_free-Free b'|' (codes " corr=") refl, hc),
              (
                (is_free-Free b'|' (codes " trans=") refl, hr),
                ((is_free-Free b'|' (codes " op=") refl, ho), tt),
              ),
            ),
          ),
        )

-- ===== src/Parsers/Nagios/Lines.antt =====
-- One line of the loop of `parseRequest`: when it is readable, and what it does in each state.
use fiware_monitoring.Base.{
  All, List, Option, Result, [], arith, err, none, refl, some, sym, ◌∷◌, ◌≡◌, ℕ, ◌<◌, append_assoc,
  false, ok, true, ◌++◌, ◌∙◌, ◌≢◌, get_elem?, length, suc,
}
use fiware_monitoring.Domain.{Error}
use fiware_monitoring.Js.Text.{JsString, join, split}
use fiware_monitoring.Js.Text.Split.{
  All-Free-split, Free, join-split, split-Free, split-append, split-cons,
}
use fiware_monitoring.Parsers.Nagios.{
  Scan, invalid_data, scan_fields, scan_line, empty_scan, invalid_perfdata,
}
use fiware_monitoring.Parsers.Nagios.Format.{IsLine, bare, barred, compound}

-- A line as the loop sees it: readable, with or without performance data, or malformed in any state.
pub data LineView (item : JsString) : Type 0 where
  unbarred : (d : JsString) → IsLine item d none → LineView item
  with_perf : (d p : JsString) → IsLine item d (some p) → LineView item
  malformed : ((s : Scan) → scan_line s item ≡ err invalid_data) → LineView item

-- What the loop's body does with such a line.
pub accept : Scan → JsString → Option JsString → Result Error Scan
unfolding scan_fields
accept s d none = scan_fields s 1 d none
accept s d (some p) = scan_fields s 2 d (some p)

scan_fields-barred :
    (s : Scan) (d : JsString) → scan_fields s 2 d (some []) ≡ scan_fields s 1 d none
unfolding scan_fields
scan_fields-barred s d = ground arith

pub scan_line-IsLine :
    (s : Scan) {item d : JsString} {p : Option JsString}
    → IsLine item d p
    → scan_line s item ≡ accept s d p
unfolding scan_line accept
scan_line-IsLine s (bare d f ne) = rw (split-Free b'|' d f) refl
scan_line-IsLine s (barred d item f ne e) =
    rw (e, split-append b'|' d [] f, split-Free b'|' [] tt) (scan_fields-barred s d)
scan_line-IsLine s (compound d p item f ne g np e) =
    rw (e, split-append b'|' d p f, split-Free b'|' p g) refl

scan_fields-empty :
    (s : Scan) (n : ℕ) (second : Option JsString) → scan_fields s n [] second ≡ err invalid_data
unfolding scan_fields
scan_fields-empty s n second = ground arith

scan_fields-many :
    (s : Scan) (n : ℕ) (d : JsString) (second : Option JsString)
    → 2 < n
    → scan_fields s n d second ≡ err invalid_data
unfolding scan_fields
scan_fields-many s n d second h = ground arith

pub line_view : (item : JsString) → LineView item
unfolding scan_line join
line_view item =
    cases (split b'|' item) refl (All-Free-split b'|' item) (sym (join-split b'|' item))
  where
    cases :
        (ps : List JsString)
        → split b'|' item ≡ ps
        → All (Free b'|') ps
        → item ≡ join (b'|' ∷ []) ps
        → LineView item
    cases [] e h j = let (p, ps, k) = split-cons b'|' item in absurd (cc (e, k))
    cases ([] ∷ ps) e h j =
        malformed (λ s. rw e (scan_fields-empty s (suc (length ps)) (get_elem? ([] ∷ ps) 1)))
    cases ((c ∷ d) ∷ []) e (f, _) j = unbarred (c ∷ d) (rw j (bare (c ∷ d) f (cc)))
    cases ((c ∷ d) ∷ [] ∷ []) e (f, _) j = unbarred (c ∷ d) (barred (c ∷ d) item f (cc) j)
    cases ((c ∷ d) ∷ (x ∷ p) ∷ []) e (f, (g, _)) j =
        with_perf (c ∷ d) (x ∷ p) (compound (c ∷ d) (x ∷ p) item f (cc) g (cc) j)
    cases ((c ∷ d) ∷ p ∷ q ∷ ps) e h j = malformed (λ s.
        rw e (scan_fields-many s (length ((c ∷ d) ∷ p ∷ q ∷ ps)) (c ∷ d) (some p) (omega arith)))

-- The states of the loop: nothing read, text read, and multi-line performance data.
abbrev pub reading : JsString → Option JsString → Scan
reading t perf = record {
  entity_data = record { text_data = some t; perf_data = perf };
  is_multiline_perf = false;
}

abbrev pub multiline : JsString → JsString → Scan
multiline t perf = record {
  entity_data = record { text_data = some t; perf_data = some perf };
  is_multiline_perf = true;
}

-- What the loop appends to a member, line by line.
abbrev pub add_lines : JsString → List JsString → JsString
add_lines t [] = t
add_lines t (l ∷ ls) = add_lines (t ++ (b'\n' ∷ l)) ls

pub add_lines-join :
    (t : JsString) (ls : List JsString) → add_lines t ls ≡ join (b'\n' ∷ []) (t ∷ ls)
unfolding join
add_lines-join t [] = refl
add_lines-join t (l ∷ []) = refl
add_lines-join t (l ∷ m ∷ ls) =
    add_lines-join (t ++ (b'\n' ∷ l)) (m ∷ ls) ∙ append_assoc t (b'\n' ∷ l) _

pub IsLine-ne : {item d : JsString} {p : Option JsString} → IsLine item d p → d ≢ []
IsLine-ne (bare d f ne) = ne
IsLine-ne (barred d item f ne e) = ne
IsLine-ne (compound d p item f ne g np e) = ne

pub IsLine-perf_ne : {item d p : JsString} → IsLine item d (some p) → p ≢ []
IsLine-perf_ne (compound d p item f ne g np e) = np

-- In the multi-line performance data every plain line is performance data.
pub accept-multiline-none :
    (t perf d : JsString)
    → t ≢ []
    → d ≢ []
    → accept (multiline t perf) d none ≡ ok (multiline t (perf ++ (b'\n' ∷ d)))
unfolding accept
accept-multiline-none t perf d ht hd = ground arith

pub accept-multiline-some :
    (t perf d p : JsString)
    → t ≢ []
    → d ≢ []
    → p ≢ []
    → accept (multiline t perf) d (some p) ≡ err invalid_perfdata
unfolding accept
accept-multiline-some t perf d p ht hd hp = ground arith

pub accept-reading-none :
    (t d : JsString) (perf : Option JsString)
    → t ≢ []
    → d ≢ []
    → accept (reading t perf) d none ≡ ok (reading (t ++ (b'\n' ∷ d)) perf)
unfolding accept
accept-reading-none t d perf ht hd = ground arith

pub accept-reading-some :
    (t perf d p : JsString)
    → t ≢ []
    → perf ≢ []
    → d ≢ []
    → p ≢ []
    → accept (reading t (some perf)) d (some p)
      ≡ ok (multiline (t ++ (b'\n' ∷ d)) (perf ++ (b'\n' ∷ p)))
unfolding accept
accept-reading-some t perf d p ht hperf hd hp = ground arith

pub accept-no_perf :
    (t d p : JsString)
    → t ≢ []
    → d ≢ []
    → p ≢ []
    → accept (reading t none) d (some p) ≡ err invalid_perfdata
unfolding accept
accept-no_perf t d p ht hd hp = ground arith

pub accept-first :
    (d : JsString) (p : Option JsString)
    → d ≢ []
    → (p ≢ some [])
    → accept empty_scan d p ≡ ok (reading d p)
unfolding accept
accept-first d none hd hp = ground arith
accept-first d (some p) hd hp = ground arith

pub IsLine-ne_some_nil : {item d : JsString} {p : Option JsString} → IsLine item d p → p ≢ some []
IsLine-ne_some_nil (bare d f ne) = cc
IsLine-ne_some_nil (barred d item f ne e) = cc
IsLine-ne_some_nil (compound d p item f ne g np e) = λ h. np (cc)

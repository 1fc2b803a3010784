-- ===== src/Config/Check/BrokerApi.antt =====
-- The version of the API after the check.
use fiware_monitoring.Base.{[], ap, arith, false, refl, ℕ, ◌++◌, ◌∙◌, ◌∷◌, ◌≡◌, ◌≢◌}
use fiware_monitoring.Config.Check.{broker_api_of, is_terminator, strip_slash}
use fiware_monitoring.Js.Text.{JsString, equal}
use fiware_monitoring.Platform.{Platform}

-- No line terminator and no slash at the end.
abbrev pub IsPath : JsString → Type 0
IsPath [] = Unit
IsPath (c ∷ []) = (is_terminator c ≡ false) × (c ≢ b'/')
IsPath (c ∷ s) = (is_terminator c ≡ false) × IsPath s

IsPath-equal_slash : (c : ℕ) (s : JsString) → IsPath (c ∷ s) → equal (c ∷ s) (b'/' ∷ []) ≡ false
unfolding equal
IsPath-equal_slash c [] h = ground (arith, h.1)
IsPath-equal_slash c (d ∷ s) h = ground arith

equal-append_slash : (c : ℕ) (s : JsString) → equal ((c ∷ s) ++ (b'/' ∷ [])) (b'/' ∷ []) ≡ false
unfolding equal
equal-append_slash c [] = ground arith
equal-append_slash c (d ∷ s) = ground arith

strip_slash-keep :
    (c : ℕ) (s : JsString) → equal s (b'/' ∷ []) ≡ false → strip_slash (c ∷ s) ≡ c ∷ strip_slash s
unfolding strip_slash
strip_slash-keep c s h = rw h refl

strip_slash-IsPath : (c : ℕ) (s : JsString) → IsPath (c ∷ s) → strip_slash (c ∷ s) ≡ c ∷ s
strip_slash-IsPath c [] h = unfold strip_slash equal in refl
strip_slash-IsPath c (d ∷ s) h =
    strip_slash-keep c (d ∷ s) (IsPath-equal_slash d s h.1)
    ∙ ap (◌∷◌ c) (strip_slash-IsPath d s h.1)

strip_slash-append :
    (c : ℕ) (s : JsString) → IsPath (c ∷ s) → strip_slash ((c ∷ s) ++ (b'/' ∷ [])) ≡ c ∷ s
strip_slash-append c [] h = unfold strip_slash equal in rw h.0 refl
strip_slash-append c (d ∷ s) h =
    strip_slash-keep c ((d ∷ s) ++ (b'/' ∷ [])) (equal-append_slash d s)
    ∙ ap (◌∷◌ c) (strip_slash-append d s h.1)

module _ (platform : Platform) where
  -- For a URL whose path after its first slash is not empty, does not end in a slash and has no
  -- line terminator, when lower case keeps the first slash and gives no line terminator after it,
  -- the version of the API is that path in lower case without its first slash, and a slash at the
  -- end of the path changes nothing.
  pub broker_api_of-path :
      (c d : ℕ) (s t : JsString)
      → IsPath (c ∷ s)
      → platform.to_lower (b'/' ∷ c ∷ s) ≡ b'/' ∷ d ∷ t
      → is_terminator d ≡ false
      → (broker_api_of platform (b'/' ∷ c ∷ s) ≡ d ∷ t)
        × (broker_api_of platform (b'/' ∷ ((c ∷ s) ++ (b'/' ∷ []))) ≡ d ∷ t)
  unfolding broker_api_of
  broker_api_of-path c d s t h lower no_end = (
    rw (strip_slash-IsPath b'/' (c ∷ s) (unfold is_terminator in (refl, h)), lower, no_end) refl,
    rw (strip_slash-append b'/' (c ∷ s) (unfold is_terminator in (refl, h)), lower, no_end) refl,
  )

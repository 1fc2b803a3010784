-- ===== src/Adapter/Listener/Exchange.antt =====
-- Whole exchanges: a request, its body, and what is sent to ContextBroker.
use fiware_monitoring.Adapter.Update.Attempts.{replies-append, requests-append}
use fiware_monitoring.Adapter.Update.{update_context}
use fiware_monitoring.Config.{Config}
use fiware_monitoring.Parsers.Factory.{Cache, Module, ParserObject}
use fiware_monitoring.Adapter.Effect.{
  Effect, callback, replies, request, requests, uncaught, Attempt, RetryModule,
}
use fiware_monitoring.Adapter.Listener.{
  Pending, catch_uncaught, on_data, Fresh, Request, new_domain, serve, on_end, on_request,
  request_context,
}
use fiware_monitoring.Adapter.Listener.Status.{
  on_request-Answers, StatusOf, found, Answers, StatusOf-unique,
}
use fiware_monitoring.Base.{
  List, [], ap, append-nil, map, refl, sym, ℕ, ◌++◌, ◌∷◌, ◌≡◌, append_assoc, ok, ◌∙◌, ◌≢◌, Option,
  Result, inl, inr, none,
}
use fiware_monitoring.Domain.{text, Domain, Error}
use fiware_monitoring.Js.Text.{JsString, join}
use fiware_monitoring.Platform.{Platform}

pub requests-catch_uncaught :
    (corr : JsString) (es : List Effect) → requests (catch_uncaught corr es) ≡ requests es
unfolding requests catch_uncaught
requests-catch_uncaught corr [] = refl
requests-catch_uncaught corr (request options body ∷ es) =
    ap (◌∷◌ (options, body)) (requests-catch_uncaught corr es)
requests-catch_uncaught corr (uncaught e ∷ es) = requests-catch_uncaught corr es
requests-catch_uncaught corr (e ∷ es) = requests-catch_uncaught corr es

replies-catch_uncaught :
    (corr : JsString) (es : List Effect) → replies (catch_uncaught corr es) ≡ replies es
unfolding replies catch_uncaught
replies-catch_uncaught corr [] = refl
replies-catch_uncaught corr (callback reply ∷ es) = ap (◌∷◌ reply) (replies-catch_uncaught corr es)
replies-catch_uncaught corr (uncaught e ∷ es) = replies-catch_uncaught corr es
replies-catch_uncaught corr (e ∷ es) = replies-catch_uncaught corr es

join-nil : (x : JsString) (xs : List JsString) → join [] (x ∷ xs) ≡ x ++ join [] xs
unfolding join
join-nil x [] = sym (append-nil x)
join-nil x (y ∷ xs) = refl

-- A request whose body is `s` so far.
abbrev pub collecting : ParserObject → Domain → JsString → Pending
collecting object d s = record { object = object; reqdomain = record d { body = text s } }

-- The chunks are decoded one by one and put together.
pub on_data-join :
    (platform : Platform) (object : ParserObject) (d : Domain) (s : JsString)
    (chunks : List (List ℕ))
    → on_data platform (collecting object d s) chunks
      ≡ collecting object d (s ++ join [] (map platform.decode chunks))
unfolding on_data
on_data-join platform object d s [] =
    ap (collecting object d) (sym (append-nil s)) ∙ unfold join in refl
on_data-join platform object d s (chunk ∷ chunks) =
    on_data-join platform object d (s ++ platform.decode chunk) chunks
    ∙ ap (collecting object d) (
        append_assoc s (platform.decode chunk) _
        ∙ ap (◌++◌ s) (sym (join-nil (platform.decode chunk) (map platform.decode chunks))))

module _ (platform : Platform) (require : JsString → Module) (r : RetryModule) (config : Config)
    (cache : Cache) (fresh : Fresh) (req : Request) (chunks : List (List ℕ))
    (outcomes : List Attempt) where
  -- The domain of the request with its whole body.
  abbrev pub full_domain : Domain
  full_domain = record (new_domain platform fresh req) {
    body = text (join [] (map platform.decode chunks));
  }

  abbrev answer :
      Answers platform require config fresh req cache
        (on_request platform require config fresh req cache)
  answer = on_request-Answers platform require config fresh req cache

  abbrev ended : Option Pending → List Effect
  ended = on_end platform r config (request_context fresh req).corr chunks outcomes

  serve-ended :
      (p : Option Pending)
      → (on_request platform require config fresh req cache).pending ≡ p
      → (requests (serve platform require r config cache fresh req chunks outcomes)
          ≡ requests (ended p))
        × (replies (serve platform require r config cache fresh req chunks outcomes)
            ≡ replies (ended p))
  unfolding serve
  serve-ended p h = (
    requests-append (on_request platform require config fresh req cache).effects _
        ∙ rw (answer.no_request, h) refl,
    replies-append (on_request platform require config fresh req cache).effects _
        ∙ rw (answer.no_reply, h) refl,
  )

  -- An exchange whose status is not 200 never leads to a request to ContextBroker, nor to a
  -- report, whatever its body.
  pub serve_refused :
      (status : ℕ)
      → StatusOf platform require config fresh req cache status
      → status ≢ 200
      → (requests (serve platform require r config cache fresh req chunks outcomes) ≡ [])
        × (replies (serve platform require r config cache fresh req chunks outcomes) ≡ [])
  unfolding on_end requests replies
  serve_refused status s ne = elim (answer.awaited) [
    | inl (waits, _) ↦ serve-ended none waits
    | inr (object, is_ok, f, waits) ↦
        absurd
          (ne (StatusOf-unique platform require config fresh req cache s answer.is_status ∙ is_ok))
  ]

  -- An exchange whose status is 200 sends and reports exactly what the update of its parser does
  -- for the joined, decoded chunks of its body.
  pub serve_accepted :
      (object : ParserObject)
      → StatusOf platform require config fresh req cache 200
      → found platform require config fresh req cache ≡ ok object
      → (requests (serve platform require r config cache fresh req chunks outcomes)
          ≡ requests (update_context platform r config object full_domain outcomes).effects)
        × (replies (serve platform require r config cache fresh req chunks outcomes)
            ≡ replies (update_context platform r config object full_domain outcomes).effects)
  unfolding on_end
  serve_accepted object s f = elim (answer.awaited) [
    | inl (waits, ne) ↦
        absurd (ne (StatusOf-unique platform require config fresh req cache answer.is_status s))
    | inr (object', is_ok, f', waits) ↦
        let same : object' ≡ object = ok_inj object' object (sym f' ∙ f) in
        let body = on_data-join platform object' (new_domain platform fresh req) [] chunks in
        let (sends, reports) = serve-ended _ waits in
        (
          sends ∙ requests-catch_uncaught _ _ ∙ rw (body, same) refl,
          reports ∙ replies-catch_uncaught _ _ ∙ rw (body, same) refl,
        )
  ]
    where
      ok_inj : (q p : ParserObject) → ◌≡◌ {A = Result Error ParserObject} (ok q) (ok p) → q ≡ p
      ok_inj q p e = cc e

  -- What such an exchange does: the answer, and then the update.
  pub serve-update :
      (object : ParserObject)
      → StatusOf platform require config fresh req cache 200
      → found platform require config fresh req cache ≡ ok object
      → serve platform require r config cache fresh req chunks outcomes
        ≡ (on_request platform require config fresh req cache).effects
          ++ catch_uncaught
              (request_context fresh req).corr
              (update_context platform r config object full_domain outcomes).effects
  unfolding on_end serve
  serve-update object s f = elim (answer.awaited) [
    | inl (waits, ne) ↦
        absurd (ne (StatusOf-unique platform require config fresh req cache answer.is_status s))
    | inr (object', is_ok, f', waits) ↦
        let same : object' ≡ object = ok_inj object' object (sym f' ∙ f) in
        let body = on_data-join platform object' (new_domain platform fresh req) [] chunks in
        rw (waits, body, same) refl
  ]
    where
      ok_inj : (q p : ParserObject) → ◌≡◌ {A = Result Error ParserObject} (ok q) (ok p) → q ≡ p
      ok_inj q p e = cc e

-- ===== src/Adapter/Server/Emitted.antt =====
-- The events `error` of the request and the response, which `reqdomain.add` gives to the handler of
-- the domain.
use fiware_monitoring.Adapter.Effect.{Effect, heads, write_head}
use fiware_monitoring.Adapter.Listener.{on_domain_error}
use fiware_monitoring.Adapter.Update.Attempts.{replicate}
use fiware_monitoring.Base.{
  List, [], ap, arith, length, refl, suc, zero, ℕ, ◌++◌, ◌+◌, ◌∙◌, ◌∷◌, ◌≡◌, ◌≤◌,
}
use fiware_monitoring.Domain.{Error}
use fiware_monitoring.Js.Text.{JsString}

-- What is done for a request when such events come, anywhere between the effects without them, which
-- stay the same.
pub data Emits (corr : JsString) : List Effect → List Error → List Effect → Type 0 where
  quiet : Emits corr [] [] []
  kept :
      {es fs : List Effect} {errors : List Error} (e : Effect)
      → Emits corr es errors fs
      → Emits corr (e ∷ es) errors (e ∷ fs)
  emitted :
      {es fs : List Effect} {errors : List Error} (e : Error)
      → Emits corr es errors fs
      → Emits corr es (e ∷ errors) (on_domain_error corr e ++ fs)

-- Heads with 500 on both sides of the first one.
pub record HeadsAround (corr : JsString) (first : ℕ × JsString) (n : ℕ) (errors : List Error)
    (fs : List Effect) : Type 0 where
  pub before : ℕ
  pub after : ℕ
  pub before_bounded : before ≤ length errors
  pub counted : before + after ≡ n + length errors
  pub around : heads fs ≡ replicate before (500, corr) ++ (first ∷ replicate after (500, corr))

module _ (corr : JsString) where
  heads-emitted :
      (e : Error) (fs : List Effect) → heads (on_domain_error corr e ++ fs) ≡ (500, corr) ∷ heads fs
  unfolding heads
  heads-emitted e fs = refl

  Emits-replicate :
      {es fs : List Effect} {errors : List Error}
      → Emits corr es errors fs
      → (n : ℕ) → heads es ≡ replicate n (500, corr)
      → heads fs ≡ replicate (n + length errors) (500, corr)
  unfolding heads
  Emits-replicate quiet n h =
      h ∙ ap (λ k. replicate k (500, corr)) {x = n} {y = n + 0} (omega arith)
  Emits-replicate (kept (write_head status c) m) zero h = absurd (cc h)
  Emits-replicate {fs = _ ∷ fs} {errors} (kept (write_head status c) m) (suc n) h =
      let rest = Emits-replicate m n (cc h) in
      let same : ◌≡◌ {A = ℕ × JsString} (status, c) (500, corr) = cc h in
      rw (rest, same)
        (ap (λ k. replicate k (500, corr)) {x = suc (n + length errors)} {y = suc n + length errors}
          (omega arith))
  Emits-replicate (kept e m) n h = Emits-replicate m n h
  Emits-replicate {errors = _ ∷ errors} (emitted {fs = fs} e m) n h =
      heads-emitted e fs
      ∙ rw (Emits-replicate m n h) (
          ap (λ k. replicate k (500, corr)) {x = suc (n + length errors)}
            {y = n + length (e ∷ errors)} (omega arith))

  pub Emits-HeadsAround :
      {es fs : List Effect} {errors : List Error} (first : ℕ × JsString) (n : ℕ)
      → Emits corr es errors fs
      → heads es ≡ first ∷ replicate n (500, corr)
      → HeadsAround corr first n errors fs
  unfolding heads
  Emits-HeadsAround first n quiet h = absurd (cc h)
  Emits-HeadsAround {errors = errors} first n (kept (write_head status c) m) h =
      let rest = Emits-replicate m n (cc h) in
      let same : ◌≡◌ {A = ℕ × JsString} (status, c) first = cc h in
      record {
        before = 0;
        after = n + length errors;
        before_bounded = omega arith;
        counted = omega arith;
        around = rw (rest, same) refl;
      }
  Emits-HeadsAround first n (kept e m) h =
      let r = Emits-HeadsAround first n m h in
      record {
        before = r.before;
        after = r.after;
        before_bounded = r.before_bounded;
        counted = r.counted;
        around = r.around;
      }
  Emits-HeadsAround {errors = _ ∷ errors} first n (emitted {fs = fs} e m) h =
      let r = Emits-HeadsAround first n m h in
      record {
        before = suc r.before;
        after = r.after;
        before_bounded = omega (arith, r.before_bounded);
        counted = omega (arith, r.counted);
        around = heads-emitted e fs ∙ ap (◌∷◌ (500, corr)) r.around;
      }

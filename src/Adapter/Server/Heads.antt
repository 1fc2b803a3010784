-- ===== src/Adapter/Server/Heads.antt =====
-- How many heads of a response the ends of an update add.
use fiware_monitoring.Adapter.Callback.{report_response, update_context_callback}
use fiware_monitoring.Adapter.Effect.{
  Effect, Reply, callback, end_response, failed, heads, log, replied, request, uncaught, write_head,
}
use fiware_monitoring.Adapter.Listener.{catch_uncaught}
use fiware_monitoring.Adapter.Listener.Report.{finish, heads-append}
use fiware_monitoring.Adapter.Update.Attempts.{replicate}
use fiware_monitoring.Base.{
  List, Result, [], ap, arith, err, ok, refl, suc, zero, ℕ, ◌++◌, ◌+◌, ◌∙◌, ◌∷◌, ◌≡◌, ◌≤◌,
}
use fiware_monitoring.Config.{Config}
use fiware_monitoring.Domain.{Error}
use fiware_monitoring.Js.Json.{Json, arr, boolean, null, num, obj, str}
use fiware_monitoring.Js.Text.{JsString}
use fiware_monitoring.Platform.{Platform}

-- The calls of the callback and the exceptions that nothing catches.
unfoldable pub ends : List Effect → ℕ
ends [] = 0
ends (callback reply ∷ es) = suc (ends es)
ends (uncaught e ∷ es) = suc (ends es)
ends (_ ∷ es) = ends es

-- At most `n` heads, all of them with the status 500.
pub record FewErrors (corr : JsString) (es : List Effect) (n : ℕ) : Type 0 where
  pub number : ℕ
  pub bounded : number ≤ n
  pub all_errors : heads es ≡ replicate number (500, corr)

replicate-append {ℓ} :
    {A : Type ℓ} (m n : ℕ) (a : A) → replicate m a ++ replicate n a ≡ replicate (m + n) a
replicate-append zero n a = ap (λ k. replicate k a) {x = n} {y = 0 + n} (omega arith)
replicate-append (suc m) n a =
    ap (◌∷◌ a) (replicate-append m n a)
    ∙ ap (λ k. replicate k a) {x = suc (m + n)} {y = suc m + n} (omega arith)

FewErrors-append :
    (corr : JsString) (es fs : List Effect) (m n : ℕ)
    → FewErrors corr es m
    → FewErrors corr fs n
    → FewErrors corr (es ++ fs) (m + n)
FewErrors-append corr es fs m n e f = record {
  number = e.number + f.number;
  bounded = omega (arith, e.bounded, f.bounded);
  all_errors =
      heads-append es fs ∙ rw (e.all_errors, f.all_errors) (replicate-append e.number f.number _);
}

module _ (platform : Platform) (config : Config) (corr : JsString) where
  report_response-FewErrors :
      (status : ℕ) (body : JsString) (m : Result Error Json)
      → FewErrors corr (catch_uncaught corr (report_response platform config status body m)) 1
  unfolding report_response heads catch_uncaught
  report_response-FewErrors status body (err e) = record {
    number = 1;
    bounded = omega arith;
    all_errors = refl;
  }
  report_response-FewErrors status body (ok null) = record {
    number = 1;
    bounded = omega arith;
    all_errors = refl;
  }
  report_response-FewErrors status body (ok (boolean b)) = record {
    number = 0;
    bounded = omega arith;
    all_errors = refl;
  }
  report_response-FewErrors status body (ok (num n)) = record {
    number = 0;
    bounded = omega arith;
    all_errors = refl;
  }
  report_response-FewErrors status body (ok (str s)) = record {
    number = 0;
    bounded = omega arith;
    all_errors = refl;
  }
  report_response-FewErrors status body (ok (arr items)) = record {
    number = 0;
    bounded = omega arith;
    all_errors = refl;
  }
  report_response-FewErrors status body (ok (obj members)) = record {
    number = 0;
    bounded = omega arith;
    all_errors = refl;
  }

  callback-FewErrors :
      (reply : Reply)
      → FewErrors corr (catch_uncaught corr (update_context_callback platform config reply)) 1
  unfolding update_context_callback heads catch_uncaught
  callback-FewErrors (failed e) = record { number = 0; bounded = omega arith; all_errors = refl }
  callback-FewErrors (replied status body content_type) = report_response-FewErrors status body _

  -- Without a head of its own, a sequence adds one for each of its ends at most.
  pub finish-FewErrors :
      (es : List Effect)
      → heads es ≡ []
      → FewErrors corr (finish platform config corr (catch_uncaught corr es)) (ends es)
  unfolding finish catch_uncaught heads ends
  finish-FewErrors [] h = record { number = 0; bounded = omega arith; all_errors = refl }
  finish-FewErrors (callback reply ∷ es) h =
      let both =
        FewErrors-append corr (catch_uncaught corr (update_context_callback platform config reply))
          _ 1 (ends es) (callback-FewErrors reply) (finish-FewErrors es h) in
      record {
        number = both.number;
        bounded = omega (arith, both.bounded);
        all_errors = both.all_errors;
      }
  finish-FewErrors (uncaught e ∷ es) h =
      let rest = finish-FewErrors es h in
      record {
        number = suc rest.number;
        bounded = omega (arith, rest.bounded);
        all_errors = ap (◌∷◌ (500, corr)) rest.all_errors;
      }
  finish-FewErrors (write_head status corr' ∷ es) h = absurd (cc h)
  finish-FewErrors (log level s ∷ es) h =
      let rest = finish-FewErrors es h in
      record { number = rest.number; bounded = rest.bounded; all_errors = rest.all_errors }
  finish-FewErrors (end_response ∷ es) h =
      let rest = finish-FewErrors es h in
      record { number = rest.number; bounded = rest.bounded; all_errors = rest.all_errors }
  finish-FewErrors (request options body ∷ es) h =
      let rest = finish-FewErrors es h in
      record { number = rest.number; bounded = rest.bounded; all_errors = rest.all_errors }

-- ===== src/Adapter/Main/Stops.antt =====
-- How the process ends.
use fiware_monitoring.Adapter.Main.Starts.{IsFit, IsServing, main-IsFit_iff}
use fiware_monitoring.Adapter.Effect.{error, info}
use fiware_monitoring.Adapter.Endpoints.{Endpoint, bind, endpoints, ignored}
use fiware_monitoring.Adapter.Main.{
  close_at, Act, Process, ProcessEvent, Socket, after_check, ended, endpoint_act, exits_with,
  http_listening, life, main, process_run, process_step, react, running, show_help, signalled,
  thrown_out, trace_op, udp_failed, udp_listening, udp_message, when_open,
}
use fiware_monitoring.Base.{
  inl, inr, ◌⊎◌, Bool, List, Option, [], ap, append-nil, append_assoc, code, get_elem?, map, none,
  refl, some, subst, sym, ℕ, ◌++◌, ◌∙◌, ◌∷◌, ◌≡◌, false, if◌then◌else◌, true,
}
use fiware_monitoring.Config.{Config}
use fiware_monitoring.Config.Check.{Arguments, Checked, check, crashes, done, exits}
use fiware_monitoring.Js.Text.{JsString, codes}
use fiware_monitoring.Platform.{Platform}

-- The exit codes among the acts.
unfoldable pub exits_of : List Act → List ℕ
exits_of [] = []
exits_of (exits_with code ∷ acts) = code ∷ exits_of acts
exits_of (_ ∷ acts) = exits_of acts

-- A process that runs has not exited; one that has ended exited once, last, after it said so.
abbrev pub EndsWell : Process → List Act → Type 0
EndsWell (running sockets) acts = exits_of acts ≡ []
EndsWell (ended exit_code) acts =
    (before : List Act) × (exits_of before ≡ [])
    × (acts
        ≡ before
          ++ (trace_op info (codes "Exit") (codes "Server stopped") ∷ exits_with exit_code ∷ []))

exits_of-append : (xs ys : List Act) → exits_of (xs ++ ys) ≡ exits_of xs ++ exits_of ys
unfolding exits_of
exits_of-append [] ys = refl
exits_of-append (exits_with code ∷ xs) ys = ap (◌∷◌ code) (exits_of-append xs ys)
exits_of-append (a ∷ xs) ys = exits_of-append xs ys

EndsWell-append :
    (p : Process) (xs ys : List Act) → exits_of xs ≡ [] → EndsWell p ys → EndsWell p (xs ++ ys)
EndsWell-append (running sockets) xs ys h e = exits_of-append xs ys ∙ rw (h, e) refl
EndsWell-append (ended exit_code) xs ys h (before, none_before, e) = (
  xs ++ before,
  exits_of-append xs before ∙ rw (h, none_before) refl,
  ap (◌++◌ xs) e ∙ sym (append_assoc xs before _),
)

when_open-quiet :
    (o : Option Socket) (acts : Socket → List Act)
    → ((s : Socket) → exits_of (acts s) ≡ [])
    → exits_of (when_open o acts) ≡ []
when_open-quiet none acts h = unfold exits_of in refl
when_open-quiet (some s) acts h = if_quiet s.is_open (acts s) (h s)
  where
    if_quiet :
        (b : Bool) (acts : List Act) → exits_of acts ≡ [] → exits_of (if b then acts else []) ≡ []
    if_quiet true acts h = h
    if_quiet false acts h = unfold exits_of in refl

react-EndsWell :
    (sockets : List Socket) (event : ProcessEvent)
    → EndsWell (react sockets event).0 (react sockets event).1
unfolding react exits_of
react-EndsWell sockets signalled = ([], refl, refl)
react-EndsWell sockets (thrown_out e) = (trace_op error (codes "Exit") e ∷ [], refl, refl)
react-EndsWell sockets (http_listening address port) = refl
react-EndsWell sockets (udp_listening n address port) =
    when_open-quiet (get_elem? sockets n) _ (λ s. refl)
react-EndsWell sockets (udp_failed n stack) = when_open-quiet (get_elem? sockets n) _ (λ s. refl)
react-EndsWell sockets (udp_message n message) = when_open-quiet (get_elem? sockets n) _ (λ s. refl)

process_step-EndsWell :
    (p : Process) (acts : List Act) (event : ProcessEvent)
    → EndsWell p acts
    → EndsWell (process_step p event).0 (acts ++ (process_step p event).1)
unfolding process_step
process_step-EndsWell (running sockets) acts event h =
    EndsWell-append (react sockets event).0 acts _ h (react-EndsWell sockets event)
process_step-EndsWell (ended exit_code) acts event h = rw append-nil h

process_run-EndsWell :
    (events : List ProcessEvent) (p : Process) (acts : List Act)
    → EndsWell p acts
    → EndsWell (process_run p events).0 (acts ++ (process_run p events).1)
unfolding process_run
process_run-EndsWell [] p acts h = rw append-nil h
process_run-EndsWell (event ∷ events) p acts h =
    let next = process_step p event in
    subst (EndsWell (process_run next.0 events).0) (append_assoc acts next.1 _)
      (process_run-EndsWell events next.0 (acts ++ next.1) (process_step-EndsWell p acts event h))

endpoints_quiet : (es : List Endpoint) → exits_of (map endpoint_act es) ≡ []
unfolding exits_of
endpoints_quiet [] = refl
endpoints_quiet (bind host port name ∷ es) = endpoints_quiet es
endpoints_quiet (ignored item ∷ es) = endpoints_quiet es

after_check-EndsWell : (c : Checked) → EndsWell (after_check c).0 (after_check c).1
unfolding after_check exits_of
after_check-EndsWell exits = (show_help ∷ [], refl, refl)
after_check-EndsWell (crashes e (some failure)) =
    (trace_op error (codes "Init") failure ∷ [], refl, refl)
after_check-EndsWell (crashes e none) = (trace_op error (codes "Exit") e ∷ [], refl, refl)
after_check-EndsWell (done config (some failure)) =
    (trace_op error (codes "Init") failure ∷ [], refl, refl)
after_check-EndsWell (done config none) = endpoints_quiet (endpoints config)

-- The exit code of a process that has ended.
abbrev pub exit_code_of : Process → Option ℕ
exit_code_of (running sockets) = none
exit_code_of (ended exit_code) = some exit_code

-- The code with which the first signal or uncaught exception ends a process: 0 or 1.
abbrev pub first_end : List ProcessEvent → Option ℕ
first_end [] = none
first_end (signalled ∷ events) = some 0
first_end (thrown_out e ∷ events) = some 1
first_end (_ ∷ events) = first_end events

process_run-ended :
    (exit_code : ℕ) (events : List ProcessEvent)
    → exit_code_of (process_run (ended exit_code) events).0 ≡ some exit_code
unfolding process_run process_step
process_run-ended exit_code [] = refl
process_run-ended exit_code (event ∷ events) = process_run-ended exit_code events

process_run-first_end :
    (sockets : List Socket) (events : List ProcessEvent)
    → exit_code_of (process_run (running sockets) events).0 ≡ first_end events
unfolding process_run process_step react
process_run-first_end sockets [] = refl
process_run-first_end sockets (signalled ∷ events) = process_run-ended 0 events
process_run-first_end sockets (thrown_out e ∷ events) = process_run-ended 1 events
process_run-first_end sockets (http_listening address port ∷ events) =
    process_run-first_end sockets events
process_run-first_end sockets (udp_listening n address port ∷ events) =
    process_run-first_end sockets events
process_run-first_end sockets (udp_failed n stack ∷ events) =
    process_run-first_end (close_at n sockets) events
process_run-first_end sockets (udp_message n message ∷ events) =
    process_run-first_end sockets events

-- A process that does not start to serve ends with the code 1.
start_cases :
    (c : Checked)
    → IsServing (after_check c).0
      ⊎ ((IsServing (after_check c).0 → ⊥) × ((after_check c).0 ≡ ended 1))
unfolding after_check
start_cases exits = inr ((λ h. h), refl)
start_cases (crashes e (some failure)) = inr ((λ h. h), refl)
start_cases (crashes e none) = inr ((λ h. h), refl)
start_cases (done config (some failure)) = inr ((λ h. h), refl)
start_cases (done config none) = inl tt

run_of_serving :
    (p : Process) (events : List ProcessEvent)
    → IsServing p
    → exit_code_of (process_run p events).0 ≡ first_end events
run_of_serving (running sockets) events h = process_run-first_end sockets events
run_of_serving (ended exit_code) events h = absurd h

-- Whatever happens to the process after its start, it has not exited while it runs, and once it
-- has ended it exited a single time, as the last of its acts and directly after the trace "Server
-- stopped", with the code of its end. If the start was fit, it has ended exactly when there was a
-- signal or an exception that nothing catches, with 0 or 1 after the first of these; otherwise it
-- has ended with 1.
pub life-EndsWell :
    (platform : Platform) (can_read : JsString → Bool) (user : JsString) (arguments : Arguments)
    (config : Config) (events : List ProcessEvent)
    → EndsWell
        (life platform can_read user arguments config events).0
        (life platform can_read user arguments config events).1
      × ((IsFit platform can_read user arguments config
            × (exit_code_of (life platform can_read user arguments config events).0
                ≡ first_end events))
          ⊎ ((IsFit platform can_read user arguments config → ⊥)
              × (exit_code_of (life platform can_read user arguments config events).0 ≡ some 1)))
unfolding life main
life-EndsWell platform can_read user arguments config events =
    let fit = main-IsFit_iff platform can_read user arguments config in
    (
      process_run-EndsWell events _ _
          (after_check-EndsWell (check platform can_read user arguments config)),
      elim (start_cases (check platform can_read user arguments config)) [
        | inl serves ↦ inl (fit.0 serves, run_of_serving _ events serves)
        | inr (stops, e) ↦ inr ((λ f. stops (fit.1 f)), rw e (process_run-ended 1 events))
      ],
    )

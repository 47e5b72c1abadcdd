-- ===== src/Examples/Requests.antt =====
-- The theorems of `Api.Webhook` and `Health` on the store and the engine of `Samples`.
use ai_assistant.Prelude.{
  ℕ, ◌+◌, ◌*◌, Io, String, ◌≡◌, refl, true, false, [], none, some, ok, arith, lookup,
}
use ai_assistant.Session.{len, create, deref, get, empty}
use ai_assistant.Session.Invariant.{IsValid, empty-IsValid, create-IsValid}
use ai_assistant.Health.{run, Shared, beat, health_handler}
use ai_assistant.Health.Status.{initial}
use ai_assistant.Health.Laws.{Published, beat-health}
use ai_assistant.Cognition.{health_check}
use ai_assistant.Api.Webhook.{user_or_default, webhook_handler}
use ai_assistant.Api.Webhook.Laws.{webhook_handler-IsValid, webhook_handler-deref}
use ai_assistant.Api.Webhook.Served.{Resumes, Served, webhook_handler-Served}
use ai_assistant.Health.Eviction.{Passes, run-evicts}
use ai_assistant.Examples.Sessions.{two-IsValid}
use ai_assistant.Samples.{clock, tokens, deps, settings, cell, two, new_v4, webhook, to_session}

-- A request for session `a` leaves the session at address 1 as it is.
webhook_handler-deref_example :
    deref 1 (webhook_handler webhook none (to_session (some "a")) two 9).0.1 ≡ some (cell "b" true)
unfolding get deref lookup
webhook_handler-deref_example =
    webhook_handler-deref webhook none (to_session (some "a")) two 9 1 (cell "b" true) refl
      (λ e. cc)

pub one-IsValid : IsValid (create clock new_v4 [] empty 0).0.1
one-IsValid = create-IsValid clock new_v4 [] empty 0 empty-IsValid

webhook_handler-IsValid_example :
    IsValid
      (webhook_handler webhook none
        (to_session (some "c"))
        (create clock new_v4 [] empty 0).0.1
        9).0.1
webhook_handler-IsValid_example =
    webhook_handler-IsValid webhook none (to_session (some "c"))
      (create clock new_v4 [] empty 0).0.1 9 one-IsValid

webhook_handler-Served_example :
    let (r, st) = (webhook_handler webhook none (to_session (some "a")) two 9).0 in
    (id : String) × Resumes webhook (some "a") two id
    × Served webhook (user_or_default none) id st r
webhook_handler-Served_example = webhook_handler-Served webhook none (to_session (some "a")) two 9

abbrev shared : Shared
shared = record { sessions = two; health = initial; serving = true }

beat-health_example :
    let d = deps (ok (tokens 10)) in
    let after = (beat clock d.cognition none settings shared 9).0 in
    let (code, shown) = health_handler after.health in
    Published (health_check d.cognition 9).0 ⊥ code shown after.serving
    × (shown.active_sessions ≡ len after.sessions)
beat-health_example = beat-health clock (deps (ok (tokens 10))).cognition none settings shared 9

-- A sleep of the task takes its seconds.
abbrev sleep : ℕ → Io ℕ Unit
sleep secs w = (tt, w + secs)

passes : Passes clock (deps (ok (tokens 10))).cognition none sleep
passes = record {
  time = λ w. w * 1_000_000_000;
  shown = λ w. refl;
  read = λ w. omega arith;
  slept = λ secs w. grind arith;
  checked = λ service w. omega arith;
  pinged = λ ping w e. cc;
}

-- Session `a` is gone after two rounds of thirty seconds, with a timeout of sixty.
run-evicts_example :
    get "a" (run clock (deps (ok (tokens 10))).cognition none settings sleep 2 shared 0).0.sessions
    ≡ none
unfolding get lookup
run-evicts_example =
    run-evicts clock (deps (ok (tokens 10))).cognition none sleep passes settings 1 shared 0 "a" 0
      (cell "a" false) two-IsValid refl refl refl (omega arith)

-- ===== src/Examples/Counted.antt =====
-- The theorem of `AgentLoop.Requests`, where the world is the number of requests so far.
use ai_assistant.Prelude.{
  ℕ, suc, ◌+◌, ◌*◌, ◌≤◌, [], ok, as_i32, chars, strip, is_whitespace, split_once, from_chars,
  length, arith, refl, ◌≡◌,
}
use ai_assistant.Cognition.{CognitionClient, with_retry, complete, count_tokens}
use ai_assistant.AgentLoop.{
  persist, Deps, message, run_turn, begin, inject_prompt, iterate, iteration, proceed, ask, answer,
  react, use_tool,
}
use ai_assistant.AgentLoop.Protocol.{extract_tool_call}
use ai_assistant.AccessControl.{allows_tool}
use ai_assistant.AgentLoop.Fence.{captures, leftmost, match_here, blank_line, lazy_body}
use ai_assistant.AgentLoop.Requests.{requests-run_turn}
use ai_assistant.AgentLoop.Requests.Iteration.{Meter}
use ai_assistant.Session.{push_message}
use ai_assistant.AgentLoop.Trim.{trim, trim_rest, check_budget}
use ai_assistant.Samples.{tokens, deps, settings, files_only, no_memory, session, greeted}

abbrev healthy : Deps ℕ ℕ
healthy = deps (ok (tokens 10))

abbrev counted : CognitionClient ℕ
counted = record healthy.cognition {
  inner = record healthy.cognition.inner { sleep_ms = λ ms w. (tt, w) };
}

abbrev quiet : Deps ℕ ℕ
quiet = record healthy {
  clock = record { now = λ w. (0, w) };
  cognition = counted;
  execute = λ name args w. (ok "contents", w);
  list_schemas = λ w. ([], w);
  tool_calls_total = λ name status w. (tt, w);
  tool_duration_ms = λ ms name w. (tt, w);
}

meter : Meter quiet no_memory (λ w. w)
meter = record {
  completing = λ req w. omega arith;
  counting = λ req w. omega arith;
  sleeping = λ ms w. omega arith;
  reading = λ w. omega arith;
  executing = λ name args w. omega arith;
  listing = λ w. omega arith;
  tallying = λ name status w. omega arith;
  timing = λ ms name w. omega arith;
  storing = λ store id history w e. cc;
}

requests-run_turn_example :
    (run_turn quiet settings "key" files_only no_memory (message "hi") (session "a" greeted) 0).1
    ≤ 0
      + suc quiet.cognition.settings.max_retries
        * (4 * settings.max_tool_iterations + length greeted + 2)
requests-run_turn_example =
    requests-run_turn quiet settings "key" files_only no_memory (λ w. w) meter (message "hi")
      (session "a" greeted) 0

-- Two replies of the engine, each after a token count.
four_requests :
    (run_turn quiet settings "key" files_only no_memory (message "hi") (session "a" greeted) 0).1
    ≡ 4
unfolding run_turn iterate iteration proceed trim begin inject_prompt push_message trim_rest
    check_budget count_tokens with_retry ask answer complete react use_tool extract_tool_call
    persist allows_tool as_i32 captures leftmost chars match_here strip blank_line is_whitespace
    lazy_body split_once from_chars
four_requests = refl

-- ===== src/Examples/Turns.antt =====
-- The theorems of `Cognition`, `Tools` and `AgentLoop` on the engine of `Samples`.
use ai_assistant.Prelude.{
  ℕ, suc, ◌+◌, ◌*◌, ◌≤◌, String, ◌≡◌, refl, subst, true, false, List, [], ◌∷◌, none, some, pos, Io,
  Result, ok, err, arith, ◌==◌, eq_iff, chars, strip, is_whitespace, split_once, if◌then◌else◌,
  length, All, as_i32, ltb,
}
use ai_assistant.Errors.{
  ToolError, CognitionError, Status, unavailable, from_status, cognition_engine,
  max_iterations_exceeded,
}
use ai_assistant.AccessControl.{allows_tool}
use ai_assistant.Config.{AgentSettings}
use ai_assistant.Proto.{Message, CountTokensResponse}
use ai_assistant.Cognition.{with_retry, count_tokens, complete}
use ai_assistant.Cognition.Retry.{Decides, with_retry-Decides}
use ai_assistant.Json.{Fields, object, string, insert, get}
use ai_assistant.Tools.Definition.{ToolDefinition}
use ai_assistant.Tools.Definition.Validate.{validate_args, check_args, check_arg, type_ok}
use ai_assistant.Tools.Definition.Validate.Laws.{Extends, Settled, validate_args-Settled}
use ai_assistant.AgentLoop.{
  Deps, message, run_turn, iterate, iteration, proceed, begin, inject_prompt, ask, answer, react,
}
use ai_assistant.AgentLoop.Protocol.{extract_tool_call}
use ai_assistant.AgentLoop.Fence.{captures, leftmost, match_here, blank_line, lazy_body}
use ai_assistant.AgentLoop.Prompt.{visible}
use ai_assistant.AgentLoop.Policy.{over, run_turn-over}
use ai_assistant.AgentLoop.Outcome.{Ends, run_turn-Ends}
use ai_assistant.AgentLoop.Rule.{content_of}
use ai_assistant.AgentLoop.Rollback.{
  AlwaysFits, run_turn-Restored, FirstCountFails, Orphaned, run_turn-Orphaned,
}
use ai_assistant.AgentLoop.History.{StartsWithSystem, run_turn-StartsWithSystem, length-run_turn-le}
use ai_assistant.AgentLoop.Trim.{trim, trim_rest, check_budget}
use ai_assistant.AgentLoop.Trim.Laws.{Trims, Stops, trim-Ends}
use ai_assistant.Session.{push_message}
use ai_assistant.Samples.{
  say, tokens, path_args, serde, arg, tool, deps, settings, files_only, no_memory, session, greeted,
}

abbrev healthy : Deps ℕ ℕ
healthy = deps (ok (tokens 10))

-- The same tools, and `shell` besides.
abbrev execute : String → String → Io ℕ (Result ToolError String)
execute name args w = if name == "files" then (ok "contents", suc w) else (ok "secret", suc w + 100)

abbrev list_schemas : Io ℕ (List (ToolDefinition ℕ))
list_schemas w = (tool "shell" [] ∷ tool "files" [] ∷ [], suc w)

same_execute :
    (name args : String)
    → allows_tool files_only name ≡ true
    → healthy.execute name args ≡ execute name args
unfolding allows_tool
same_execute name args h =
    let permitted : "files" ≡ name = (eq_iff "files" name).0 (ground (arith, h)) in
    subst (λ n. healthy.execute n args ≡ execute n args) permitted refl

-- The engine calls `shell`, and the turn is the same over a registry that has it.
run_turn-over_example :
    run_turn healthy settings "key" files_only no_memory (message "hi") (session "a" []) 7
    ≡ run_turn
        (over healthy execute list_schemas)
        settings
        "key"
        files_only
        no_memory
        (message "hi")
        (session "a" [])
        7
unfolding visible allows_tool
run_turn-over_example =
    run_turn-over healthy settings "key" files_only execute list_schemas same_execute (λ w. refl)
      (λ w. refl) no_memory (message "hi") (session "a" []) 7

run_turn-Ends_example :
    let (r, s) =
      (run_turn healthy settings "key" files_only no_memory (message "hi") (session "a" []) 7).0 in
    Ends healthy settings "key" files_only 0 s (content_of r)
run_turn-Ends_example =
    run_turn-Ends healthy settings "key" files_only no_memory (message "hi") (session "a" []) 7

abbrev one_iteration : AgentSettings
one_iteration = record settings { max_tool_iterations = 1 }

abbrev started : List Message
started = say "system" "prompt" ∷ []

always_fits :
    AlwaysFits healthy one_iteration "key" files_only no_memory "hi" (session "a" started) 7
unfolding count_tokens with_retry as_i32
always_fits s h w = (tokens 10, refl, refl)

exceeds :
    content_of
      (run_turn healthy one_iteration "key" files_only no_memory
        (message "hi")
        (session "a" started)
        7).0.0
    ≡ err (max_iterations_exceeded 1)
unfolding run_turn iterate iteration proceed trim begin inject_prompt push_message trim_rest
    check_budget count_tokens with_retry ask answer complete react extract_tool_call captures
    leftmost chars match_here strip blank_line is_whitespace lazy_body split_once
exceeds = refl

-- The engine calls a tool, and no iteration is left for the answer.
run_turn-Restored_example :
    (run_turn healthy one_iteration "key" files_only no_memory
      (message "hi")
      (session "a" started)
      7).0.1.conversation_history
    ≡ started
run_turn-Restored_example =
    run_turn-Restored healthy one_iteration "key" files_only no_memory "hi" (session "a" started) 7
      always_fits (max_iterations_exceeded 1) exceeds

run_turn-StartsWithSystem_example :
    StartsWithSystem
      (run_turn healthy settings "key" files_only no_memory
        (message "hi")
        (session "a" greeted)
        7).0.1.conversation_history
run_turn-StartsWithSystem_example =
    run_turn-StartsWithSystem healthy settings "key" files_only no_memory "hi" (session "a" greeted)
      7 refl

length-run_turn-le_example :
    length
      (run_turn healthy settings "key" files_only no_memory
        (message "hi")
        (session "a" greeted)
        7).0.1.conversation_history
    ≤ 11
length-run_turn-le_example =
    length-run_turn-le healthy settings "key" files_only no_memory "hi" (session "a" greeted) 7

abbrev refusal : Status
refusal = record { code = unavailable; message = "busy" }

abbrev silent : Deps ℕ ℕ
silent = deps (err refusal)

first_count_fails :
    FirstCountFails silent settings "key" files_only no_memory "hi"
      (session "a" greeted)
      7
      (from_status refusal)
unfolding count_tokens with_retry
first_count_fails = refl

run_turn-Orphaned_example :
    let (r, s) =
      (run_turn silent settings "key" files_only no_memory
        (message "hi")
        (session "a" greeted)
        7).0 in
    (content_of r ≡ err (cognition_engine (from_status refusal)))
    × Orphaned silent settings "key" files_only no_memory "hi" (session "a" greeted) 7 s
run_turn-Orphaned_example =
    run_turn-Orphaned silent settings "key" files_only no_memory "hi" (session "a" greeted) 7
      (from_status refusal) first_count_fails (omega arith) (λ e. cc)

-- An engine that counts ten tokens for each message.
abbrev by_length : List Message → Io ℕ (Result CognitionError CountTokensResponse)
by_length h w = (ok (tokens (10 * length h)), suc w)

trimmed :
    (trim by_length (pos 25) greeted 0).0.1 ≡ say "system" "prompt" ∷ say "assistant" "hello" ∷ []
unfolding trim trim_rest check_budget
trimmed = refl

trim-Ends_example :
    Trims by_length (pos 25) greeted (trim by_length (pos 25) greeted 0).0.1
    × Stops by_length
        (pos 25)
        (trim by_length (pos 25) greeted 0).0.1
        (trim by_length (pos 25) greeted 0).0.0
trim-Ends_example = trim-Ends by_length (pos 25) greeted 0

-- A call that fails in the first two worlds.
abbrev flaky : Io ℕ (Result Status String)
flaky w = if ltb w 2 then (err refusal, suc w) else (ok "done", suc w)

abbrev no_sleep : ℕ → Io ℕ Unit
no_sleep ms w = (tt, w)

with_retry-Decides_example :
    (k : ℕ) × Decides no_sleep flaky 0 3 0 (with_retry no_sleep flaky 3 0) k
with_retry-Decides_example = with_retry-Decides no_sleep flaky 3 0 (omega arith)

retried : with_retry no_sleep flaky 3 0 ≡ (ok "done", 3)
unfolding with_retry
retried = refl

-- A required argument that is given, and an optional one with a default.
abbrev definition : ToolDefinition ℕ
definition = tool "files" (arg "path" true none ∷ arg "mode" false (some (string "r")) ∷ [])

accepted : validate_args serde definition "{}" ≡ ok (object (insert "mode" (string "r") path_args))
unfolding validate_args insert check_args check_arg get type_ok
accepted = refl

validate_args-Settled_example :
    (fs : Fields ℕ) × (fs' : Fields ℕ) × (serde.from_str "{}" ≡ ok (object fs))
    × (object (insert "mode" (string "r") path_args) ≡ object fs')
    × Extends serde fs fs'
    × All (Settled serde fs fs') definition.args
validate_args-Settled_example =
    validate_args-Settled serde definition "{}" (object (insert "mode" (string "r") path_args))
      accepted

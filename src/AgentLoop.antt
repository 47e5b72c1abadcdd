-- ===== src/AgentLoop.antt =====
-- orchestrator/src/agent_loop/mod.rs: one user turn. Everything outside the loop is `Deps`; the
-- session is passed on and returned, also with an error. Proofs are in the children.
pub mod Fence
pub mod Protocol
pub mod Prompt
pub mod Trim
pub mod Policy
pub mod Rule
pub mod History
pub mod Outcome
pub mod Rollback
pub mod Requests
pub mod WithRegistry
use ai_assistant.Prelude.{
  ℕ, zero, suc, ◌-◌, ◌/◌, String, ◌<>◌, Bool, true, false, List, [], ◌∷◌, Option, none, some, ℤ,
  pos, as_i32, Io, pure, ◌>>=◌, ◌>>◌, Result, ok, err, length, take,
}
use ai_assistant.Errors.{
  Code, CognitionError, ToolError, MemoryError, OrchestratorError, cognition_engine,
  max_iterations_exceeded, show_cognition, show_tool,
}
use ai_assistant.Config.{AgentSettings}
use ai_assistant.AccessControl.{AccessPolicy, allows_tool}
use ai_assistant.Proto.{Message, CompleteResponse, CountTokensResponse}
use ai_assistant.Cognition.{CognitionClient, complete, count_tokens}
use ai_assistant.Session.{
  Session, Clock, idle, processing, awaiting_tool_result, error, push_message,
}
use ai_assistant.Json.{Serde}
use ai_assistant.Tools.Definition.{ToolDefinition}
use Protocol.{ToolCall, ToolCallSyntax, args_json, extract_tool_call, format_tool_result}
use Prompt.{system_prompt}
use Trim.{trim}

pub data AgentRequest : Type 0 where
  message : String → AgentRequest

pub data AgentResponse : Type 0 where
  reply : String → AgentResponse

-- The registry's operations, the metrics' counters and the text of a status code.
pub record Deps (W N : Type 0) : Type 0 where
  pub clock : Clock W
  pub cognition : CognitionClient W
  pub serde : Serde N
  pub stx : ToolCallSyntax N
  pub execute : String → String → Io W (Result ToolError String)
  pub list_schemas : Io W (List (ToolDefinition N))
  pub tool_calls_total : String → String → Io W Unit
  pub tool_duration_ms : ℕ → String → Io W Unit
  pub show_code : Code → String

-- How an iteration of the loop ends: with the turn's result, or with `continue`.
pub data Verdict : Type 0 where
  finished : Result OrchestratorError String → Verdict
  again : Verdict

-- The memory store's `store_conversation`, if there is a store.
abbrev pub Memory : Type 0 → Type 0
Memory W = Option (String → List Message → Io W (Result MemoryError Unit))

module _ {W : Type 0} where
  -- A failure to persist is logged and no more.
  unfoldable pub persist : Memory W → Session → Io W Unit
  persist none s = pure tt
  persist (some store_conversation) s = do
    stored ← store_conversation s.session_id s.conversation_history
    pure tt

  abbrev pub respond :
      Memory W
      → Result OrchestratorError String × Session
      → Io W (Result OrchestratorError AgentResponse × Session)
  respond memory (err e, s) = pure (err e, s)
  respond memory (ok final_response, s) = do persist memory s; pure (ok (reply final_response), s)

-- `break` or `continue`.
abbrev pub resume :
    {W : Type 0}
    → (Session → Io W (Result OrchestratorError String × Session))
    → Verdict
    → Session
    → Io W (Result OrchestratorError String × Session)
resume continue (finished result) s = pure (result, s)
resume continue again s = continue s

module _ {W N : Type 0} (deps : Deps W N) (settings : AgentSettings) (auth_token : String)
    (policy : AccessPolicy) where
  open deps use {
    clock, cognition, serde, stx, execute, list_schemas, tool_calls_total, tool_duration_ms,
    show_code,
  }

  abbrev say : String → String → Session → Io W Session
  say = push_message clock

  abbrev denied_result : ToolCall N → String
  denied_result call =
      format_tool_result serde call.call_id "error"
        ("Access denied: tool '" <> call.tool <> "' is not permitted for this session.")

  -- Step 1: the system prompt before the user's message, on the first turn.
  unfoldable pub inject_prompt : Session → List Message → Io W Session
  inject_prompt s (m ∷ []) = do
    schemas ← list_schemas
    pure (record s {
      conversation_history =
          (record { role = "system"; content = system_prompt policy schemas }) ∷ m ∷ [];
    })
  inject_prompt s _ = pure s

  -- The result block of a tool that ran, and the metric.
  unfoldable pub report : ToolCall N → Result ToolError String → Io W String
  report call (ok output) = do
    tool_calls_total call.tool "ok"
    pure (format_tool_result serde call.call_id "ok" output)
  report call (err e) = do
    tool_calls_total call.tool "error"
    pure (format_tool_result serde call.call_id "error" (show_tool e))

  -- Step 4 for a call that the policy permits.
  unfoldable pub run_tool : ToolCall N → Session → Io W Session
  run_tool call s = do
    tool_start ← clock.now
    out ← execute call.tool (args_json serde call)
    tool_result ← report call out
    tool_end ← clock.now
    tool_duration_ms ((tool_end - tool_start) / 1_000_000) call.tool
    s' ← say "user" tool_result s
    pure (record s' { state = processing })

  -- Steps 3 and 4: what the access policy says of the tool decides.
  unfoldable pub use_tool : ToolCall N → String → Session → Bool → Io W Session
  use_tool call content s true = do
    s' ← say "assistant" content s
    run_tool call (record s' { state = awaiting_tool_result })
  use_tool call content s false = do
    tool_calls_total call.tool "denied"
    s' ← say "assistant" content s
    s'' ← say "user" (denied_result call) s'
    pure (record s'' { state = processing })

  -- Steps 3 to 5, on the tool call that was found in the engine's reply.
  unfoldable pub react : String → Session → Option (ToolCall N) → Io W (Verdict × Session)
  react content s (some call) = do
    s' ← use_tool call content s (allows_tool policy call.tool)
    pure (again, s')
  react content s none = do
    s' ← say "assistant" content s
    pure (finished (ok content), record s' { state = idle })

  -- What follows a call of `complete`: a failure cuts the history back to the checkpoint.
  unfoldable pub answer :
      ℕ → Session → Result CognitionError CompleteResponse → Io W (Verdict × Session)
  answer checkpoint s (err e) = pure (
    finished (err (cognition_engine e)),
    record s {
      conversation_history = take checkpoint s.conversation_history;
      state = error (show_cognition show_code e);
    },
  )
  answer checkpoint s (ok response) =
      react response.content s (extract_tool_call stx response.content)

  unfoldable pub ask : ℕ → Session → Io W (Verdict × Session)
  ask checkpoint s = do
    response ← complete cognition s.session_id auth_token s.conversation_history "" 0 (pos 0)
    answer checkpoint s response

  -- What follows the trimming: an error of the token count ends the turn at once.
  unfoldable pub proceed : ℕ → Session → Result CognitionError Unit → Io W (Verdict × Session)
  proceed checkpoint s (err e) = pure (finished (err (cognition_engine e)), s)
  proceed checkpoint s (ok _) = ask checkpoint s

  abbrev count : Session → List Message → Io W (Result CognitionError CountTokensResponse)
  count s history = count_tokens cognition s.session_id auth_token history "placeholder-model"

  -- One iteration of the loop.
  unfoldable pub iteration : ℕ → Session → Io W (Verdict × Session)
  iteration checkpoint s = do
    (trimmed, history) ← trim (count s) (as_i32 settings.max_context_tokens) s.conversation_history
    proceed checkpoint (record s { conversation_history = history }) trimmed

  -- The loop, with `left` = `max_tool_iterations - iteration`.
  unfoldable pub iterate : ℕ → ℕ → Session → Io W (Result OrchestratorError String × Session)
  iterate zero checkpoint s = pure (
    err (max_iterations_exceeded settings.max_tool_iterations),
    record s {
      state = error "max_iterations";
      conversation_history = take checkpoint s.conversation_history;
    },
  )
  iterate (suc left) checkpoint s = do
    (verdict, s') ← iteration checkpoint s
    resume (iterate left checkpoint) verdict s'

  -- The user's message in the history, and the state that the loop starts from.
  unfoldable pub begin : AgentRequest → Session → Io W Session
  begin (message msg) session = do
    s ← say "user" msg session
    inject_prompt (record s { state = processing }) s.conversation_history

  unfoldable pub run_turn :
      Memory W → AgentRequest → Session → Io W (Result OrchestratorError AgentResponse × Session)
  run_turn memory request session = do
    let checkpoint = length session.conversation_history
    s ← begin request session
    out ← iterate settings.max_tool_iterations checkpoint s
    respond memory out

-- ===== src/AgentLoop/Requests/Iteration.antt =====
-- How often an iteration of a turn of orchestrator/src/agent_loop/mod.rs calls the Cognition Engine.
use ai_assistant.Prelude.{
  ℕ, suc, ◌+◌, ◌*◌, ◌-◌, ◌/◌, ◌≤◌, String, ◌≡◌, Bool, true, false, List, Option, none, some, Io,
  Result, ok, err, as_i32, pos, length, length-concat_last, arith,
}
use ai_assistant.Errors.{MemoryError, CognitionError, ToolError}
use ai_assistant.Config.{AgentSettings}
use ai_assistant.AccessControl.{AccessPolicy, allows_tool}
use ai_assistant.Proto.{Message, CompleteRequest, CountTokensRequest, CompleteResponse}
use ai_assistant.Session.{Session, push_message, awaiting_tool_result}
use ai_assistant.Cognition.{complete, count_tokens}
use ai_assistant.Cognition.Cost.{cost-with_retry}
use ai_assistant.AgentLoop.Protocol.{ToolCall, args_json}
use ai_assistant.AgentLoop.Trim.{trim}
use ai_assistant.AgentLoop.Trim.Cost.{trim-Paid}
use ai_assistant.AgentLoop.{
  Deps, Memory, Verdict, finished, again, run_tool, denied_result, use_tool, react, answer, ask,
  proceed, count, report, iteration,
}

-- `requests` counts the requests that the engine's stub has sent: an attempt sends one, and
-- whatever else a turn calls sends none.
pub record Meter {W N : Type 0} (deps : Deps W N) (memory : Memory W) (requests : W → ℕ)
    : Type 0 where
  pub completing :
      (req : CompleteRequest) (w : W)
      → requests (deps.cognition.inner.complete req w).1 ≤ requests w + 1
  pub counting :
      (req : CountTokensRequest) (w : W)
      → requests (deps.cognition.inner.count_tokens req w).1 ≤ requests w + 1
  pub sleeping : (ms : ℕ) (w : W) → requests (deps.cognition.inner.sleep_ms ms w).1 ≤ requests w
  pub reading : (w : W) → requests (deps.clock.now w).1 ≤ requests w
  pub executing : (name args : String) (w : W) → requests (deps.execute name args w).1 ≤ requests w
  pub listing : (w : W) → requests (deps.list_schemas w).1 ≤ requests w
  pub tallying :
      (name status : String) (w : W) → requests (deps.tool_calls_total name status w).1 ≤ requests w
  pub timing :
      (ms : ℕ) (name : String) (w : W) → requests (deps.tool_duration_ms ms name w).1 ≤ requests w
  pub storing :
      (store : String → List Message → Io W (Result MemoryError Unit)) (id : String)
      (history : List Message) (w : W)
      → memory ≡ some store
      → requests (store id history w).1 ≤ requests w

module _ {W N : Type 0} (deps : Deps W N) (settings : AgentSettings) (auth_token : String)
    (policy : AccessPolicy) (memory : Memory W) (requests : W → ℕ)
    (meter : Meter deps memory requests) where
  -- The attempts that a call of the client may make.
  abbrev each : ℕ
  each = suc deps.cognition.settings.max_retries

  -- What has been sent, and a token count for each message of the history.
  abbrev pub budgeted : Session × W → ℕ
  budgeted (s, w) = requests w + each * length s.conversation_history

  -- A turn that goes on has the token counts ahead.
  abbrev pub spent : (Verdict × Session) × W → ℕ
  spent ((finished r, s), w) = requests w
  spent ((again, s), w) = budgeted (s, w)

  requests-count :
      (s : Session) (h : List Message) (w : W)
      → requests (count deps settings auth_token policy s h w).1 ≤ requests w + each
  unfolding count_tokens
  requests-count s h w =
      cost-with_retry _ _ requests (meter.counting _) meter.sleeping
        deps.cognition.settings.max_retries w

  requests-complete :
      (s : Session) (w : W)
      → requests
          (complete deps.cognition s.session_id auth_token s.conversation_history "" 0 (pos 0) w).1
        ≤ requests w + each
  unfolding complete
  requests-complete s w =
      cost-with_retry _ _ requests (meter.completing _) meter.sleeping
        deps.cognition.settings.max_retries w

  pub budgeted-push_message :
      (role content : String) (s : Session) (w : W)
      → budgeted (push_message deps.clock role content s w) ≤ budgeted (s, w) + each
  unfolding push_message
  budgeted-push_message role content s w =
      let longer =
        length-concat_last s.conversation_history (record { role = role; content = content }) in
      let total : each * length (push_message deps.clock role content s w).0.conversation_history
          ≡ each * length s.conversation_history + each =
        rw longer (grind arith) in
      omega (arith, meter.reading w, total)

  requests-report :
      (call : ToolCall N) (r : Result ToolError String) (w : W)
      → requests (report deps settings auth_token policy call r w).1 ≤ requests w
  unfolding report
  requests-report call (ok output) w = meter.tallying _ _ w
  requests-report call (err e) w = meter.tallying _ _ w

  budgeted-use_tool :
      (call : ToolCall N) (content : String) (s : Session) (b : Bool) (w : W)
      → budgeted (use_tool deps settings auth_token policy call content s b w)
        ≤ budgeted (s, w) + 2 * each
  unfolding use_tool run_tool
  budgeted-use_tool call content s true w =
      let (s1, w1) = push_message deps.clock "assistant" content s w in
      let w2 = (deps.clock.now w1).1 in
      let (out, w3) = deps.execute call.tool (args_json deps.serde call) w2 in
      let (result, w4) = report deps settings auth_token policy call out w3 in
      let w5 = (deps.clock.now w4).1 in
      let ms = ((deps.clock.now w4).0 - (deps.clock.now w1).0) / 1_000_000 in
      let w6 = (deps.tool_duration_ms ms call.tool w5).1 in
      omega (
        arith,
        budgeted-push_message "assistant" content s w,
        meter.reading w1,
        meter.executing call.tool (args_json deps.serde call) w2,
        requests-report call out w3,
        meter.reading w4,
        meter.timing ms call.tool w5,
        budgeted-push_message "user" result (record s1 { state = awaiting_tool_result }) w6,
      )
  budgeted-use_tool call content s false w =
      let w' = (deps.tool_calls_total call.tool "denied" w).1 in
      let (s1, w1) = push_message deps.clock "assistant" content s w' in
      omega (
        arith,
        meter.tallying call.tool "denied" w,
        budgeted-push_message "assistant" content s w',
        budgeted-push_message "user" (denied_result deps settings auth_token policy call) s1 w1,
      )

  spent-react :
      (content : String) (s : Session) (o : Option (ToolCall N)) (w : W)
      → spent (react deps settings auth_token policy content s o w) ≤ budgeted (s, w) + 2 * each
  unfolding react
  spent-react content s none w = omega (arith, budgeted-push_message "assistant" content s w)
  spent-react content s (some call) w =
      budgeted-use_tool call content s (allows_tool policy call.tool) w

  spent-answer :
      (checkpoint : ℕ) (s : Session) (response : Result CognitionError CompleteResponse) (w : W)
      → spent (answer deps settings auth_token policy checkpoint s response w)
        ≤ budgeted (s, w) + 2 * each
  unfolding answer
  spent-answer checkpoint s (err e) w = omega arith
  spent-answer checkpoint s (ok r) w = spent-react r.content s _ w

  spent-proceed :
      (checkpoint : ℕ) (s : Session) (r : Result CognitionError Unit) (w : W)
      → spent (proceed deps settings auth_token policy checkpoint s r w)
        ≤ budgeted (s, w) + 3 * each
  unfolding proceed ask
  spent-proceed checkpoint s (err e) w = omega arith
  spent-proceed checkpoint s (ok _) w =
      let (response, w') =
        complete deps.cognition s.session_id auth_token s.conversation_history "" 0 (pos 0) w in
      omega (arith, requests-complete s w, spent-answer checkpoint s response w')

  pub spent-iteration :
      (checkpoint : ℕ) (s : Session) (w : W)
      → spent (iteration deps settings auth_token policy checkpoint s w)
        ≤ budgeted (s, w) + 4 * each
  unfolding iteration
  spent-iteration checkpoint s w =
      let tokens = count deps settings auth_token policy s in
      let budget = as_i32 settings.max_context_tokens in
      let ((r, h), w') = trim tokens budget s.conversation_history w in
      omega (
        arith,
        trim-Paid tokens budget requests each (requests-count s) s.conversation_history w,
        spent-proceed checkpoint (record s { conversation_history = h }) r w',
      )

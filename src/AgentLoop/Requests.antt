-- ===== src/AgentLoop/Requests.antt =====
-- How often a turn of orchestrator/src/agent_loop/mod.rs calls the Cognition Engine.
pub mod Iteration
use ai_assistant.Prelude.{
  ℕ, zero, suc, ◌+◌, ◌*◌, ◌-◌, ◌/◌, ◌≤◌, String, ◌≡◌, refl, Bool, true, false, List, [], ◌∷◌,
  Option, none, some, Io, Result, ok, err, as_i32, pos, length, length-concat_last, arith,
}
use ai_assistant.Errors.{MemoryError, CognitionError, ToolError, OrchestratorError}
use ai_assistant.Config.{AgentSettings}
use ai_assistant.AccessControl.{AccessPolicy, allows_tool}
use ai_assistant.Proto.{Message, CompleteRequest, CountTokensRequest, CompleteResponse}
use ai_assistant.Session.{Session, push_message, awaiting_tool_result, processing}
use ai_assistant.Cognition.{complete, count_tokens}
use ai_assistant.Cognition.Cost.{cost-with_retry}
use ai_assistant.AgentLoop.Protocol.{ToolCall, args_json}
use ai_assistant.AgentLoop.Trim.{trim}
use ai_assistant.AgentLoop.Trim.Cost.{trim-Paid}
use ai_assistant.AgentLoop.{
  Deps, Memory, AgentRequest, message, Verdict, finished, again, resume, respond, persist, run_tool,
  denied_result, use_tool, react, answer, ask, proceed, count, report, iteration, iterate, begin,
  inject_prompt, run_turn,
}
use ai_assistant.AgentLoop.Requests.Iteration.{
  Meter, budgeted, spent, budgeted-push_message, spent-iteration,
}

module _ {W N : Type 0} (deps : Deps W N) (settings : AgentSettings) (auth_token : String)
    (policy : AccessPolicy) (memory : Memory W) (requests : W → ℕ)
    (meter : Meter deps memory requests) where
  abbrev tries : ℕ
  tries = suc deps.cognition.settings.max_retries

  abbrev planned : Session × W → ℕ
  planned = budgeted deps settings auth_token policy memory requests meter

  spent-resume :
      (n : ℕ) (k : Session → Io W (Result OrchestratorError String × Session))
      → ((s : Session) (w : W) → requests (k s w).1 ≤ planned (s, w) + n)
      → (v : Verdict) (s : Session) (w : W)
      → requests (resume k v s w).1
        ≤ spent deps settings auth_token policy memory requests meter ((v, s), w) + n
  spent-resume n k later (finished r) s w = omega arith
  spent-resume n k later again s w = later s w

  requests-iterate :
      (n checkpoint : ℕ) (s : Session) (w : W)
      → requests (iterate deps settings auth_token policy n checkpoint s w).1
        ≤ planned (s, w) + n * (4 * tries)
  unfolding iterate
  requests-iterate zero checkpoint s w = omega arith
  requests-iterate (suc n) checkpoint s w =
      let ((v, s'), w') = iteration deps settings auth_token policy checkpoint s w in
      let later = iterate deps settings auth_token policy n checkpoint in
      let total : suc n * (4 * tries) ≡ n * (4 * tries) + 4 * tries = grind arith in
      omega (
        arith,
        spent-iteration deps settings auth_token policy memory requests meter checkpoint s w,
        spent-resume (n * (4 * tries)) later (requests-iterate n checkpoint) v s' w',
        total,
      )

  requests-respond :
      (m : Memory W) (out : Result OrchestratorError String × Session) (w : W)
      → memory ≡ m
      → requests (respond m out w).1 ≤ requests w
  unfolding persist
  requests-respond m (err e, s) w same = omega arith
  requests-respond none (ok content, s) w same = omega arith
  requests-respond (some store) (ok content, s) w same =
      meter.storing store s.session_id s.conversation_history w same

  budgeted-inject_prompt :
      (s : Session) (h : List Message) (w : W)
      → s.conversation_history ≡ h
      → planned (inject_prompt deps settings auth_token policy s h w) ≤ planned (s, w) + tries
  unfolding inject_prompt
  budgeted-inject_prompt s [] w e = omega arith
  budgeted-inject_prompt s (m ∷ []) w e = rw e (omega (arith, meter.listing w))
  budgeted-inject_prompt s (m ∷ m' ∷ rest) w e = omega arith

  -- A turn ends after at most that many requests to the engine, of either kind: those that the client
  -- may make for one call, times four for each iteration that is allowed, one for each message of the
  -- history before the turn, and two more; if an attempt sends one request and nothing else that the
  -- turn calls sends any.
  pub requests-run_turn :
      (request : AgentRequest) (session : Session) (w : W)
      → requests (run_turn deps settings auth_token policy memory request session w).1
        ≤ requests w
          + suc deps.cognition.settings.max_retries
            * (4 * settings.max_tool_iterations + length session.conversation_history + 2)
  unfolding run_turn begin
  requests-run_turn (message msg) session w =
      let (s1, w1) = push_message deps.clock "user" msg session w in
      let s2 = record s1 { state = processing } in
      let (s3, w3) = inject_prompt deps settings auth_token policy s2 s1.conversation_history w1 in
      let checkpoint = length session.conversation_history in
      let (out, w4) =
        iterate deps settings auth_token policy settings.max_tool_iterations checkpoint s3 w3 in
      let total : tries * (4 * settings.max_tool_iterations + checkpoint + 2)
          ≡ settings.max_tool_iterations * (4 * tries) + tries * checkpoint + 2 * tries =
        grind arith in
      omega (
        arith,
        budgeted-push_message deps settings auth_token policy memory requests meter "user" msg
            session w,
        budgeted-inject_prompt s2 s1.conversation_history w1 refl,
        requests-iterate settings.max_tool_iterations checkpoint s3 w3,
        requests-respond memory out w4 refl,
        total,
      )

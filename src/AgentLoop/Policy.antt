-- ===== src/AgentLoop/Policy.antt =====
-- The access policy in the turn of orchestrator/src/agent_loop/mod.rs: the turn over two registries
-- that agree on the permitted tools.
use ai_assistant.Prelude.{
  ℕ, zero, suc, String, ◌≡◌, refl, ap, ◌∙◌, Bool, true, false, List, [], ◌∷◌, ok, err, Option, none,
  some, Io, Result, pos, as_i32,
}
use ai_assistant.Errors.{CognitionError, ToolError}
use ai_assistant.Config.{AgentSettings}
use ai_assistant.AccessControl.{AccessPolicy, allows_tool}
use ai_assistant.Proto.{Message, CompleteResponse}
use ai_assistant.Session.{Session, push_message, awaiting_tool_result, processing}
use ai_assistant.Cognition.{complete}
use ai_assistant.Tools.Definition.{ToolDefinition}
use ai_assistant.AgentLoop.Protocol.{ToolCall, args_json, extract_tool_call}
use ai_assistant.AgentLoop.Prompt.{visible, system_prompt, system_prompt-visible}
use ai_assistant.AgentLoop.Trim.{trim}
use ai_assistant.AgentLoop.{
  Deps, Memory, AgentRequest, message, Verdict, finished, again, answer, proceed, resume, count,
  report, run_tool, use_tool, react, ask, iteration, iterate, inject_prompt, begin, run_turn,
}

-- The same turn over another registry.
abbrev pub over :
    {W N : Type 0}
    → Deps W N
    → (String → String → Io W (Result ToolError String))
    → Io W (List (ToolDefinition N))
    → Deps W N
over deps execute list_schemas = record deps { execute = execute; list_schemas = list_schemas }

module _ {W N : Type 0} (deps : Deps W N) (settings : AgentSettings) (auth_token : String)
    (policy : AccessPolicy) (execute : String → String → Io W (Result ToolError String))
    (list_schemas : Io W (List (ToolDefinition N)))
    (same_execute : (tool args : String)
      → allows_tool policy tool ≡ true
      → deps.execute tool args ≡ execute tool args)
    (same_visible : (w : W)
      → visible policy (deps.list_schemas w).0 ≡ visible policy (list_schemas w).0)
    (same_world : (w : W) → (deps.list_schemas w).1 ≡ (list_schemas w).1) where
  abbrev other : Deps W N
  other = over deps execute list_schemas

  -- `d` is the turn's surroundings, and `o` the same over the other registry.
  abbrev Both : {A : Type 0} → (Deps W N → Io W A) → Type 0
  Both f = (w : W) → f deps w ≡ f other w

  report-over :
      (call : ToolCall N) (out : Result ToolError String)
      → Both (λ d. report d settings auth_token policy call out)
  unfolding report
  report-over call (ok output) w = refl
  report-over call (err e) w = refl

  run_tool-over :
      (call : ToolCall N) (s : Session)
      → allows_tool policy call.tool ≡ true
      → Both (λ d. run_tool d settings auth_token policy call s)
  unfolding run_tool
  run_tool-over call s allowed w =
      let e = same_execute call.tool (args_json deps.serde call) allowed in rw (e, report-over)

  use_tool-over :
      (call : ToolCall N) (content : String) (s : Session) (b : Bool)
      → allows_tool policy call.tool ≡ b
      → Both (λ d. use_tool d settings auth_token policy call content s b)
  unfolding use_tool
  use_tool-over call content s true allowed w =
      let (s', w') = push_message deps.clock "assistant" content s w in
      run_tool-over call (record s' { state = awaiting_tool_result }) allowed w'
  use_tool-over call content s false denied w = refl

  react-over :
      (content : String) (s : Session) (call : Option (ToolCall N))
      → Both (λ d. react d settings auth_token policy content s call)
  unfolding react
  react-over content s none w = refl
  react-over content s (some call) w =
      ap (λ r. ((again, r.0), r.1)) (use_tool-over call content s _ refl w)

  answer-over :
      (checkpoint : ℕ) (s : Session) (response : Result CognitionError CompleteResponse)
      → Both (λ d. answer d settings auth_token policy checkpoint s response)
  unfolding answer
  answer-over checkpoint s (err e) w = refl
  answer-over checkpoint s (ok r) w =
      react-over r.content s (extract_tool_call deps.stx r.content) w

  ask-over :
      (checkpoint : ℕ) (s : Session) → Both (λ d. ask d settings auth_token policy checkpoint s)
  unfolding ask
  ask-over checkpoint s w =
      let (r, w') =
        complete deps.cognition s.session_id auth_token s.conversation_history "" 0 (pos 0) w in
      answer-over checkpoint s r w'

  proceed-over :
      (checkpoint : ℕ) (s : Session) (r : Result CognitionError Unit)
      → Both (λ d. proceed d settings auth_token policy checkpoint s r)
  unfolding proceed
  proceed-over checkpoint s (err e) w = refl
  proceed-over checkpoint s (ok _) w = ask-over checkpoint s w

  iteration-over :
      (checkpoint : ℕ) (s : Session)
      → Both (λ d. iteration d settings auth_token policy checkpoint s)
  unfolding iteration
  iteration-over checkpoint s w =
      let ((r, history), w') =
        trim (count deps settings auth_token policy s) (as_i32 settings.max_context_tokens)
          s.conversation_history w in
      proceed-over checkpoint (record s { conversation_history = history }) r w'

  resume-over :
      (left checkpoint : ℕ) (v : Verdict) (s : Session)
      → Both (λ d. iterate d settings auth_token policy left checkpoint s)
      → Both (λ d. resume (iterate d settings auth_token policy left checkpoint) v s)
  resume-over left checkpoint (finished result) s later w = refl
  resume-over left checkpoint again s later w = later w

  iterate-over :
      (left checkpoint : ℕ) (s : Session)
      → Both (λ d. iterate d settings auth_token policy left checkpoint s)
  unfolding iterate
  iterate-over zero checkpoint s w = refl
  iterate-over (suc left) checkpoint s w =
      let ((v, s'), w') = iteration deps settings auth_token policy checkpoint s w in
      resume-over left checkpoint v s' (iterate-over left checkpoint s') w'
      ∙ ap (λ r. resume (iterate other settings auth_token policy left checkpoint) r.0.0 r.0.1 r.1)
          (iteration-over checkpoint s w)

  prompt-over :
      (w : W)
      → system_prompt policy (deps.list_schemas w).0 ≡ system_prompt policy (list_schemas w).0
  prompt-over w = system_prompt-visible policy _ _ (same_visible w)

  inject_prompt-over :
      (s : Session) (history : List Message)
      → Both (λ d. inject_prompt d settings auth_token policy s history)
  unfolding inject_prompt
  inject_prompt-over s (m ∷ []) w = rw (prompt-over w, same_world w)
  inject_prompt-over s _ w = refl

  begin-over :
      (request : AgentRequest) (s : Session)
      → Both (λ d. begin d settings auth_token policy request s)
  unfolding begin
  begin-over (message msg) s w =
      let (s', w') = push_message deps.clock "user" msg s w in
      inject_prompt-over (record s' { state = processing }) s'.conversation_history w'

  -- A turn is the same, in its result, its session and its effects, over any two registries that
  -- run the permitted tools alike and list the same permitted tools: no reply of the engine makes
  -- the turn execute a tool that the policy forbids, or name it in the system prompt.
  pub run_turn-over :
      (memory : Memory W) (request : AgentRequest) (session : Session) (w : W)
      → run_turn deps settings auth_token policy memory request session w
        ≡ run_turn other settings auth_token policy memory request session w
  unfolding run_turn
  run_turn-over memory request session w = rw (begin-over, iterate-over)

-- ===== src/AgentLoop/Rule.antt =====
-- An induction rule for the turn of orchestrator/src/agent_loop/mod.rs: what holds of the session
-- in each iteration, and what holds of the result and the session at the end.
use ai_assistant.Prelude.{
  ℕ, zero, suc, String, ◌≡◌, refl, Bool, true, false, List, Option, none, some, ℤ, pos, as_i32, Io,
  Result, ok, err, take, length,
}
use ai_assistant.Errors.{
  CognitionError, OrchestratorError, cognition_engine, max_iterations_exceeded, show_cognition,
}
use ai_assistant.Config.{AgentSettings}
use ai_assistant.AccessControl.{AccessPolicy, allows_tool}
use ai_assistant.Proto.{Message, CompleteResponse}
use ai_assistant.Cognition.{complete}
use ai_assistant.Session.{
  Session, SessionState, idle, awaiting_tool_result, processing, error, push_message,
}
use ai_assistant.AgentLoop.Protocol.{ToolCall, extract_tool_call}
use ai_assistant.AgentLoop.Trim.{trim}
use ai_assistant.AgentLoop.Trim.Laws.{Trims, Stops, trim-Ends}
use ai_assistant.AgentLoop.{
  Deps, Memory, AgentRequest, AgentResponse, reply, Verdict, finished, again, resume, respond,
  persist, run_tool, use_tool, react, answer, ask, proceed, count, iteration, iterate, begin,
  run_turn,
}

-- The result of the loop behind a turn's result.
abbrev pub content_of : Result OrchestratorError AgentResponse → Result OrchestratorError String
content_of (err e) = err e
content_of (ok (reply content)) = ok content

module _ {W N : Type 0} (deps : Deps W N) (settings : AgentSettings) (auth_token : String)
    (policy : AccessPolicy) where
  open deps use {clock}

  abbrev pub budget : ℤ
  budget = as_i32 settings.max_context_tokens

  abbrev pub said : String → String → Session → W → Session
  said role content s w = (push_message clock role content s w).0

  -- The trimming before a call of `complete` ended with this history.
  abbrev pub Ready : Session → Type 0
  Ready s = Stops (count deps settings auth_token policy s) budget s.conversation_history (ok tt)

  -- The engine's reply, at some time, to a completion of the messages `h` in the session.
  abbrev pub complete_of : Session → List Message → Io W (Result CognitionError CompleteResponse)
  complete_of s h = complete deps.cognition s.session_id auth_token h "" 0 (pos 0)

  abbrev pub Refused : Session → List Message → CognitionError → Type 0
  Refused s h e = (v : W) × ((complete_of s h v).0 ≡ err e)

  abbrev pub Replied : Session → List Message → String → Type 0
  Replied s h content =
      (v : W) × (r : CompleteResponse) × ((complete_of s h v).0 ≡ ok r) × (r.content ≡ content)

  -- `P n s`: the session is `s` and `n` iterations are left. `Q r s`: the loop ends with `r`. What
  -- the history was before an error of `complete` or of the loop's bound is cut at `checkpoint`.
  pub record Invariant (checkpoint : ℕ) (P : ℕ → Session → Type 0)
      (Q : Result OrchestratorError String → Session → Type 0) : Type 0 where
    pub trimmed :
        (n : ℕ) (s : Session) (h : List Message)
        → P n s
        → Trims (count deps settings auth_token policy s) budget s.conversation_history h
        → P n (record s { conversation_history = h })
    pub count_failed :
        (n : ℕ) (s : Session) (e : CognitionError)
        → P n s
        → Stops (count deps settings auth_token policy s) budget s.conversation_history (err e)
        → Q (err (cognition_engine e)) s
    pub complete_failed :
        (n : ℕ) (s : Session) (e : CognitionError)
        → P n s
        → Ready s
        → Refused s s.conversation_history e
        → Q (err (cognition_engine e)) (record s {
          conversation_history = take checkpoint s.conversation_history;
          state = error (show_cognition deps.show_code e);
        })
    pub exhausted :
        (s : Session)
        → P 0 s
        → Q (err (max_iterations_exceeded settings.max_tool_iterations)) (record s {
          state = error "max_iterations";
          conversation_history = take checkpoint s.conversation_history;
        })
    pub answered :
        (n : ℕ) (s : Session) (content : String) (w : W)
        → P (suc n) s
        → Ready s
        → extract_tool_call deps.stx content ≡ none
        → Replied s s.conversation_history content
        → Q (ok content) (record (said "assistant" content s w) { state = idle })
    pub used :
        (n : ℕ) (s : Session) (content result : String) (w w' : W)
        (st : SessionState → SessionState)
        → P (suc n) s
        → Ready s
        → let s' = said "assistant" content s w in
          P n (record (said "user" result (record s' { state = st s'.state }) w') {
            state = processing;
          })

  module _ {checkpoint : ℕ} {P : ℕ → Session → Type 0}
      {Q : Result OrchestratorError String → Session → Type 0}
      (inv : Invariant checkpoint P Q) where
    -- The verdict of an iteration that began with `suc n` left.
    abbrev Judged : ℕ → Verdict × Session → Type 0
    Judged n (finished r, s) = Q r s
    Judged n (again, s) = P n s

    use_tool-Keeps :
        (n : ℕ) (call : ToolCall N) (content : String) (s : Session) (b : Bool) (w : W)
        → P (suc n) s
        → Ready s
        → P n (use_tool deps settings auth_token policy call content s b w).0
    unfolding use_tool run_tool
    use_tool-Keeps n call content s true w p f =
        inv.used n s content _ w _ (λ _. awaiting_tool_result) p f
    use_tool-Keeps n call content s false w p f = inv.used n s content _ _ _ (λ st. st) p f

    react-Keeps :
        (n : ℕ) (content : String) (s : Session) (call : Option (ToolCall N)) (w : W)
        → extract_tool_call deps.stx content ≡ call
        → P (suc n) s
        → Ready s
        → Replied s s.conversation_history content
        → Judged n (react deps settings auth_token policy content s call w).0
    unfolding react
    react-Keeps n content s none w e p f c = inv.answered n s content w p f e c
    react-Keeps n content s (some call) w e p f c =
        use_tool-Keeps n call content s (allows_tool policy call.tool) w p f

    answer-Keeps :
        (n : ℕ) (s : Session) (response : Result CognitionError CompleteResponse) (w : W)
        → P (suc n) s
        → Ready s
        → (v : W) × ((complete_of s s.conversation_history v).0 ≡ response)
        → Judged n (answer deps settings auth_token policy checkpoint s response w).0
    unfolding answer
    answer-Keeps n s (err e) w p f c = inv.complete_failed (suc n) s e p f c
    answer-Keeps n s (ok r) w p f (v, c) = react-Keeps n r.content s _ w refl p f (v, r, c, refl)

    proceed-Keeps :
        (n : ℕ) (s : Session) (r : Result CognitionError Unit) (w : W)
        → P (suc n) s
        → Stops (count deps settings auth_token policy s) budget s.conversation_history r
        → Judged n (proceed deps settings auth_token policy checkpoint s r w).0
    unfolding proceed ask
    proceed-Keeps n s (err e) w p f = inv.count_failed (suc n) s e p f
    proceed-Keeps n s (ok _) w p f = answer-Keeps n s _ _ p f (w, refl)

    iteration-Keeps :
        (n : ℕ) (s : Session) (w : W)
        → P (suc n) s
        → Judged n (iteration deps settings auth_token policy checkpoint s w).0
    unfolding iteration
    iteration-Keeps n s w p =
        let tokens = count deps settings auth_token policy s in
        let ((r, h), w') = trim tokens budget s.conversation_history w in
        let (t, f) = trim-Ends tokens budget s.conversation_history w in
        proceed-Keeps n (record s { conversation_history = h }) r w' (inv.trimmed (suc n) s h p t) f

    abbrev Ended : Result OrchestratorError String × Session → Type 0
    Ended (r, s) = Q r s

    resume-Keeps :
        (n : ℕ) (k : Session → Io W (Result OrchestratorError String × Session))
        → ((s : Session) (w : W) → P n s → Ended (k s w).0)
        → (v : Verdict) (s : Session) (w : W) → Judged n (v, s)
        → Ended (resume k v s w).0
    resume-Keeps n k later (finished r) s w q = q
    resume-Keeps n k later again s w p = later s w p

    iterate-Keeps :
        (n : ℕ) (s : Session) (w : W)
        → P n s
        → Ended (iterate deps settings auth_token policy n checkpoint s w).0
    unfolding iterate
    iterate-Keeps zero s w p = inv.exhausted s p
    iterate-Keeps (suc n) s w p =
        let ((v, s'), w') = iteration deps settings auth_token policy checkpoint s w in
        resume-Keeps n (iterate deps settings auth_token policy n checkpoint) (iterate-Keeps n) v s'
          w' (iteration-Keeps n s w p)

    respond-Keeps :
        (memory : Memory W) (out : Result OrchestratorError String × Session) (w : W)
        → Ended out
        → let (r, s) = (respond memory out w).0 in Q (content_of r) s
    unfolding persist
    respond-Keeps memory (err e, s) w q = q
    respond-Keeps none (ok content, s) w q = q
    respond-Keeps (some store) (ok content, s) w q = q

  -- From the start of a turn to its end.
  pub run_turn-Keeps :
      {P : ℕ → Session → Type 0} {Q : Result OrchestratorError String → Session → Type 0}
      (memory : Memory W) (request : AgentRequest) (session : Session) (w : W)
      → Invariant (length session.conversation_history) P Q
      → P settings.max_tool_iterations (begin deps settings auth_token policy request session w).0
      → let (r, s) = (run_turn deps settings auth_token policy memory request session w).0 in
        Q (content_of r) s
  unfolding run_turn
  run_turn-Keeps memory request session w inv p =
      respond-Keeps inv memory _ _ (iterate-Keeps inv settings.max_tool_iterations _ _ p)

-- ===== src/AgentLoop/Outcome.antt =====
-- What the result of a turn of orchestrator/src/agent_loop/mod.rs says of the session after it.
use ai_assistant.Prelude.{
  ℕ, ◌≤◌, String, ◌≡◌, refl, List, [], ◌∷◌, ◌++◌, none, Result, ok, err, length, length-take, take,
  arith,
}
use ai_assistant.Errors.{
  CognitionError, OrchestratorError, cognition_engine, max_iterations_exceeded, show_cognition,
}
use ai_assistant.Config.{AgentSettings}
use ai_assistant.AccessControl.{AccessPolicy}
use ai_assistant.Proto.{Message}
use ai_assistant.Session.{Session, idle, processing, error, push_message, touch}
use ai_assistant.AgentLoop.Protocol.{extract_tool_call}
use ai_assistant.AgentLoop.{
  Deps, Memory, AgentRequest, message, begin, inject_prompt, count, run_turn,
}
use ai_assistant.AgentLoop.Rule.{Invariant, run_turn-Keeps, content_of, Refused, Replied}
use ai_assistant.AgentLoop.Rollback.{Stops-err}

module _ {W N : Type 0} (deps : Deps W N) (settings : AgentSettings) (auth_token : String)
    (policy : AccessPolicy) where
  -- A final answer: what the engine replied to exactly the messages before it, and no tool call. It
  -- is the last message, and the session is idle.
  pub record Answered (content : String) (s : Session) : Type 0 where
    pub is_idle : s.state ≡ idle
    pub no_call : extract_tool_call deps.stx content ≡ none
    pub earlier : List Message
    pub last :
        s.conversation_history ≡ earlier ++ (record { role = "assistant"; content = content }) ∷ []
    pub replied : Replied deps settings auth_token policy s earlier content

  -- How a turn that began with `n` messages can end.
  pub data Ends (n : ℕ) (s : Session) : Result OrchestratorError String → Type 0 where
    answered : {content : String} → Answered content s → Ends n s (ok content)
    exceeded :
        s.state ≡ error "max_iterations"
        → length s.conversation_history ≤ n
        → Ends n s (err (max_iterations_exceeded settings.max_tool_iterations))
    not_completed :
        {e : CognitionError} (h : List Message)
        → Refused deps settings auth_token policy s h e
        → s.state ≡ error (show_cognition deps.show_code e)
        → s.conversation_history ≡ take n h
        → Ends n s (err (cognition_engine e))
    not_counted :
        {e : CognitionError} (v : W)
        → (count deps settings auth_token policy s s.conversation_history v).0 ≡ err e
        → s.state ≡ processing
        → Ends n s (err (cognition_engine e))

  Invariant-Ends :
      (n : ℕ)
      → Invariant deps settings auth_token policy n
          (λ _ s. s.state ≡ processing)
          (λ r s. Ends n s r)
  unfolding push_message touch
  Invariant-Ends n = record {
    trimmed = λ _ s h p t. p;
    count_failed = λ _ s e p f. let (v, failed_at) = Stops-err _ _ f in not_counted v failed_at p;
    complete_failed = λ _ s e p f c. not_completed s.conversation_history c refl refl;
    exhausted = λ s p. exceeded refl (omega (arith, length-take n s.conversation_history));
    answered = λ _ s content w p f e c. answered (record {
      is_idle = refl;
      no_call = e;
      earlier = s.conversation_history;
      last = refl;
      replied = c;
    });
    used = λ _ s content result w w' st p f. refl;
  }

  inject_prompt-state :
      (s : Session) (h : List Message) (w : W)
      → (inject_prompt deps settings auth_token policy s h w).0.state ≡ s.state
  unfolding inject_prompt
  inject_prompt-state s (m ∷ []) w = refl
  inject_prompt-state s _ w = refl

  begin-state :
      (request : AgentRequest) (s : Session) (w : W)
      → (begin deps settings auth_token policy request s w).0.state ≡ processing
  unfolding begin
  begin-state (message msg) s w = inject_prompt-state _ _ _

  -- A turn returns an answer, or fails for its bound or for the engine. An answer is what the
  -- engine replied to exactly the messages before it, holds no tool call, stands last in the
  -- history and leaves the session idle. After a completion that the engine refused, the
  -- session's state is that error, and of the messages that were sent as many stay as the
  -- history had before the turn. After the bound the state says so, and the history is no
  -- longer than before the turn. After a token count of the history that the engine refused,
  -- the session is left processing with that history.
  pub run_turn-Ends :
      (memory : Memory W) (request : AgentRequest) (session : Session) (w : W)
      → let (r, s) = (run_turn deps settings auth_token policy memory request session w).0 in
        Ends (length session.conversation_history) s (content_of r)
  run_turn-Ends memory request session w =
      run_turn-Keeps deps settings auth_token policy memory request session w
        (Invariant-Ends (length session.conversation_history)) (begin-state request session w)

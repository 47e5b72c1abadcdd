-- ===== src/AgentLoop/Rollback.antt =====
-- What a failed turn of orchestrator/src/agent_loop/mod.rs leaves in the conversation history.
use ai_assistant.Prelude.{
  ℕ, zero, suc, ◌<◌, String, ◌≡◌, ◌≢◌, refl, true, false, List, [], ◌∷◌, ◌++◌, leb_ℤ, Result, ok,
  err, take, length, take-append_left, take-append_of_prefix, arith, Io, ℤ, subst, sym, ap, ◌∙◌,
}
use ai_assistant.Errors.{CognitionError, OrchestratorError, cognition_engine}
use ai_assistant.Config.{AgentSettings}
use ai_assistant.AccessControl.{AccessPolicy}
use ai_assistant.Proto.{Message, CountTokensResponse}
use ai_assistant.Session.{Session, processing, push_message, touch}
use ai_assistant.AgentLoop.Trim.Laws.{trim-failed, Trims, same, oldest, Stops, failed}
use ai_assistant.AgentLoop.Trim.{trim}
use ai_assistant.AgentLoop.{
  Verdict, finished, resume, respond, proceed, iteration, iterate, Deps, Memory, message, begin,
  inject_prompt, count, run_turn,
}
use ai_assistant.AgentLoop.Rule.{Invariant, run_turn-Keeps, content_of, budget as budget_of}

-- The error of a trimming is an error of a token count.
pub Stops-err :
    {W : Type 0} (count : List Message → Io W (Result CognitionError CountTokensResponse))
    (budget : ℤ) {h : List Message} {e : CognitionError}
    → Stops count budget h (err e)
    → (w : W) × ((count h w).0 ≡ err e)
Stops-err count budget (failed w e) = (w, e)

nil_of_single : (b : List Message) {m : Message} (u : Message) → m ∷ [] ≡ b ++ u ∷ [] → b ≡ []
nil_of_single [] u e = refl
nil_of_single (x ∷ []) u e = cc
nil_of_single (x ∷ y ∷ b) u e = cc

Trims-eq :
    {W : Type 0} (count : List Message → Io W (Result CognitionError CountTokensResponse))
    (budget : ℤ) {h h' : List Message}
    → ((g : List Message) (w : W) (c : CountTokensResponse)
        → (count g w).0 ≡ ok c
        → leb_ℤ c.token_count budget ≢ false)
    → Trims count budget h h'
    → h ≡ h'
Trims-eq count budget never same = refl
Trims-eq count budget never (oldest w c e above t) = absurd (never _ w c e above)

module _ {W N : Type 0} (deps : Deps W N) (settings : AgentSettings) (auth_token : String)
    (policy : AccessPolicy) (memory : Memory W) (msg : String) (session : Session) (w : W) where
  abbrev base : List Message
  base = session.conversation_history

  abbrev out : Result OrchestratorError String × Session
  out =
      let (r, s) = (run_turn deps settings auth_token policy memory (message msg) session w).0 in
      (content_of r, s)

  abbrev user : Message
  user = record { role = "user"; content = msg }

  abbrev tokens : Session → List Message → Io W (Result CognitionError CountTokensResponse)
  tokens = count deps settings auth_token policy

  -- Every token count succeeds, within the budget.
  abbrev pub AlwaysFits : Type 0
  AlwaysFits =
      (s : Session) (h : List Message) (w : W)
      → (c : CountTokensResponse) × ((tokens s h w).0 ≡ ok c)
        × (leb_ℤ c.token_count (budget_of deps settings auth_token policy) ≡ true)

  abbrev Kept : Session → Type 0
  Kept s = take (length base) s.conversation_history ≡ base

  abbrev Restored : Result OrchestratorError String → Session → Type 0
  Restored (ok content) s = Unit
  Restored (err e) s = s.conversation_history ≡ base

  never_above :
      AlwaysFits
      → (s : Session) (h : List Message) (w : W) (c : CountTokensResponse) → (tokens s h w).0 ≡ ok c
      → leb_ℤ c.token_count (budget_of deps settings auth_token policy) ≢ false
  never_above always s h w c e above =
      let (c', e', within) = always s h w in
      let same_count : c' ≡ c = ground (arith, e, e') in
      let clash : true ≡ false =
        sym within
        ∙ ap
            (λ (x : CountTokensResponse).
              leb_ℤ x.token_count (budget_of deps settings auth_token policy))
            same_count
        ∙ above in
      cc

  Invariant-Restored :
      AlwaysFits → Invariant deps settings auth_token policy (length base) (λ n s. Kept s) Restored
  unfolding push_message touch
  Invariant-Restored always = record {
    trimmed = λ n s h p t.
        subst (λ g. take (length base) g ≡ base) (Trims-eq _ _ (never_above always s) t) p;
    count_failed = λ n s e p f.
        let (w', failed_at) = Stops-err _ _ f in
        let (c, counted, _) = always s s.conversation_history w' in cc;
    complete_failed = λ n s e p f c. p;
    exhausted = λ s p. p;
    answered = λ n s content w p f e c. tt;
    used = λ n s content result w w' st p f.
        take-append_of_prefix base _ _ (take-append_of_prefix base s.conversation_history _ p);
  }

  inject_prompt-Kept :
      (s : Session) (h : List Message) (w : W)
      → s.conversation_history ≡ h
      → h ≡ base ++ user ∷ []
      → Kept (inject_prompt deps settings auth_token policy s h w).0
  unfolding inject_prompt
  inject_prompt-Kept s (m ∷ []) w e e' =
      subst (λ (b : List Message). (g : List Message) → take (length b) g ≡ b)
        (sym (nil_of_single base user e')) (λ g. refl) _
  inject_prompt-Kept s _ w e e' =
      subst (λ g. take (length base) g ≡ base) (sym (e ∙ e')) (take-append_left base (user ∷ []))

  begin-Kept : Kept (begin deps settings auth_token policy (message msg) session w).0
  unfolding begin push_message touch
  begin-Kept = inject_prompt-Kept _ _ _ refl refl

  -- If every token count succeeds within the budget, a failed turn leaves the history as it was.
  pub run_turn-Restored :
      AlwaysFits → (e : OrchestratorError) → out.0 ≡ err e → out.1.conversation_history ≡ base
  run_turn-Restored always e failure =
      let q =
        run_turn-Keeps deps settings auth_token policy memory (message msg) session w
          (Invariant-Restored always) begin-Kept in
      subst (λ r. Restored r out.1) failure q

  -- The session and the world in which the loop starts.
  abbrev pub begun : Session × W
  begun = begin deps settings auth_token policy (message msg) session w

  -- The engine refuses the turn's first token count with the error `e`.
  abbrev pub FirstCountFails : CognitionError → Type 0
  FirstCountFails e = (tokens begun.0 begun.0.conversation_history begun.1).0 ≡ err e

  -- The session in which such a turn stops: the user's message is still there.
  abbrev pub Orphaned : Session → Type 0
  Orphaned s = (s.conversation_history ≡ base ++ user ∷ []) × (s.state ≡ processing)

  inject_prompt-Orphaned :
      (s : Session) (h : List Message) (w : W)
      → base ≢ []
      → s.conversation_history ≡ h
      → h ≡ base ++ user ∷ []
      → s.state ≡ processing
      → Orphaned (inject_prompt deps settings auth_token policy s h w).0
  unfolding inject_prompt
  inject_prompt-Orphaned s (m ∷ []) w some_base e e' p =
      absurd (some_base (nil_of_single base user e'))
  inject_prompt-Orphaned s _ w some_base e e' p = (e ∙ e', p)

  begin-Orphaned :
      base ≢ [] → Orphaned (begin deps settings auth_token policy (message msg) session w).0
  unfolding begin push_message touch
  begin-Orphaned some_base = inject_prompt-Orphaned _ _ _ some_base refl refl refl

  iteration-failed :
      (checkpoint : ℕ) (s : Session) (w : W) (e : CognitionError)
      → (tokens s s.conversation_history w).0 ≡ err e
      → (iteration deps settings auth_token policy checkpoint s w).0
        ≡ (finished (err (cognition_engine e)), s)
  unfolding iteration proceed
  iteration-failed checkpoint s w e fails =
      let budget = budget_of deps settings auth_token policy in
      let trimmed = trim (tokens s) budget s.conversation_history w in
      ap
        (λ (o : Result CognitionError Unit × List Message).
          (proceed deps settings auth_token policy checkpoint
            (record s { conversation_history = o.1 }) o.0 trimmed.1).0)
        (trim-failed (tokens s) budget s.conversation_history w e fails)

  iterate-failed :
      (n checkpoint : ℕ) (s : Session) (w : W) (e : CognitionError)
      → 0 < n
      → (tokens s s.conversation_history w).0 ≡ err e
      → (iterate deps settings auth_token policy n checkpoint s w).0 ≡ (err (cognition_engine e), s)
  unfolding iterate
  iterate-failed zero checkpoint s w e some_left fails = absurd (omega (arith, some_left))
  iterate-failed (suc n) checkpoint s w e some_left fails =
      let later = iterate deps settings auth_token policy n checkpoint in
      let first = iteration deps settings auth_token policy checkpoint s w in
      ap (λ (o : Verdict × Session). (resume later o.0 o.1 first.1).0)
        (iteration-failed checkpoint s w e fails)

  -- In a conversation that has begun, a turn whose first token count fails returns that error and
  -- leaves the user's message at the end of the history, and the session in the state of processing.
  pub run_turn-Orphaned :
      (e : CognitionError)
      → FirstCountFails e
      → 0 < settings.max_tool_iterations
      → base ≢ []
      → (out.0 ≡ err (cognition_engine e)) × Orphaned out.1
  unfolding run_turn
  run_turn-Orphaned e fails some_left some_base =
      let limit = settings.max_tool_iterations in
      let after = iterate deps settings auth_token policy limit (length base) begun.0 begun.1 in
      let ended =
        ap
          (λ (o : Result OrchestratorError String × Session).
            let (r, s) = (respond memory o after.1).0 in (content_of r, s))
          (iterate-failed limit (length base) begun.0 begun.1 e some_left fails) in
      subst
        (λ (o : Result OrchestratorError String × Session).
          (o.0 ≡ err (cognition_engine e)) × Orphaned o.1)
        (sym ended) (refl, begin-Orphaned some_base)

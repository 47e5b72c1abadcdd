-- ===== src/AgentLoop/History.antt =====
-- The conversation history over a turn of orchestrator/src/agent_loop/mod.rs: its first message, its
-- growth, and what else of the session stays.
use ai_assistant.Prelude.{
  ℕ, zero, suc, ◌+◌, ◌*◌, ◌≤◌, String, ◌≡◌, refl, List, [], ◌∷◌, ◌++◌, Result, take, ℤ, Io, length,
  length-concat_last, length-take, arith,
}
use ai_assistant.Errors.{CognitionError}
use ai_assistant.Config.{AgentSettings}
use ai_assistant.AccessControl.{AccessPolicy}
use ai_assistant.Proto.{Message, CountTokensResponse}
use ai_assistant.Session.{Session, processing, push_message, touch}
use ai_assistant.AgentLoop.Trim.Laws.{Trims, same, oldest, Trims-length-le}
use ai_assistant.AgentLoop.{Deps, Memory, message, begin, inject_prompt, run_turn}
use ai_assistant.AgentLoop.Rule.{Invariant, run_turn-Keeps}

-- A history with a first message, and that message is the system prompt.
abbrev Headed : List Message → Type 0
Headed [] = ⊥
Headed (m ∷ rest) = m.role ≡ "system"

abbrev pub StartsWithSystem : List Message → Type 0
StartsWithSystem [] = Unit
StartsWithSystem (m ∷ rest) = m.role ≡ "system"

Headed-append : (h more : List Message) → Headed h → Headed (h ++ more)
Headed-append [] more p = absurd p
Headed-append (m ∷ h) more p = p

take-StartsWithSystem : (n : ℕ) (h : List Message) → Headed h → StartsWithSystem (take n h)
take-StartsWithSystem zero h p = tt
take-StartsWithSystem (suc n) [] p = tt
take-StartsWithSystem (suc n) (m ∷ h) p = p

weaken : (h : List Message) → Headed h → StartsWithSystem h
weaken [] p = tt
weaken (m ∷ h) p = p

Headed-Trims :
    {W : Type 0} {count : List Message → Io W (Result CognitionError CountTokensResponse)}
    {budget : ℤ} {h h' : List Message}
    → Trims count budget h h'
    → Headed h
    → Headed h'
Headed-Trims same p = p
Headed-Trims (oldest w c e above t) p = Headed-Trims t p

abbrev say : String → String → Message
say role content = record { role = role; content = content }

module _ {W N : Type 0} (deps : Deps W N) (settings : AgentSettings) (auth_token : String)
    (policy : AccessPolicy) (memory : Memory W) (msg : String) (session : Session) (w : W) where
  abbrev base : List Message
  base = session.conversation_history

  abbrev after : Session
  after = (run_turn deps settings auth_token policy memory (message msg) session w).0.1

  abbrev begun : Session
  begun = (begin deps settings auth_token policy (message msg) session w).0

  Invariant-Headed :
      Invariant deps settings auth_token policy
        (length base)
        (λ n s. Headed s.conversation_history)
        (λ r s. StartsWithSystem s.conversation_history)
  unfolding push_message touch
  Invariant-Headed = record {
    trimmed = λ n s h p t. Headed-Trims t p;
    count_failed = λ n s e p f. weaken s.conversation_history p;
    complete_failed = λ n s e p f c. take-StartsWithSystem (length base) s.conversation_history p;
    exhausted = λ s p. take-StartsWithSystem (length base) s.conversation_history p;
    answered = λ n s content w p f e c. weaken _ (Headed-append s.conversation_history _ p);
    used = λ n s content result w w' st p f.
        Headed-append _ _ (Headed-append s.conversation_history _ p);
  }

  begin-Headed : StartsWithSystem base → Headed begun.conversation_history
  unfolding begin inject_prompt push_message touch
  begin-Headed p = go base refl p
    where
      go : (h : List Message) → base ≡ h → StartsWithSystem h → Headed begun.conversation_history
      go [] e q = rw e refl
      go (m ∷ []) e q = rw e q
      go (m ∷ m' ∷ rest) e q = rw e q

  -- Where a session's history is empty or starts with the system prompt, it is so after a turn too,
  -- whatever the turn's result.
  pub run_turn-StartsWithSystem :
      StartsWithSystem base → StartsWithSystem after.conversation_history
  run_turn-StartsWithSystem p =
      run_turn-Keeps deps settings auth_token policy memory (message msg) session w Invariant-Headed
        (begin-Headed p)

  abbrev limit : ℕ
  limit = length base + 2 + 2 * settings.max_tool_iterations

  Invariant-length :
      Invariant deps settings auth_token policy
        (length base)
        (λ n s. length s.conversation_history + 2 * n ≤ limit)
        (λ r s. length s.conversation_history ≤ limit)
  unfolding push_message touch
  Invariant-length = record {
    trimmed = λ n s h p t. omega (arith, Trims-length-le _ _ t);
    count_failed = λ n s e p f. omega arith;
    complete_failed =
        λ n s e p f c. omega (arith, length-take (length base) s.conversation_history);
    exhausted = λ s p. omega (arith, length-take (length base) s.conversation_history);
    answered = λ n s content w p f e c.
        omega (arith, length-concat_last s.conversation_history (say "assistant" content));
    used = λ n s content result w w' st p f. omega (
      arith,
      length-concat_last s.conversation_history (say "assistant" content),
      length-concat_last (s.conversation_history ++ say "assistant" content ∷ [])
          (say "user" result),
    );
  }

  abbrev injected : Session → List Message → W → Session
  injected s h w = (inject_prompt deps settings auth_token policy s h w).0

  length-inject_prompt-le :
      (s : Session) (h : List Message) (w : W)
      → s.conversation_history ≡ h
      → length (injected s h w).conversation_history ≤ length h + 1
  unfolding inject_prompt
  length-inject_prompt-le s [] w e = rw e (omega arith)
  length-inject_prompt-le s (m ∷ []) w e = omega arith
  length-inject_prompt-le s (m ∷ m' ∷ rest) w e = rw e (omega arith)

  length-begin : length begun.conversation_history ≤ length base + 2
  unfolding begin push_message touch
  length-begin =
      let s = (push_message deps.clock "user" msg session w).0 in
      omega (
        arith,
        length-inject_prompt-le (record s { state = processing }) s.conversation_history
            (push_message deps.clock "user" msg session w).1 refl,
        length-concat_last base (say "user" msg),
      )

  -- A turn adds at most two messages for each iteration that is allowed, and two more: the user's
  -- message and, on the first turn, the system prompt.
  pub length-run_turn-le : length after.conversation_history ≤ limit
  length-run_turn-le =
      run_turn-Keeps deps settings auth_token policy memory (message msg) session w Invariant-length
        (omega (arith, length-begin))

  -- What of a session no turn changes.
  abbrev SameSession : Session → Type 0
  SameSession s =
      (s.session_id ≡ session.session_id)
      × (s.created_at ≡ session.created_at)
      × (s.metadata ≡ session.metadata)

  Invariant-SameSession :
      Invariant deps settings auth_token policy
        (length base)
        (λ n s. SameSession s)
        (λ r s. SameSession s)
  unfolding push_message touch
  Invariant-SameSession = record {
    trimmed = λ n s h p t. p;
    count_failed = λ n s e p f. p;
    complete_failed = λ n s e p f c. p;
    exhausted = λ s p. p;
    answered = λ n s content w p f e c. p;
    used = λ n s content result w w' st p f. p;
  }

  inject_prompt-SameSession :
      (s : Session) (h : List Message) (w : W) → SameSession s → SameSession (injected s h w)
  unfolding inject_prompt
  inject_prompt-SameSession s (m ∷ []) w p = p
  inject_prompt-SameSession s _ w p = p

  begin-SameSession : SameSession begun
  unfolding begin push_message touch
  begin-SameSession = inject_prompt-SameSession _ _ _ (refl, refl, refl)

  -- A turn leaves the session's identifier, its time of creation and its metadata as they were.
  pub run_turn-SameSession : SameSession after
  run_turn-SameSession =
      run_turn-Keeps deps settings auth_token policy memory (message msg) session w
        Invariant-SameSession begin-SameSession

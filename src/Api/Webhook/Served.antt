-- ===== src/Api/Webhook/Served.antt =====
-- What the answer of `POST /webhook` (orchestrator/src/api/webhook.rs) says of the session store.
use ai_assistant.Prelude.{
  ℕ, String, ◌≡◌, ◌≢◌, refl, inl, inr, Bool, true, false, Option, none, some, Result, ok, err,
  is_some, arith, Bool-cases, Option-cases, get_elem?-set_self,
}
use ai_assistant.Errors.{OrchestratorError, show_error}
use ai_assistant.AccessControl.{ValidatedUser}
use ai_assistant.Session.{Session, Cell, SessionStore, get, deref, write_back}
use ai_assistant.AgentLoop.{AgentResponse, reply, message}
use ai_assistant.AgentLoop.Outcome.{Answered, Ends, answered, run_turn-Ends}
use ai_assistant.AgentLoop.Rule.{content_of}
use ai_assistant.Api.Types.{UserMessage, AgentReply, ErrorResponse, error_response}
use ai_assistant.Api.Webhook.{
  WebhookState, agent_reply, failure, Response, user_or_default, respond_with, resume_or_create,
  resolve, locked_turn, turn, locate, admit, webhook_handler,
}
use ai_assistant.Api.Webhook.Laws.{resolve-found}

module _ {W N : Type 0} (state : WebhookState W N) where
  open state use {deps, memory, rate_limiter, agent, new_v4}

  -- The session that a reply names is in the store, unlocked and idle, and the reply is the last
  -- message of its history and no tool call.
  pub record Kept (user : ValidatedUser) (rep : AgentReply) (st : SessionStore) : Type 0 where
    pub address : ℕ
    pub cell : Cell
    pub found : get rep.session_id st ≡ some address
    pub at : deref address st ≡ some cell
    pub unlocked : cell.locked ≡ false
    pub answer : Answered deps agent user.token user.policy rep.content cell.session

  -- A cell that another task has locked, or none at all.
  abbrev pub Unavailable : Option Cell → Type 0
  Unavailable none = Unit
  Unavailable (some c) = c.locked ≡ true

  -- A response with the identifier of its session.
  pub data Served (user : ValidatedUser) (id : String) (st : SessionStore)
      : Option Response → Type 0 where
    replied :
        (rep : AgentReply)
        → rep.session_id ≡ id
        → Kept user rep st
        → Served user id st (some (record { status = 200; body = agent_reply rep }))
    failed :
        {status : ℕ} {e : ErrorResponse}
        → status ≢ 200
        → e.session_id ≡ none
        → Served user id st (some (record { status = status; body = failure e }))
    waits : (a : ℕ) → get id st ≡ some a → Unavailable (deref a st) → Served user id st none

  Ends-Answered :
      {n : ℕ} {user : ValidatedUser} {s : Session} {content : String}
      → Ends deps agent user.token user.policy n s (ok content)
      → Answered deps agent user.token user.policy content s
  Ends-Answered (answered a) = a

  respond-Served :
      (user : ValidatedUser) (id : String) (a : ℕ) (c d : Cell) (st : SessionStore) (n : ℕ)
      (r : Result OrchestratorError AgentResponse)
      → get id st ≡ some a
      → deref a st ≡ some c
      → d.locked ≡ false
      → Ends deps agent user.token user.policy n d.session (content_of r)
      → Served user id (write_back a d st) (some (respond_with (show_error deps.show_code) id r))
  unfolding get deref write_back error_response
  respond-Served user id a c d st n (ok (reply content)) found at free e = replied _ refl (record {
    address = a;
    cell = d;
    found = found;
    at = get_elem?-set_self st.cells a d at;
    unlocked = free;
    answer = Ends-Answered e;
  })
  respond-Served user id a c d st n (err e) found at free h = failed (omega arith) refl

  turn-Served :
      (start : ℕ) (payload : UserMessage) (user : ValidatedUser) (id : String) (a : ℕ)
      (o : Option Cell) (st : SessionStore) (w : W)
      → get id st ≡ some a
      → deref a st ≡ o
      → let (r, st') = (turn state start payload user id a o st w).0 in Served user id st' r
  unfolding turn locked_turn
  turn-Served start payload user id a none st w found at = waits a found (rw at tt)
  turn-Served start payload user id a (some c) st w found at = elim (Bool-cases c.locked) [
    | inl held ↦ rw held (waits a found (rw at held))
    | inr free ↦ rw free (
        respond-Served user id a c _ st _ _ found at refl (
          run_turn-Ends deps agent user.token user.policy memory (message payload.message) c.session
            w))
  ]

  locate-Served :
      (start : ℕ) (payload : UserMessage) (user : ValidatedUser) (id : String) (st : SessionStore)
      (w : W)
      → is_some (get id st) ≡ true
      → let (r, st') = (locate state start payload user id (get id st) st w).0 in
        Served user id st' r
  unfolding locate
  locate-Served start payload user id st w there = elim (Option-cases (get id st)) [
    | inl absent ↦ cc
    | inr (a, found) ↦ rw found (turn-Served start payload user id a (deref a st) st w found refl)
  ]

  admit-Served :
      (start : ℕ) (payload : UserMessage) (user : ValidatedUser) (id : String) (allowed : Bool)
      (st : SessionStore) (w : W)
      → is_some (get id st) ≡ true
      → let (r, st') = (admit state start payload user id allowed st w).0 in Served user id st' r
  unfolding admit error_response
  admit-Served start payload user id false st w there = failed (omega arith) refl
  admit-Served start payload user id true st w there =
      locate-Served start payload user id st w there

  -- The identifier of a session that the client names and that is there.
  abbrev pub Resumes : Option String → SessionStore → String → Type 0
  Resumes none st id = Unit
  Resumes (some named) st id = is_some (get named st) ≡ true → id ≡ named

  resume_or_create-Resumes :
      (named : String) (b : Bool) (st : SessionStore) (w : W)
      → b ≡ true
      → (resume_or_create state named b st w).0.0 ≡ named
  unfolding resume_or_create
  resume_or_create-Resumes named true st w e = refl
  resume_or_create-Resumes named false st w e = cc

  resolve-Resumes :
      (o : Option String) (st : SessionStore) (w : W) → Resumes o st (resolve state o st w).0.0
  unfolding resolve
  resolve-Resumes none st w = tt
  resolve-Resumes (some named) st w =
      λ e. resume_or_create-Resumes named (is_some (get named st)) st w e

  -- A request is answered for one session: the one that the client names, if it is there. A reply has
  -- the status 200 and that session's identifier; in the store the session is unlocked and idle, and
  -- the reply is the last message of its history and no tool call. An error has another status and
  -- names no session. There is no answer only where another task holds the session's lock or the
  -- session's cell is not there.
  pub webhook_handler-Served :
      (user : Option ValidatedUser) (payload : UserMessage) (st : SessionStore) (w : W)
      → let (r, st') = (webhook_handler state user payload st w).0 in
        (id : String) × Resumes payload.session_id st id × Served (user_or_default user) id st' r
  unfolding webhook_handler
  webhook_handler-Served user payload st w = (
    _,
    resolve-Resumes payload.session_id st _,
    admit-Served _ payload (user_or_default user) _ _ _ _
        (resolve-found state payload.session_id st _),
  )

-- ===== src/Api/Webhook.antt =====
-- orchestrator/src/api/webhook.rs: `POST /webhook`. The handler acts on the session store; the turn
-- is that of the agent loop. Laws are in the children.
pub mod Laws
pub mod Failures
pub mod Served
use ai_assistant.Prelude.{
  ℕ, ◌-◌, ◌/◌, String, Bool, true, false, List, [], Option, none, some, ℤ, pos, Io, pure, ◌>>=◌,
  ◌>>◌, Result, ok, err, is_some, if◌then◌else◌,
}
use ai_assistant.Errors.{OrchestratorError, show_error}
use ai_assistant.Config.{AgentSettings}
use ai_assistant.AccessControl.{ValidatedUser, allow_all}
use ai_assistant.Session.{Clock, Session, Cell, SessionStore, create, get, deref, write_back}
use ai_assistant.AgentLoop.{Deps, Memory, AgentResponse, reply, message, run_turn}
use ai_assistant.Api.Types.{UserMessage, AgentReply, ErrorResponse, error_response}
use ai_assistant.Api.RateLimit.{Limiter, check}

-- The body of a response, before it is printed as JSON.
pub data Body : Type 0 where
  agent_reply : AgentReply → Body
  failure : ErrorResponse → Body

pub record Response : Type 0 where
  pub status : ℕ
  pub body : Body

-- `WebhookState` and what the handler calls besides: the metrics and the generator of identifiers.
pub record WebhookState (W N : Type 0) : Type 0 where
  pub deps : Deps W N
  pub memory : Memory W
  pub rate_limiter : Option (Limiter W)
  pub agent : AgentSettings
  pub new_v4 : Io W String
  pub requests_total : Io W Unit
  pub request_duration_ms : ℕ → Io W Unit

-- The user of the auth middleware, or one with all rights.
unfoldable pub user_or_default : Option ValidatedUser → ValidatedUser
user_or_default (some user) = user
user_or_default none = record { token = ""; policy = allow_all }

abbrev pub respond_with :
    (OrchestratorError → String) → String → Result OrchestratorError AgentResponse → Response
respond_with to_string session_id (ok (reply content)) = record {
  status = 200;
  body = agent_reply (record {
    session_id = session_id;
    content = content;
    model_used = "";
    input_tokens = pos 0;
    output_tokens = pos 0;
  });
}
respond_with to_string session_id (err e) = record {
  status = 500;
  body = failure (error_response "agent_error" (to_string e));
}

abbrev rate_limited : Response
rate_limited = record {
  status = 429;
  body = failure (error_response "rate_limited" "Too many requests — please slow down.");
}

abbrev session_error : Response
session_error = record {
  status = 500;
  body = failure (error_response "session_error" "Could not create session");
}

module _ {W N : Type 0} (state : WebhookState W N) where
  open state use {deps, memory, rate_limiter, agent, new_v4, requests_total, request_duration_ms}

  abbrev clock : Clock W
  clock = deps.clock

  unfoldable pub resume_or_create : String → Bool → SessionStore → Io W (String × SessionStore)
  resume_or_create id true st = pure (id, st)
  resume_or_create id false st = create clock new_v4 [] st

  -- The session that the client names, if it is there, or a new one.
  unfoldable pub resolve : Option String → SessionStore → Io W (String × SessionStore)
  resolve none st = create clock new_v4 [] st
  resolve (some id) st = resume_or_create id (is_some (get id st)) st

  -- The turn with the lock held, and the session written back.
  unfoldable pub locked_turn :
      ℕ
      → UserMessage
      → ValidatedUser
      → String
      → ℕ
      → Cell
      → SessionStore
      → Io W (Option Response × SessionStore)
  locked_turn start payload user session_id a c st = do
    (result, session) ←
        run_turn deps agent user.token user.policy memory (message payload.message) c.session
    end ← clock.now
    request_duration_ms ((end - start) / 1_000_000)
    pure (
      some (respond_with (show_error deps.show_code) session_id result),
      write_back a (record { session = session; locked = false }) st,
    )

  -- `arc.lock()` on the cell behind `a`. `none` is the handler that waits, since another task holds
  -- the lock.
  unfoldable pub turn :
      ℕ
      → UserMessage
      → ValidatedUser
      → String
      → ℕ
      → Option Cell
      → SessionStore
      → Io W (Option Response × SessionStore)
  turn start payload user session_id a none st = pure (none, st)
  turn start payload user session_id a (some c) st =
      if c.locked then pure (none, st) else locked_turn start payload user session_id a c st

  unfoldable pub locate :
      ℕ
      → UserMessage
      → ValidatedUser
      → String
      → Option ℕ
      → SessionStore
      → Io W (Option Response × SessionStore)
  locate start payload user session_id none st = pure (some session_error, st)
  locate start payload user session_id (some a) st =
      turn start payload user session_id a (deref a st) st

  unfoldable pub admit :
      ℕ
      → UserMessage
      → ValidatedUser
      → String
      → Bool
      → SessionStore
      → Io W (Option Response × SessionStore)
  admit start payload user session_id false st = pure (some rate_limited, st)
  admit start payload user session_id true st =
      locate start payload user session_id (get session_id st) st

  unfoldable pub webhook_handler :
      Option ValidatedUser → UserMessage → SessionStore → Io W (Option Response × SessionStore)
  webhook_handler user payload st = do
    start ← clock.now
    requests_total
    (session_id, st') ← resolve payload.session_id st
    allowed ← check rate_limiter session_id
    admit start payload (user_or_default user) session_id allowed st'

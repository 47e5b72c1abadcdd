-- ===== src/Api/WebSocket.antt =====
-- orchestrator/src/api/ws.rs: one connection to `/ws`. What `receiver.next()` gives, in order, is the
-- list of frames; those that arrive while a turn runs are its next ones. Laws are in the children.
pub mod Store
pub mod Protocol
pub mod Sends
pub mod Follows
pub mod Waits
pub mod Live
use ai_assistant.Prelude.{
  ℕ, zero, suc, ◌-◌, ◌/◌, String, Bool, true, false, List, [], ◌∷◌, ◌++◌, Option, none, some, pos,
  Io, pure, ◌>>=◌, ◌>>◌, Result, ok, err, length, if◌then◌else◌,
}
use ai_assistant.Errors.{OrchestratorError, show_error}
use ai_assistant.AccessControl.{ValidatedUser}
use ai_assistant.Session.{Session, Cell, SessionStore, get, deref, write_back}
use ai_assistant.AgentLoop.{AgentResponse, reply, message, run_turn}
use ai_assistant.Api.Types.{UserMessage, error_response, with_session}
use ai_assistant.Api.RateLimit.{check}
use ai_assistant.Api.Webhook.{WebhookState, Body, agent_reply, failure, user_or_default, resolve}

pub data WsMessage : Type 0 where
  text binary ping pong : String → WsMessage
  close : WsMessage

-- `none` is the end of the stream.
abbrev pub Inbound : Type 0
Inbound = Option (Result String WsMessage)

-- The socket, what serde_json does with the texts, and what a turn that is dropped at one of its
-- awaits leaves of its session. `arriving` is how many frames come while a turn runs.
pub record Socket (W : Type 0) : Type 0 where
  pub accepts : WsMessage → Io W Bool
  pub arriving : Io W ℕ
  pub dropped : Session → Io W Session
  pub from_str : String → Result String UserMessage
  pub to_string : Body → Option String

-- The store, and all that was handed to `sender.send`.
pub record Conn : Type 0 where
  pub store : SessionStore
  pub sent : List WsMessage

-- Whether the handler goes on, has returned, or waits for a session that another task has locked.
pub data Flow : Type 0 where
  going returned waiting out_of_fuel : Flow

pub record Outcome : Type 0 where
  pub flow : Flow
  pub rest : List Inbound
  pub conn : Conn

abbrev pub go_on : List Inbound → Conn → Outcome
go_on rest conn = record { flow = going; rest = rest; conn = conn }

abbrev pub return : List Inbound → Conn → Outcome
return rest conn = record { flow = returned; rest = rest; conn = conn }

abbrev pub wait : List Inbound → Conn → Outcome
wait rest conn = record { flow = waiting; rest = rest; conn = conn }

abbrev pub offer : WsMessage → Conn → Conn
offer m conn = record conn { sent = conn.sent ++ m ∷ [] }

unfoldable pub reply_body :
    (OrchestratorError → String) → String → Result OrchestratorError AgentResponse → Body
reply_body show session_id (ok (reply content)) = agent_reply (record {
  session_id = session_id;
  content = content;
  model_used = "";
  input_tokens = pos 0;
  output_tokens = pos 0;
})
reply_body show session_id (err e) =
    failure (with_session (error_response "agent_error" (show e)) session_id)

abbrev pub or_default : Option String → String
or_default (some s) = s
or_default none = ""

module _ {W N : Type 0} (state : WebhookState W N) (socket : Socket W) where
  open state use {deps, memory, rate_limiter, agent, requests_total, request_duration_ms}
  open socket use {accepts, arriving, dropped, from_str, to_string}

  abbrev pub on_sent : Bool → List Inbound → (Conn → Io W Outcome) → Conn → Io W Outcome
  on_sent true rest k conn = k conn
  on_sent false rest k conn = pure (return rest conn)

  -- A failed send ends the handler.
  unfoldable pub send : WsMessage → List Inbound → (Conn → Io W Outcome) → Conn → Io W Outcome
  send m rest k conn = do sent ← accepts m; on_sent sent rest k (offer m conn)

  abbrev pub printed : Body → WsMessage
  printed body = text (or_default (to_string body))

  unfoldable pub send_body : Body → List Inbound → Conn → Io W Outcome
  send_body body rest conn = send (printed body) rest (λ c. pure (go_on rest c)) conn

  -- The `select!` loop: `n` frames come before the turn is done. A text is passed over.
  unfoldable pub drain : ℕ → List Inbound → Conn → Io W Outcome
  drain zero rest conn = pure (go_on rest conn)
  drain (suc n) [] conn = pure (go_on [] conn)
  drain (suc n) (none ∷ rest) conn = pure (return rest conn)
  drain (suc n) (some (err e) ∷ rest) conn = pure (return rest conn)
  drain (suc n) (some (ok (ping bytes)) ∷ rest) conn = send (pong bytes) rest (drain n rest) conn
  drain (suc n) (some (ok close) ∷ rest) conn = pure (return rest conn)
  drain (suc n) (some (ok (text t)) ∷ rest) conn = drain n rest conn
  drain (suc n) (some (ok (binary b)) ∷ rest) conn = drain n rest conn
  drain (suc n) (some (ok (pong p)) ∷ rest) conn = drain n rest conn

  module _ (user : ValidatedUser) where
    -- The turn is done.
    unfoldable pub complete_turn :
        ℕ → UserMessage → String → ℕ → Cell → List Inbound → Conn → Io W Outcome
    complete_turn start user_msg session_id a c rest conn = do
      (result, session) ←
          run_turn deps agent user.token user.policy memory (message user_msg.message) c.session
      end ← deps.clock.now
      request_duration_ms ((end - start) / 1_000_000)
      send_body (reply_body (show_error deps.show_code) session_id result) rest (record conn {
        store = write_back a (record { session = session; locked = false }) conn.store;
      })

    -- The handler returns while the turn runs: the turn is dropped, and the lock with it.
    unfoldable pub drop_turn : ℕ → Cell → List Inbound → Conn → Io W Outcome
    drop_turn a c rest conn = do
      session ← dropped c.session
      pure (
          return rest (record conn {
            store = write_back a (record { session = session; locked = false }) conn.store;
          }))

    unfoldable pub race :
        ℕ → UserMessage → String → ℕ → Cell → Flow → List Inbound → Conn → Io W Outcome
    race start user_msg session_id a c going rest conn =
        complete_turn start user_msg session_id a c rest conn
    race start user_msg session_id a c _ rest conn = drop_turn a c rest conn

    -- What the turn does is put after what the frames do that come while it runs.
    unfoldable pub locked_turn :
        ℕ → UserMessage → String → ℕ → Cell → List Inbound → Conn → Io W Outcome
    locked_turn start user_msg session_id a c rest conn = do
      n ← arriving
      drained ← drain n rest conn
      race start user_msg session_id a c drained.flow drained.rest drained.conn

    unfoldable pub turn :
        ℕ → UserMessage → String → ℕ → Option Cell → List Inbound → Conn → Io W Outcome
    turn start user_msg session_id a none rest conn = pure (wait rest conn)
    turn start user_msg session_id a (some c) rest conn =
        if c.locked
        then pure (wait rest conn)
        else locked_turn start user_msg session_id a c rest conn

    unfoldable pub locate : ℕ → UserMessage → String → Option ℕ → List Inbound → Conn → Io W Outcome
    locate start user_msg session_id none rest conn = pure (return rest conn)
    locate start user_msg session_id (some a) rest conn =
        turn start user_msg session_id a (deref a conn.store) rest conn

    unfoldable pub admit : ℕ → UserMessage → String → Bool → List Inbound → Conn → Io W Outcome
    admit start user_msg session_id false rest conn =
        send_body (failure (error_response "rate_limited" "Too many requests — please slow down."))
          rest conn
    admit start user_msg session_id true rest conn =
        locate start user_msg session_id (get session_id conn.store) rest conn

    unfoldable pub on_message : Result String UserMessage → List Inbound → Conn → Io W Outcome
    on_message (err e) rest conn = send_body (failure (error_response "parse_error" e)) rest conn
    on_message (ok user_msg) rest conn = do
      (session_id, store) ← resolve state user_msg.session_id conn.store
      start ← deps.clock.now
      requests_total
      allowed ← check rate_limiter session_id
      admit start user_msg session_id allowed rest (record conn { store = store })

    -- One frame between turns.
    unfoldable pub on_frame : Inbound → List Inbound → Conn → Io W Outcome
    on_frame none rest conn = pure (return rest conn)
    on_frame (some (err e)) rest conn = pure (return rest conn)
    on_frame (some (ok (text raw))) rest conn = on_message (from_str raw) rest conn
    on_frame (some (ok (ping bytes))) rest conn =
        send (pong bytes) rest (λ c. pure (go_on rest c)) conn
    on_frame (some (ok close)) rest conn = pure (return rest conn)
    on_frame (some (ok (binary b))) rest conn = pure (go_on rest conn)
    on_frame (some (ok (pong p))) rest conn = pure (go_on rest conn)

    abbrev pub continue :
        (List Inbound → Conn → Io W Outcome) → Flow → List Inbound → Conn → Io W Outcome
    continue k going rest conn = k rest conn
    continue k flow rest conn = pure (record { flow = flow; rest = rest; conn = conn })

    -- The outer loop; the fuel is the number of frames it may take.
    unfoldable pub serve : ℕ → List Inbound → Conn → Io W Outcome
    serve zero frames conn = pure (record { flow = out_of_fuel; rest = frames; conn = conn })
    serve (suc n) [] conn = pure (go_on [] conn)
    serve (suc n) (frame ∷ rest) conn = do
      o ← on_frame frame rest conn
      continue (serve n) o.flow o.rest o.conn

    -- Until no frame is left.
    unfoldable pub handle_socket : List Inbound → SessionStore → Io W Outcome
    handle_socket frames store =
        serve (suc (length frames)) frames (record { store = store; sent = [] })

  unfoldable pub ws_handler : Option ValidatedUser → List Inbound → SessionStore → Io W Outcome
  ws_handler user frames store = handle_socket (user_or_default user) frames store

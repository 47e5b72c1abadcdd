-- ===== src/Api/WebSocket/Store.antt =====
-- What a connection to `/ws` (orchestrator/src/api/ws.rs) does to the session store.
use ai_assistant.Prelude.{
  ℕ, zero, suc, String, ◌≡◌, refl, Bool, true, false, List, [], ◌∷◌, Option, none, some, arith, Io,
  Result, ok, err, length,
}
use ai_assistant.AccessControl.{ValidatedUser}
use ai_assistant.Session.{Session, Cell, SessionStore, get, deref}
use ai_assistant.Session.Invariant.{IsValid, write_back-IsValid}
use ai_assistant.AgentLoop.History.{run_turn-SameSession}
use ai_assistant.Api.Types.{UserMessage}
use ai_assistant.Api.Webhook.{WebhookState, Body, user_or_default}
use ai_assistant.Api.Webhook.Laws.{resolve-IsValid}
use ai_assistant.Api.WebSocket.{
  WsMessage, text, binary, ping, pong, close, Inbound, Socket, Conn, Flow, going, returned, waiting,
  out_of_fuel, Outcome, on_sent, send, send_body, drain, complete_turn, drop_turn, race,
  locked_turn, turn, locate, admit, on_message, on_frame, continue, serve, handle_socket,
  ws_handler, offer,
}

module _ {W N : Type 0} (state : WebhookState W N) (socket : Socket W) where
  open state use {deps, memory, rate_limiter, agent}

  -- The store behind the connection, whatever the flow.
  abbrev Keeps : (SessionStore → Type 0) → Outcome → Type 0
  Keeps P o = P o.conn.store

  module _ (P : SessionStore → Type 0) where
    on_sent-Keeps :
        (b : Bool) (rest : List Inbound) (k : Conn → Io W Outcome) (conn : Conn) (w : W)
        → ((c : Conn) (v : W) → P c.store → Keeps P (k c v).0)
        → P conn.store
        → Keeps P (on_sent state socket b rest k conn w).0
    on_sent-Keeps true rest k conn w each h = each conn w h
    on_sent-Keeps false rest k conn w each h = h

    send-Keeps :
        (m : WsMessage) (rest : List Inbound) (k : Conn → Io W Outcome) (conn : Conn) (w : W)
        → ((c : Conn) (v : W) → P c.store → Keeps P (k c v).0)
        → P conn.store
        → Keeps P (send state socket m rest k conn w).0
    unfolding send
    send-Keeps m rest k conn w each h = on_sent-Keeps _ rest k (offer m conn) _ each h

    send_body-Keeps :
        (body : Body) (rest : List Inbound) (conn : Conn) (w : W)
        → P conn.store
        → Keeps P (send_body state socket body rest conn w).0
    unfolding send_body
    send_body-Keeps body rest conn w h = send-Keeps _ rest _ conn w (λ c v hc. hc) h

    pub drain-Keeps :
        (n : ℕ) (rest : List Inbound) (conn : Conn) (w : W)
        → P conn.store
        → Keeps P (drain state socket n rest conn w).0
    unfolding drain
    drain-Keeps zero rest conn w h = h
    drain-Keeps (suc n) [] conn w h = h
    drain-Keeps (suc n) (none ∷ rest) conn w h = h
    drain-Keeps (suc n) (some (err e) ∷ rest) conn w h = h
    drain-Keeps (suc n) (some (ok (ping bytes)) ∷ rest) conn w h =
        send-Keeps (pong bytes) rest (drain state socket n rest) conn w (drain-Keeps n rest) h
    drain-Keeps (suc n) (some (ok close) ∷ rest) conn w h = h
    drain-Keeps (suc n) (some (ok (text t)) ∷ rest) conn w h = drain-Keeps n rest conn w h
    drain-Keeps (suc n) (some (ok (binary b)) ∷ rest) conn w h = drain-Keeps n rest conn w h
    drain-Keeps (suc n) (some (ok (pong p)) ∷ rest) conn w h = drain-Keeps n rest conn w h

  module _ (keeps_name : (s : Session) (w : W) → (socket.dropped s w).0.session_id ≡ s.session_id)
      (user : ValidatedUser) where
    abbrev Held : ℕ → Cell → SessionStore → Type 0
    Held a c st = (deref a st ≡ some c) × IsValid st

    race-IsValid :
        (start : ℕ) (user_msg : UserMessage) (id : String) (a : ℕ) (c : Cell) (flow : Flow)
        (rest : List Inbound) (conn : Conn) (w : W)
        → Held a c conn.store
        → Keeps IsValid (race state socket user start user_msg id a c flow rest conn w).0
    unfolding race complete_turn drop_turn deref
    race-IsValid start user_msg id a c going rest conn w (at, v) =
        send_body-Keeps IsValid _ rest _ _ (
          write_back-IsValid a c _ conn.store at
            (run_turn-SameSession deps agent user.token user.policy memory user_msg.message
              c.session w).0
            v)
    race-IsValid start user_msg id a c returned rest conn w (at, v) =
        write_back-IsValid a c _ conn.store at (keeps_name c.session w) v
    race-IsValid start user_msg id a c waiting rest conn w (at, v) =
        write_back-IsValid a c _ conn.store at (keeps_name c.session w) v
    race-IsValid start user_msg id a c out_of_fuel rest conn w (at, v) =
        write_back-IsValid a c _ conn.store at (keeps_name c.session w) v

    turn-IsValid :
        (start : ℕ) (user_msg : UserMessage) (id : String) (a : ℕ) (o : Option Cell)
        (rest : List Inbound) (conn : Conn) (w : W)
        → deref a conn.store ≡ o
        → IsValid conn.store
        → Keeps IsValid (turn state socket user start user_msg id a o rest conn w).0
    unfolding turn locked_turn
    turn-IsValid start user_msg id a none rest conn w at v = v
    turn-IsValid start user_msg id a (some c) rest conn w at v =
        let (n, w') = socket.arriving w in
        let d = drain state socket n rest conn w' in
        let done =
          race-IsValid start user_msg id a c d.0.flow d.0.rest d.0.conn d.1
            (drain-Keeps (Held a c) n rest conn w' (at, v)) in
        ground (arith, v, done)

    locate-IsValid :
        (start : ℕ) (user_msg : UserMessage) (id : String) (a : Option ℕ) (rest : List Inbound)
        (conn : Conn) (w : W)
        → IsValid conn.store
        → Keeps IsValid (locate state socket user start user_msg id a rest conn w).0
    unfolding locate
    locate-IsValid start user_msg id none rest conn w v = v
    locate-IsValid start user_msg id (some a) rest conn w v =
        turn-IsValid start user_msg id a (deref a conn.store) rest conn w refl v

    admit-IsValid :
        (start : ℕ) (user_msg : UserMessage) (id : String) (allowed : Bool) (rest : List Inbound)
        (conn : Conn) (w : W)
        → IsValid conn.store
        → Keeps IsValid (admit state socket user start user_msg id allowed rest conn w).0
    unfolding admit
    admit-IsValid start user_msg id false rest conn w v = send_body-Keeps IsValid _ rest conn w v
    admit-IsValid start user_msg id true rest conn w v =
        locate-IsValid start user_msg id (get id conn.store) rest conn w v

    on_message-IsValid :
        (parsed : Result String UserMessage) (rest : List Inbound) (conn : Conn) (w : W)
        → IsValid conn.store
        → Keeps IsValid (on_message state socket user parsed rest conn w).0
    unfolding on_message
    on_message-IsValid (err e) rest conn w v = send_body-Keeps IsValid _ rest conn w v
    on_message-IsValid (ok user_msg) rest conn w v =
        admit-IsValid _ user_msg _ _ rest _ _
          (resolve-IsValid state user_msg.session_id conn.store w v)

    on_frame-IsValid :
        (frame : Inbound) (rest : List Inbound) (conn : Conn) (w : W)
        → IsValid conn.store
        → Keeps IsValid (on_frame state socket user frame rest conn w).0
    unfolding on_frame
    on_frame-IsValid none rest conn w v = v
    on_frame-IsValid (some (err e)) rest conn w v = v
    on_frame-IsValid (some (ok (text raw))) rest conn w v =
        on_message-IsValid (socket.from_str raw) rest conn w v
    on_frame-IsValid (some (ok (ping bytes))) rest conn w v =
        send-Keeps IsValid _ rest _ conn w (λ c u hc. hc) v
    on_frame-IsValid (some (ok close)) rest conn w v = v
    on_frame-IsValid (some (ok (binary b))) rest conn w v = v
    on_frame-IsValid (some (ok (pong p))) rest conn w v = v

    continue-IsValid :
        (k : List Inbound → Conn → Io W Outcome) (flow : Flow) (rest : List Inbound) (conn : Conn)
        (w : W)
        → ((r : List Inbound) (c : Conn) (v : W) → IsValid c.store → Keeps IsValid (k r c v).0)
        → IsValid conn.store
        → Keeps IsValid (continue state socket user k flow rest conn w).0
    continue-IsValid k going rest conn w each v = each rest conn w v
    continue-IsValid k returned rest conn w each v = v
    continue-IsValid k waiting rest conn w each v = v
    continue-IsValid k out_of_fuel rest conn w each v = v

    serve-IsValid :
        (n : ℕ) (frames : List Inbound) (conn : Conn) (w : W)
        → IsValid conn.store
        → Keeps IsValid (serve state socket user n frames conn w).0
    unfolding serve
    serve-IsValid zero frames conn w v = v
    serve-IsValid (suc n) [] conn w v = v
    serve-IsValid (suc n) (frame ∷ rest) conn w v =
        let o = on_frame state socket user frame rest conn w in
        continue-IsValid (serve state socket user n) o.0.flow o.0.rest o.0.conn o.1
          (serve-IsValid n) (on_frame-IsValid frame rest conn w v)

  -- A connection leaves a valid session store valid, whatever arrives on it, whichever send fails
  -- and wherever a turn is dropped, if a dropped turn leaves its session's identifier as it was.
  pub ws_handler-IsValid :
      (user : Option ValidatedUser) (frames : List Inbound) (st : SessionStore) (w : W)
      → ((s : Session) (v : W) → (socket.dropped s v).0.session_id ≡ s.session_id)
      → IsValid st
      → IsValid (ws_handler state socket user frames st w).0.conn.store
  unfolding ws_handler handle_socket
  ws_handler-IsValid user frames st w keeps_name v =
      serve-IsValid keeps_name (user_or_default user) (suc (length frames)) frames _ w v

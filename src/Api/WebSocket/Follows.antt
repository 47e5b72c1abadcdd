-- ===== src/Api/WebSocket/Follows.antt =====
-- The handler of orchestrator/src/api/ws.rs against the relations of `Protocol`.
use ai_assistant.Prelude.{
  ℕ, zero, suc, ◌<◌, String, ◌≡◌, ◌∙◌, inl, inr, refl, ap, subst, sym, Bool, true, false, List, [],
  ◌∷◌, ◌++◌, Option, none, some, arith, Io, Result, ok, err, length, pure, if◌then◌else◌, is_some,
  Option-cases,
}
use mathlib.Core.List.{append_assoc, append-nil}
use ai_assistant.Errors.{show_error}
use ai_assistant.AccessControl.{ValidatedUser}
use ai_assistant.Session.{Cell, SessionStore, get, deref}
use ai_assistant.Api.Types.{UserMessage}
use ai_assistant.Api.Webhook.{WebhookState, Body, user_or_default}
use ai_assistant.Api.Webhook.Laws.{resolve-found}
use ai_assistant.Api.WebSocket.{
  WsMessage, text, binary, ping, pong, close, Inbound, Socket, Conn, Flow, going, returned, waiting,
  out_of_fuel, Outcome, send, send_body, drain, complete_turn, drop_turn, race, locked_turn, turn,
  locate, admit, on_message, on_frame, continue, serve, handle_socket, ws_handler, go_on, wait,
}
use ai_assistant.Api.WebSocket.Protocol.{
  stream_end, broken, closed, is_binary, is_pong, Drained, done, ended, quiet, ponged, IsAnswer,
  unparsed, limited, turned, Took, answered, dropped, waits, Log, idle, more, last, Took-length,
  Took-flow, printed, Drained-flow,
}
use ai_assistant.Api.WebSocket.Sends.{Does, send-Last, drain-Drained}

module _ {W N : Type 0} (state : WebhookState W N) (socket : Socket W) where
  open state use {deps, rate_limiter}

  abbrev TakenFrom : List WsMessage → Inbound → List Inbound → Outcome → Type 0
  TakenFrom before m rest = Does before (Took socket (show_error deps.show_code) m rest)

  -- The answer after what was sent while the turn ran.
  send_body-Took :
      (raw : String) (body : Body) (rest r : List Inbound) (before out : List WsMessage)
      (conn : Conn) (w : W)
      → IsAnswer socket (show_error deps.show_code) raw body
      → conn.sent ≡ before ++ out
      → Drained socket (show_error deps.show_code) rest out going r
      → TakenFrom before (some (ok (text raw))) rest (send_body state socket body r conn w).0
  unfolding send_body
  send_body-Took raw body rest r before out conn w answer e d =
      let m = printed socket (show_error deps.show_code) body in
      let (sent, (left, flow)) = send-Last state socket m r conn w in
      (
        out ++ m ∷ [],
        (
          sent ∙ ap (λ l. l ++ m ∷ []) e ∙ append_assoc before out (m ∷ []),
          subst
              (λ x.
                Took socket (show_error deps.show_code) (some (ok (text raw))) rest (out ++ m ∷ [])
                  (send state socket m r (λ c. pure (go_on r c)) conn w).0.flow x)
              (sym left) (answered answer d flow),
        ),
      )

  module _ (user : ValidatedUser) (raw : String) (rest : List Inbound) where
    race-Took :
        (start : ℕ) (user_msg : UserMessage) (id : String) (a : ℕ) (c : Cell)
        (before : List WsMessage) (flow : Flow) (r : List Inbound) (conn : Conn) (w : W)
        → socket.from_str raw ≡ ok user_msg
        → (out : List WsMessage) → conn.sent ≡ before ++ out
        → Drained socket (show_error deps.show_code) rest out flow r
        → TakenFrom before
            (some (ok (text raw)))
            rest
            (race state socket user start user_msg id a c flow r conn w).0
    unfolding race complete_turn drop_turn
    race-Took start user_msg id a c before going r conn w parsed out e d =
        send_body-Took raw _ rest r before out _ _ (turned id _ parsed) e d
    race-Took start user_msg id a c before returned r conn w parsed out e d = (out, (e, dropped d))
    race-Took start user_msg id a c before waiting r conn w parsed out e d =
        elim (Drained-flow socket (show_error deps.show_code) d) [ inl h ↦ cc | inr h ↦ cc ]
    race-Took start user_msg id a c before out_of_fuel r conn w parsed out e d =
        elim (Drained-flow socket (show_error deps.show_code) d) [ inl h ↦ cc | inr h ↦ cc ]

    -- The handler waits, or does what it would do with the lock.
    if_wait-Took :
        (b : Bool) (conn : Conn) (act : Io W Outcome) (w : W)
        → TakenFrom conn.sent (some (ok (text raw))) rest (act w).0
        → TakenFrom conn.sent
            (some (ok (text raw)))
            rest
            ((if b then pure (wait rest conn) else act) w).0
    if_wait-Took true conn act w h = ([], (sym (append-nil conn.sent), waits))
    if_wait-Took false conn act w h = h

    turn-Took :
        (start : ℕ) (user_msg : UserMessage) (id : String) (a : ℕ) (o : Option Cell) (conn : Conn)
        (w : W)
        → socket.from_str raw ≡ ok user_msg
        → TakenFrom conn.sent
            (some (ok (text raw)))
            rest
            (turn state socket user start user_msg id a o rest conn w).0
    unfolding turn locked_turn
    turn-Took start user_msg id a none conn w parsed = ([], (sym (append-nil conn.sent), waits))
    turn-Took start user_msg id a (some c) conn w parsed =
        let (n, w') = socket.arriving w in
        let d = drain state socket n rest conn w' in
        let (out, (e, drained)) = drain-Drained state socket n rest conn w' in
        if_wait-Took c.locked conn _ _ (
          race-Took start user_msg id a c conn.sent d.0.flow d.0.rest d.0.conn d.1 parsed out e
            drained)

    -- The session is there.
    locate-Took :
        (start : ℕ) (user_msg : UserMessage) (id : String) (conn : Conn) (w : W)
        → socket.from_str raw ≡ ok user_msg
        → is_some (get id conn.store) ≡ true
        → TakenFrom conn.sent
            (some (ok (text raw)))
            rest
            (locate state socket user start user_msg id (get id conn.store) rest conn w).0
    unfolding locate
    locate-Took start user_msg id conn w parsed there = elim (Option-cases (get id conn.store)) [
      | inl none_there ↦ cc
      | inr (a, found) ↦ rw found (turn-Took start user_msg id a (deref a conn.store) conn w parsed)
    ]

    admit-Took :
        (start : ℕ) (user_msg : UserMessage) (id : String) (allowed : Bool) (conn : Conn) (w : W)
        → socket.from_str raw ≡ ok user_msg
        → is_some (get id conn.store) ≡ true
        → TakenFrom conn.sent
            (some (ok (text raw)))
            rest
            (admit state socket user start user_msg id allowed rest conn w).0
    unfolding admit
    admit-Took start user_msg id false conn w parsed there =
        send_body-Took raw _ rest rest conn.sent [] conn w (limited parsed)
          (sym (append-nil conn.sent)) done
    admit-Took start user_msg id true conn w parsed there =
        locate-Took start user_msg id conn w parsed there

    on_message-Took :
        (parsed : Result String UserMessage) (conn : Conn) (w : W)
        → socket.from_str raw ≡ parsed
        → TakenFrom conn.sent
            (some (ok (text raw)))
            rest
            (on_message state socket user parsed rest conn w).0
    unfolding on_message
    on_message-Took (err e) conn w parsed =
        send_body-Took raw _ rest rest conn.sent [] conn w (unparsed parsed)
          (sym (append-nil conn.sent)) done
    on_message-Took (ok user_msg) conn w parsed =
        admit-Took _ user_msg _ _ _ _ parsed (resolve-found state user_msg.session_id conn.store w)

  on_frame-Took :
      (user : ValidatedUser) (frame : Inbound) (rest : List Inbound) (conn : Conn) (w : W)
      → TakenFrom conn.sent frame rest (on_frame state socket user frame rest conn w).0
  unfolding on_frame
  on_frame-Took user none rest conn w = ([], (sym (append-nil conn.sent), ended stream_end))
  on_frame-Took user (some (err e)) rest conn w = ([], (sym (append-nil conn.sent), ended broken))
  on_frame-Took user (some (ok (text raw))) rest conn w =
      on_message-Took user raw rest (socket.from_str raw) conn w refl
  on_frame-Took user (some (ok (ping bytes))) rest conn w =
      let (sent, (left, flow)) = send-Last state socket (pong bytes) rest conn w in
      (
        pong bytes ∷ [],
        (
          sent,
          subst
              (λ x.
                Took socket (show_error deps.show_code) (some (ok (ping bytes))) rest
                  (pong bytes ∷ [])
                  (send state socket (pong bytes) rest (λ c. pure (go_on rest c)) conn w).0.flow x)
              (sym left) (ponged flow),
        ),
      )
  on_frame-Took user (some (ok close)) rest conn w =
      ([], (sym (append-nil conn.sent), ended closed))
  on_frame-Took user (some (ok (binary b))) rest conn w =
      ([], (sym (append-nil conn.sent), quiet is_binary))
  on_frame-Took user (some (ok (pong p))) rest conn w =
      ([], (sym (append-nil conn.sent), quiet is_pong))

  abbrev LoggedFrom : List WsMessage → List Inbound → Outcome → Type 0
  LoggedFrom before frames = Does before (Log socket (show_error deps.show_code) frames)

  -- After one frame, the rest of the connection.
  continue-Log :
      (user : ValidatedUser) (k : List Inbound → Conn → Io W Outcome) (frame : Inbound)
      (rest : List Inbound) (before : List WsMessage) (flow : Flow) (r : List Inbound) (conn : Conn)
      (w : W)
      → ((c : Conn) (v : W) → LoggedFrom c.sent r (k r c v).0)
      → (out : List WsMessage) → conn.sent ≡ before ++ out
      → Took socket (show_error deps.show_code) frame rest out flow r
      → LoggedFrom before (frame ∷ rest) (continue state socket user k flow r conn w).0
  continue-Log user k frame rest before going r conn w each out e t =
      let (out', (e', l)) = each conn w in
      (out ++ out', (e' ∙ ap (λ l. l ++ out') e ∙ append_assoc before out out', more t l))
  continue-Log user k frame rest before returned r conn w each out e t =
      (out, (e, last t (inl refl)))
  continue-Log user k frame rest before waiting r conn w each out e t =
      (out, (e, last t (inr refl)))
  continue-Log user k frame rest before out_of_fuel r conn w each out e t =
      absurd (Took-flow socket (show_error deps.show_code) t refl)

  serve-Log :
      (user : ValidatedUser) (n : ℕ) (frames : List Inbound) (conn : Conn) (w : W)
      → length frames < n
      → LoggedFrom conn.sent frames (serve state socket user n frames conn w).0
  unfolding serve
  serve-Log user zero frames conn w enough = absurd (omega (arith, enough))
  serve-Log user (suc n) [] conn w enough = ([], (sym (append-nil conn.sent), idle))
  serve-Log user (suc n) (frame ∷ rest) conn w enough =
      let o = on_frame state socket user frame rest conn w in
      let (out, (e, t)) = on_frame-Took user frame rest conn w in
      continue-Log user (serve state socket user n) frame rest conn.sent o.0.flow o.0.rest o.0.conn
        o.1
        (λ c v.
          serve-Log user n o.0.rest c v
            (omega (arith, enough, Took-length socket (show_error deps.show_code) t)))
        out e t

  -- What a connection sends, and how it ends, follows the protocol: pongs for the pings, in order,
  -- and one answer for each text that is taken between turns, after the pongs of the pings that came
  -- while its turn ran. The handler returns only at a frame that ends the connection or a send that
  -- is refused, and it does not run out of fuel.
  pub ws_handler-Log :
      (user : Option ValidatedUser) (frames : List Inbound) (st : SessionStore) (w : W)
      → let o = (ws_handler state socket user frames st w).0 in
        Log socket (show_error deps.show_code) frames o.conn.sent o.flow o.rest
  unfolding ws_handler handle_socket
  ws_handler-Log user frames st w =
      let (out, (e, l)) =
        serve-Log (user_or_default user) (suc (length frames)) frames _ w (omega arith) in
      let o = (ws_handler state socket user frames st w).0 in
      subst (λ x. Log socket (show_error deps.show_code) frames x o.flow o.rest) (sym e) l

-- ===== src/Api/WebSocket/Sends.antt =====
-- What a send, and the frames that come while a turn runs, do on a connection
-- (orchestrator/src/api/ws.rs), in the terms of `Protocol`.
use ai_assistant.Prelude.{
  ℕ, zero, suc, String, ◌≡◌, ◌∙◌, inl, inr, refl, sym, Bool, true, false, List, [], ◌∷◌, ◌++◌, none,
  some, Io, ok, err, pure,
}
use mathlib.Core.List.{append_assoc, append-nil}
use ai_assistant.Errors.{show_error}
use ai_assistant.Api.Webhook.{WebhookState}
use ai_assistant.Api.WebSocket.{
  WsMessage, text, binary, ping, pong, close, Inbound, Socket, Conn, Flow, Outcome, on_sent, send,
  drain, offer, go_on,
}
use ai_assistant.Api.WebSocket.Protocol.{
  stream_end, broken, closed, is_binary, is_pong, Sent, Drained, done, ended, quiet, passed_over,
  ponged, unsent,
}

-- What an action sends, beyond what was sent before, and that it is related to how it ends.
abbrev pub Does :
    List WsMessage → (List WsMessage → Flow → List Inbound → Type 0) → Outcome → Type 0
Does before R o = (out : List WsMessage) × ((o.conn.sent ≡ before ++ out) × R out o.flow o.rest)

module _ {W N : Type 0} (state : WebhookState W N) (socket : Socket W) where
  open state use {deps, rate_limiter}

  -- A send that is the last thing done.
  abbrev pub Last : WsMessage → List Inbound → Conn → Outcome → Type 0
  Last m rest conn o =
      (o.conn.sent ≡ conn.sent ++ m ∷ [])
      × ((o.rest ≡ rest) × Sent socket (show_error deps.show_code) m o.flow)

  on_sent-Last :
      (b : Bool) (m : WsMessage) (rest : List Inbound) (conn : Conn) (w v : W)
      → (socket.accepts m w).0 ≡ b
      → Last m rest conn (on_sent state socket b rest (λ c. pure (go_on rest c)) (offer m conn) v).0
  on_sent-Last true m rest conn w v e = (refl, (refl, inl refl))
  on_sent-Last false m rest conn w v e = (refl, (refl, inr (refl, (w, e))))

  pub send-Last :
      (m : WsMessage) (rest : List Inbound) (conn : Conn) (w : W)
      → Last m rest conn (send state socket m rest (λ c. pure (go_on rest c)) conn w).0
  unfolding send
  send-Last m rest conn w = on_sent-Last _ m rest conn w _ refl

  abbrev pub DrainedFrom : List WsMessage → List Inbound → Outcome → Type 0
  DrainedFrom before frames = Does before (Drained socket (show_error deps.show_code) frames)

  on_sent-Drained :
      (b : Bool) (bytes : String) (rest : List Inbound) (k : Conn → Io W Outcome) (conn : Conn)
      (w v : W)
      → (socket.accepts (pong bytes) w).0 ≡ b
      → ((c : Conn) (u : W) → DrainedFrom c.sent rest (k c u).0)
      → DrainedFrom conn.sent
          (some (ok (ping bytes)) ∷ rest)
          (on_sent state socket b rest k (offer (pong bytes) conn) v).0
  on_sent-Drained true bytes rest k conn w v e each =
      let (out, (same, d)) = each (offer (pong bytes) conn) v in
      (pong bytes ∷ out, (same ∙ append_assoc conn.sent (pong bytes ∷ []) out, ponged d))
  on_sent-Drained false bytes rest k conn w v e each = (pong bytes ∷ [], (refl, unsent (w, e)))

  pub drain-Drained :
      (n : ℕ) (frames : List Inbound) (conn : Conn) (w : W)
      → DrainedFrom conn.sent frames (drain state socket n frames conn w).0
  unfolding drain send
  drain-Drained zero rest conn w = ([], (sym (append-nil conn.sent), done))
  drain-Drained (suc n) [] conn w = ([], (sym (append-nil conn.sent), done))
  drain-Drained (suc n) (none ∷ rest) conn w = ([], (sym (append-nil conn.sent), ended stream_end))
  drain-Drained (suc n) (some (err e) ∷ rest) conn w =
      ([], (sym (append-nil conn.sent), ended broken))
  drain-Drained (suc n) (some (ok (ping bytes)) ∷ rest) conn w =
      on_sent-Drained _ bytes rest (drain state socket n rest) conn w _ refl (drain-Drained n rest)
  drain-Drained (suc n) (some (ok close) ∷ rest) conn w =
      ([], (sym (append-nil conn.sent), ended closed))
  drain-Drained (suc n) (some (ok (text t)) ∷ rest) conn w =
      let (out, (e, d)) = drain-Drained n rest conn w in (out, (e, passed_over d))
  drain-Drained (suc n) (some (ok (binary b)) ∷ rest) conn w =
      let (out, (e, d)) = drain-Drained n rest conn w in (out, (e, quiet is_binary d))
  drain-Drained (suc n) (some (ok (pong p)) ∷ rest) conn w =
      let (out, (e, d)) = drain-Drained n rest conn w in (out, (e, quiet is_pong d))

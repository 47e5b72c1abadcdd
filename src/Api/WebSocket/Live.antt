-- ===== src/Api/WebSocket/Live.antt =====
-- A connection to `/ws` (orchestrator/src/api/ws.rs) that the client keeps open.
use ai_assistant.Prelude.{String, ◌≡◌, ◌⊎◌, inl, inr, refl, true, List, [], ◌∷◌, Option, All}
use ai_assistant.Errors.{OrchestratorError, show_error}
use ai_assistant.AccessControl.{ValidatedUser}
use ai_assistant.Session.{SessionStore}
use ai_assistant.Session.Invariant.{IsValid}
use ai_assistant.Api.Webhook.{WebhookState}
use ai_assistant.Api.WebSocket.{WsMessage, Inbound, Socket, Flow, going, waiting, ws_handler}
use ai_assistant.Api.WebSocket.Protocol.{
  Ends, Refuses, Drained, done, ended, quiet, passed_over, ponged, unsent, Took, answered, dropped,
  waits, Log, idle, more, last,
}
use ai_assistant.Api.WebSocket.Waits.{Held, ws_handler-Held}
use ai_assistant.Api.WebSocket.Follows.{ws_handler-Log}

abbrev pub Open : List Inbound → Type 0
Open = All (λ m. ¬ (Ends m))

module _ {W : Type 0} (socket : Socket W) (show : OrchestratorError → String)
    (accepts : (m : WsMessage) (w : W) → (socket.accepts m w).0 ≡ true) where
  Refuses-never : {m : WsMessage} → ¬ (Refuses socket show m)
  Refuses-never {m = m} (w, e) = let h = accepts m w in cc

  Drained-Open :
      {frames r : List Inbound} {out : List WsMessage} {flow : Flow}
      → Drained socket show frames out flow r
      → Open frames
      → (flow ≡ going) × Open r
  Drained-Open done h = (refl, h)
  Drained-Open (ended e) h = absurd (h.0 e)
  Drained-Open (quiet _ d) h = Drained-Open d h.1
  Drained-Open (passed_over d) h = Drained-Open d h.1
  Drained-Open (ponged d) h = Drained-Open d h.1
  Drained-Open (unsent e) h = absurd (Refuses-never e)

  Took-Open :
      {m : Inbound} {rest r : List Inbound} {out : List WsMessage} {flow : Flow}
      → Took socket show m rest out flow r
      → Open (m ∷ rest)
      → ((flow ≡ going) ⊎ (flow ≡ waiting)) × Open r
  Took-Open (ended e) h = absurd (h.0 e)
  Took-Open (quiet _) h = (inl refl, h.1)
  Took-Open (ponged (inl e)) h = (inl e, h.1)
  Took-Open (ponged (inr (_, e))) h = absurd (Refuses-never e)
  Took-Open (answered _ d (inl e)) h = (inl e, (Drained-Open d h.1).1)
  Took-Open (answered _ d (inr (_, e))) h = absurd (Refuses-never e)
  Took-Open (dropped d) h = let e = (Drained-Open d h.1).0 in cc
  Took-Open waits h = (inr refl, h.1)

  Log-Open :
      {frames r : List Inbound} {out : List WsMessage} {flow : Flow}
      → Log socket show frames out flow r
      → Open frames
      → (flow ≡ waiting) ⊎ ((flow ≡ going) × (r ≡ []))
  Log-Open idle h = inr (refl, refl)
  Log-Open (more t l) h = Log-Open l (Took-Open t h).1
  Log-Open (last t e) h = elim (Took-Open t h).0 [
    | inl g ↦ elim e [ inl r ↦ cc | inr r ↦ inl r ]
    | inr g ↦ inl g
  ]

module _ {W N : Type 0} (state : WebhookState W N) (socket : Socket W) where
  -- As long as the client sends no close, the stream neither ends nor breaks and the socket
  -- takes what is sent, the handler does not return: it has taken every frame and goes on, or
  -- it waits for a session that another task has locked. That session is in the store, and was
  -- locked, as it is, when the connection was opened with a valid store: no lock that a turn
  -- of the connection took is held after it.
  pub ws_handler-Open :
      (user : Option ValidatedUser) (frames : List Inbound) (st : SessionStore) (w : W)
      → IsValid st
      → ((m : WsMessage) (v : W) → (socket.accepts m v).0 ≡ true)
      → Open frames
      → let o = (ws_handler state socket user frames st w).0 in
        ((o.flow ≡ waiting) × Held st o.conn.store) ⊎ ((o.flow ≡ going) × (o.rest ≡ []))
  ws_handler-Open user frames st w v accepts h =
      let log = ws_handler-Log state socket user frames st w in
      elim (Log-Open socket (show_error state.deps.show_code) accepts log h) [
        | inl stuck ↦ inl (stuck, ws_handler-Held state socket user frames st w v stuck)
        | inr goes ↦ inr goes
      ]

-- ===== src/Api/WebSocket/Protocol.antt =====
-- The protocol of a connection to `/ws` (orchestrator/src/api/ws.rs) as a relation between the frames
-- that arrive and those that are sent, without the store, the engine and the fuel.
use ai_assistant.Prelude.{
  String, ◌≡◌, ◌≢◌, ◌≤◌, ◌⊎◌, inl, inr, refl, false, List, [], ◌∷◌, ◌++◌, none, some, arith, Result,
  ok, err, length,
}
use ai_assistant.Errors.{OrchestratorError}
use ai_assistant.AgentLoop.{AgentResponse}
use ai_assistant.Api.Types.{UserMessage, error_response}
use ai_assistant.Api.Webhook.{Body, failure}
use ai_assistant.Api.WebSocket.{
  WsMessage, text, binary, ping, pong, close, Inbound, Socket, Flow, going, returned, waiting,
  out_of_fuel, reply_body, or_default,
}

-- A frame after which the handler returns.
pub data Ends : Inbound → Type 0 where
  stream_end : Ends none
  broken : {e : String} → Ends (some (err e))
  closed : Ends (some (ok close))

-- A frame that calls for nothing, between turns.
pub data IsQuiet : Inbound → Type 0 where
  is_binary : {b : String} → IsQuiet (some (ok (binary b)))
  is_pong : {p : String} → IsQuiet (some (ok (pong p)))

module _ {W : Type 0} (socket : Socket W) (show : OrchestratorError → String) where
  abbrev pub Refuses : WsMessage → Type 0
  Refuses m = (w : W) × ((socket.accepts m w).0 ≡ false)

  -- How the handler goes on after a send.
  abbrev pub Sent : WsMessage → Flow → Type 0
  Sent m flow = (flow ≡ going) ⊎ ((flow ≡ returned) × Refuses m)

  -- While a turn runs: the frames, those sent, the flow, and the frames not taken yet.
  pub data Drained : List Inbound → List WsMessage → Flow → List Inbound → Type 0 where
    done : {rest : List Inbound} → Drained rest [] going rest
    ended : {m : Inbound} {rest : List Inbound} → Ends m → Drained (m ∷ rest) [] returned rest
    quiet :
        {m : Inbound} {rest r : List Inbound} {out : List WsMessage} {flow : Flow}
        → IsQuiet m
        → Drained rest out flow r
        → Drained (m ∷ rest) out flow r
    passed_over :
        {t : String} {rest r : List Inbound} {out : List WsMessage} {flow : Flow}
        → Drained rest out flow r
        → Drained (some (ok (text t)) ∷ rest) out flow r
    ponged :
        {b : String} {rest r : List Inbound} {out : List WsMessage} {flow : Flow}
        → Drained rest out flow r
        → Drained (some (ok (ping b)) ∷ rest) (pong b ∷ out) flow r
    unsent :
        {b : String} {rest : List Inbound}
        → Refuses (pong b)
        → Drained (some (ok (ping b)) ∷ rest) (pong b ∷ []) returned rest

  -- What a text is answered with.
  pub data IsAnswer : String → Body → Type 0 where
    unparsed :
        {raw e : String}
        → socket.from_str raw ≡ err e
        → IsAnswer raw (failure (error_response "parse_error" e))
    limited :
        {raw : String} {user_msg : UserMessage}
        → socket.from_str raw ≡ ok user_msg
        → IsAnswer raw
            (failure (error_response "rate_limited" "Too many requests — please slow down."))
    turned :
        {raw : String} {user_msg : UserMessage} (session_id : String)
        (result : Result OrchestratorError AgentResponse)
        → socket.from_str raw ≡ ok user_msg
        → IsAnswer raw (reply_body show session_id result)

  abbrev pub printed : Body → WsMessage
  printed body = text (or_default (socket.to_string body))

  -- One frame between turns, and those taken with it: what is sent, the flow, what is left.
  pub data Took : Inbound → List Inbound → List WsMessage → Flow → List Inbound → Type 0 where
    ended : {m : Inbound} {rest : List Inbound} → Ends m → Took m rest [] returned rest
    quiet : {m : Inbound} {rest : List Inbound} → IsQuiet m → Took m rest [] going rest
    ponged :
        {b : String} {rest : List Inbound} {flow : Flow}
        → Sent (pong b) flow
        → Took (some (ok (ping b))) rest (pong b ∷ []) flow rest
    answered :
        {raw : String} {body : Body} {rest r : List Inbound} {out : List WsMessage} {flow : Flow}
        → IsAnswer raw body
        → Drained rest out going r
        → Sent (printed body) flow
        → Took (some (ok (text raw))) rest (out ++ printed body ∷ []) flow r
    dropped :
        {raw : String} {rest r : List Inbound} {out : List WsMessage}
        → Drained rest out returned r
        → Took (some (ok (text raw))) rest out returned r
    waits : {raw : String} {rest : List Inbound} → Took (some (ok (text raw))) rest [] waiting rest

  -- A whole connection.
  pub data Log : List Inbound → List WsMessage → Flow → List Inbound → Type 0 where
    idle : Log [] [] going []
    more :
        {m : Inbound} {rest r r' : List Inbound} {out out' : List WsMessage} {flow : Flow}
        → Took m rest out going r
        → Log r out' flow r'
        → Log (m ∷ rest) (out ++ out') flow r'
    last :
        {m : Inbound} {rest r : List Inbound} {out : List WsMessage} {flow : Flow}
        → Took m rest out flow r
        → (flow ≡ returned) ⊎ (flow ≡ waiting)
        → Log (m ∷ rest) out flow r

  Drained-length :
      {frames r : List Inbound} {out : List WsMessage} {flow : Flow}
      → Drained frames out flow r
      → length r ≤ length frames
  Drained-length done = omega (arith)
  Drained-length (ended _) = omega (arith)
  Drained-length (quiet _ d) = omega (arith, Drained-length d)
  Drained-length (passed_over d) = omega (arith, Drained-length d)
  Drained-length (ponged d) = omega (arith, Drained-length d)
  Drained-length (unsent _) = omega (arith)

  pub Took-length :
      {m : Inbound} {rest r : List Inbound} {out : List WsMessage} {flow : Flow}
      → Took m rest out flow r
      → length r ≤ length rest
  Took-length (ended _) = omega (arith)
  Took-length (quiet _) = omega (arith)
  Took-length (ponged _) = omega (arith)
  Took-length (answered _ d _) = Drained-length d
  Took-length (dropped d) = Drained-length d
  Took-length waits = omega (arith)

  pub Drained-flow :
      {frames r : List Inbound} {out : List WsMessage} {flow : Flow}
      → Drained frames out flow r
      → (flow ≡ going) ⊎ (flow ≡ returned)
  Drained-flow done = inl refl
  Drained-flow (ended _) = inr refl
  Drained-flow (quiet _ d) = Drained-flow d
  Drained-flow (passed_over d) = Drained-flow d
  Drained-flow (ponged d) = Drained-flow d
  Drained-flow (unsent _) = inr refl

  pub Took-flow :
      {m : Inbound} {rest r : List Inbound} {out : List WsMessage} {flow : Flow}
      → Took m rest out flow r
      → flow ≢ out_of_fuel
  Took-flow (ended _) = λ e. cc
  Took-flow (quiet _) = λ e. cc
  Took-flow (ponged (inl e)) = λ h. cc
  Took-flow (ponged (inr (e, _))) = λ h. cc
  Took-flow (answered _ _ (inl e)) = λ h. cc
  Took-flow (answered _ _ (inr (e, _))) = λ h. cc
  Took-flow (dropped _) = λ h. cc
  Took-flow waits = λ h. cc

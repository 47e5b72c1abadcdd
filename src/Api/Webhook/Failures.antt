-- ===== src/Api/Webhook/Failures.antt =====
-- The bodies of failed requests (orchestrator/src/api/webhook.rs).
use ai_assistant.Prelude.{
  ℕ, String, ◌≡◌, refl, inl, inr, Bool, true, false, Option, none, some, Result, ok, err,
  Bool-cases,
}
use ai_assistant.Errors.{OrchestratorError}
use ai_assistant.AccessControl.{ValidatedUser}
use ai_assistant.Session.{Cell, SessionStore, get, deref}
use ai_assistant.AgentLoop.{AgentResponse, reply}
use ai_assistant.Api.Types.{UserMessage, error_response}
use ai_assistant.Api.Webhook.{
  WebhookState, Response, Body, agent_reply, failure, respond_with, user_or_default, locked_turn,
  turn, locate, admit, webhook_handler,
}

-- An error body has no session identifier.
abbrev pub Anonymous : Body → Type 0
Anonymous (agent_reply r) = Unit
Anonymous (failure e) = e.session_id ≡ none

module _ {W N : Type 0} (state : WebhookState W N) where
  -- A failure that the client sees names no session.
  abbrev pub Nameless : Option Response → Type 0
  Nameless none = Unit
  Nameless (some r) = Anonymous r.body

  respond_with-Nameless :
      (to_string : OrchestratorError → String) (id : String)
      (r : Result OrchestratorError AgentResponse)
      → Anonymous (respond_with to_string id r).body
  unfolding error_response
  respond_with-Nameless to_string id (ok (reply content)) = tt
  respond_with-Nameless to_string id (err e) = refl

  turn-Nameless :
      (start : ℕ) (payload : UserMessage) (user : ValidatedUser) (id : String) (a : ℕ)
      (o : Option Cell) (st : SessionStore) (w : W)
      → Nameless (turn state start payload user id a o st w).0.0
  unfolding turn locked_turn
  turn-Nameless start payload user id a none st w = tt
  turn-Nameless start payload user id a (some c) st w = elim (Bool-cases c.locked) [
    | inl held ↦ rw held tt
    | inr free ↦ rw free (respond_with-Nameless _ id _)
  ]

  locate-Nameless :
      (start : ℕ) (payload : UserMessage) (user : ValidatedUser) (id : String) (a : Option ℕ)
      (st : SessionStore) (w : W)
      → Nameless (locate state start payload user id a st w).0.0
  unfolding locate error_response
  locate-Nameless start payload user id none st w = refl
  locate-Nameless start payload user id (some a) st w =
      turn-Nameless start payload user id a (deref a st) st w

  admit-Nameless :
      (start : ℕ) (payload : UserMessage) (user : ValidatedUser) (id : String) (b : Bool)
      (st : SessionStore) (w : W)
      → Nameless (admit state start payload user id b st w).0.0
  unfolding admit error_response
  admit-Nameless start payload user id false st w = refl
  admit-Nameless start payload user id true st w =
      locate-Nameless start payload user id (get id st) st w

  -- The body of a failed request names no session, also where a session was found or created before
  -- the failure.
  pub webhook_handler-Nameless :
      (user : Option ValidatedUser) (payload : UserMessage) (st : SessionStore) (w : W)
      → Nameless (webhook_handler state user payload st w).0.0
  unfolding webhook_handler
  webhook_handler-Nameless user payload st w =
      admit-Nameless _ payload (user_or_default user) _ _ _ _

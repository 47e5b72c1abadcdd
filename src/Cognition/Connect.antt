-- ===== src/Cognition/Connect.antt =====
-- The parts of orchestrator/src/cognition_client/mod.rs beside the retried calls: `connect`, and
-- `stream_complete`, which is not retried. A stream is left to the caller.
use ai_assistant.Prelude.{ℕ, String, List, ℤ, Io, pure, ◌>>=◌, Result, ok, err, map_err}
use ai_assistant.Errors.{Status, CognitionError, connection, from_status}
use ai_assistant.Config.{CognitionEngineSettings}
use ai_assistant.Proto.{Message, CompleteRequest}
use ai_assistant.Cognition.{Stub, CognitionClient, make_context}

-- `Endpoint`: an address that was parsed; a connection is made with the two timeouts, in seconds.
pub record Transport (W E : Type 0) : Type 0 where
  pub from_shared : String → Result String E
  pub connect_channel : E → ℕ → ℕ → Io W (Result String (Stub W))

module _ {W E : Type 0} (transport : Transport W E) where
  open transport use {from_shared, connect_channel}

  abbrev dial :
      CognitionEngineSettings → Result String E → Io W (Result CognitionError (CognitionClient W))
  dial settings (err e) = pure (err (connection e))
  dial settings (ok endpoint) = do
    channel ← connect_channel endpoint settings.connect_timeout_secs settings.request_timeout_secs
    pure (elim channel [
      | ok inner ↦ ok (record { inner = inner; settings = settings })
      | err e ↦ err (connection e)
    ])

  unfoldable pub connect :
      CognitionEngineSettings → Io W (Result CognitionError (CognitionClient W))
  connect settings = dial settings (from_shared settings.address)

-- `S` is the stream of the response.
unfoldable stream_complete :
    {W S : Type 0}
    → (CompleteRequest → Io W (Result Status S))
    → String
    → String
    → List Message
    → String
    → ℕ
    → ℤ
    → Io W (Result CognitionError S)
stream_complete call session_id auth_token messages model temperature max_tokens = do
  stream ← call (record {
    context = make_context session_id auth_token;
    messages = messages;
    model = model;
    temperature = temperature;
    max_tokens = max_tokens;
  })
  pure (map_err from_status stream)

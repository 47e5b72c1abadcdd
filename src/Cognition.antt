-- ===== src/Cognition.antt =====
-- orchestrator/src/cognition_client/mod.rs. The tonic stub is an interface: one attempt of an RPC
-- acts on the world and gives a response or a status. `Retry` has the behaviour of the retries.
pub mod Retry
pub mod Connect
pub mod Cost
use ai_assistant.Prelude.{
  ℕ, zero, suc, ◌-◌, ◌*◌, ◌%◌, ◌^◌, String, Bool, true, false, List, ℤ, Io, pure, ◌>>=◌, ◌>>◌,
  Result, ok, err, map_err,
}
use ai_assistant.Errors.{
  Code, unavailable, resource_exhausted, deadline_exceeded, unknown, Status, CognitionError,
  from_status,
}
use ai_assistant.Config.{CognitionEngineSettings}
use ai_assistant.Proto.{
  RequestContext, Message, CompleteRequest, CompleteResponse, CountTokensRequest,
  CountTokensResponse, ParseOutputRequest, ParseOutputResponse,
}

-- The generated stub and the timer. `check` is the standard health service's RPC.
pub record Stub (W : Type 0) : Type 0 where
  pub complete : CompleteRequest → Io W (Result Status CompleteResponse)
  pub count_tokens : CountTokensRequest → Io W (Result Status CountTokensResponse)
  pub parse_output : ParseOutputRequest → Io W (Result Status ParseOutputResponse)
  pub check : String → Io W (Result Status Unit)
  pub sleep_ms : ℕ → Io W Unit

unfoldable pub is_retryable : Code → Bool
is_retryable unavailable = true
is_retryable resource_exhausted = true
is_retryable deadline_exceeded = true
is_retryable unknown = true
is_retryable _ = false

-- `200 * 2u64.pow(attempt - 1)`, which wraps at 2^64 in a release build
unfoldable pub backoff : ℕ → ℕ
backoff attempt = 200 * (2 ^ (attempt - 1) % 2 ^ 64) % 2 ^ 64

module _ {W A : Type 0} (sleep_ms : ℕ → Io W Unit) (call : Io W (Result Status A)) where
  -- The loop, after `attempt` retries, with `left` = `max - attempt`: `attempt < max` is `left`
  -- being a successor.
  attempts : ℕ → ℕ → Io W (Result CognitionError A)
  attempts zero attempt = do r ← call; pure (map_err from_status r)
  attempts (suc left) attempt = do
    r ← call
    elim r [
      | ok v ↦ pure (ok v)
      | err s ↦ elim (is_retryable s.code) [
        | true ↦ do sleep_ms (backoff (suc attempt)); attempts left (suc attempt)
        | false ↦ pure (err (from_status s))
      ]
    ]

  unfoldable pub with_retry : ℕ → Io W (Result CognitionError A)
  unfolding attempts is_retryable backoff
  with_retry max = attempts max 0

abbrev make_context : String → String → RequestContext
make_context session_id auth_token = record { session_id = session_id; auth_token = auth_token }

pub record CognitionClient (W : Type 0) : Type 0 where
  pub inner : Stub W
  pub settings : CognitionEngineSettings

module _ {W : Type 0} (client : CognitionClient W) where
  open client use {inner, settings}

  unfoldable pub complete :
      String
      → String
      → List Message
      → String
      → ℕ
      → ℤ
      → Io W (Result CognitionError CompleteResponse)
  complete session_id auth_token messages model temperature max_tokens =
      let req : CompleteRequest = record {
        context = make_context session_id auth_token;
        messages = messages;
        model = model;
        temperature = temperature;
        max_tokens = max_tokens;
      } in
      with_retry inner.sleep_ms (inner.complete req) settings.max_retries

  unfoldable pub count_tokens :
      String → String → List Message → String → Io W (Result CognitionError CountTokensResponse)
  count_tokens session_id auth_token messages model =
      let req : CountTokensRequest = record {
        context = make_context session_id auth_token;
        messages = messages;
        model = model;
      } in
      with_retry inner.sleep_ms (inner.count_tokens req) settings.max_retries

  unfoldable pub parse_output :
      String
      → String
      → String
      → String
      → List Message
      → Io W (Result CognitionError ParseOutputResponse)
  parse_output session_id auth_token raw_response schema_json context_messages =
      let req : ParseOutputRequest = record {
        context = make_context session_id auth_token;
        raw_response = raw_response;
        schema_json = schema_json;
        context_messages = context_messages;
      } in
      with_retry inner.sleep_ms (inner.parse_output req) settings.max_retries

  -- Not retried.
  unfoldable pub health_check : Io W (Result CognitionError Unit)
  health_check = do r ← inner.check ""; pure (map_err from_status r)

-- ===== src/Api/Router.antt =====
-- `build_router` of orchestrator/src/api/router.rs: which state each route has, and which of them the
-- auth middleware stands before. A route is a path with its method; how axum finds it is left out.
pub mod Access
use ai_assistant.Prelude.{ℕ, String, Option, none, some, Io, Result, ok, err}
use ai_assistant.Config.{Settings, AuthSettings}
use ai_assistant.AccessControl.{ValidatedUser}
use ai_assistant.AgentLoop.{Deps, Memory}
use ai_assistant.Api.Middleware.{auth_middleware}
use ai_assistant.Api.RateLimit.{Limiter, new}
use ai_assistant.Api.Webhook.{WebhookState}

pub data Route : Type 0 where
  ws webhook health : Route

-- `WsState` has the fields of `WebhookState`.
pub record Router (W N : Type 0) : Type 0 where
  pub ws_state : WebhookState W N
  pub webhook_state : WebhookState W N
  pub auth_config : AuthSettings

-- What the parts of the program are, beside the settings.
pub record Parts (W N : Type 0) : Type 0 where
  pub deps : Deps W N
  pub memory : Memory W
  pub keyed : ℕ → Limiter W
  pub new_v4 : Io W String
  pub requests_total : String → Io W Unit
  pub request_duration_ms : String → ℕ → Io W Unit

module _ {W N : Type 0} (parts : Parts W N) (settings : Settings) where
  abbrev state_of : String → Option (Limiter W) → WebhookState W N
  state_of endpoint rate_limiter = record {
    deps = parts.deps;
    memory = parts.memory;
    rate_limiter = rate_limiter;
    agent = settings.agent;
    new_v4 = parts.new_v4;
    requests_total = parts.requests_total endpoint;
    request_duration_ms = parts.request_duration_ms endpoint;
  }

  -- Both routes share one limiter.
  unfoldable pub build_router : Router W N
  build_router =
      let rate_limiter = new parts.keyed settings.agent.rate_limit_rpm in
      record {
        ws_state = state_of "ws" rate_limiter;
        webhook_state = state_of "webhook" rate_limiter;
        auth_config = settings.auth;
      }

abbrev admitted : Result ℕ ValidatedUser → Result ℕ (Option ValidatedUser)
admitted (ok user) = ok (some user)
admitted (err status) = err status

-- The user that the handler of a route is given, or the status of the middleware's refusal; `header`
-- is the request's `Authorization`.
unfoldable pub enter :
    {W N : Type 0} → Router W N → Route → Option String → Result ℕ (Option ValidatedUser)
enter router health header = ok none
enter router ws header = admitted (auth_middleware router.auth_config header)
enter router webhook header = admitted (auth_middleware router.auth_config header)

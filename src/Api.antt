-- ===== src/Api.antt =====
-- orchestrator/src/api: the HTTP layer.
pub mod Types
pub mod Middleware
pub mod RateLimit
pub mod Webhook
pub mod WebSocket
pub mod Router

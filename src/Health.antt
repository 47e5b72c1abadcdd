-- ===== src/Health.antt =====
-- orchestrator/src/health/mod.rs and orchestrator/src/heartbeat/mod.rs: the shared health report,
-- the HTTP handler that shows it, and the background task that writes it.
pub mod Status
pub mod Laws
pub mod Eviction
use ai_assistant.Prelude.{
  ℕ, zero, suc, Bool, true, false, Option, none, some, Io, pure, ◌>>=◌, ◌>>◌, Result, ok, err,
  if◌then◌else◌,
}
use ai_assistant.Errors.{CognitionError, MemoryError}
use ai_assistant.Config.{AgentSettings}
use ai_assistant.Cognition.{CognitionClient, health_check}
use Status.{SubsystemStatus, degraded, down, is_down, HealthReport, HealthState, update, report}
use ai_assistant.Session.{Clock, SessionStore, cleanup_expired, len}

-- `GET /health`: the status code and the report.
unfoldable pub health_handler : HealthState → ℕ × HealthReport
health_handler health =
    let shown = report health in (if is_down shown.status then 503 else 200, shown)

-- What the task shares with the rest of the program: the sessions, the report, and whether the gRPC
-- health service says that it serves.
pub record Shared : Type 0 where
  pub sessions : SessionStore
  pub health : HealthState
  pub serving : Bool

abbrev pub status_of : {E : Type 0} → Result E Unit → SubsystemStatus
status_of (ok _) = SubsystemStatus.ok
status_of (err e) = down

unfoldable pub overall : SubsystemStatus → SubsystemStatus → SubsystemStatus
overall ce_status qdrant_status =
    if is_down ce_status
    then down
    else if is_down qdrant_status
    then degraded
    else SubsystemStatus.ok

module _ {W : Type 0} (clock : Clock W) (cognition : CognitionClient W)
    (memory : Option (Io W (Result MemoryError Unit))) (settings : AgentSettings) where
  -- Without a memory store Qdrant counts as down.
  unfoldable pub check_qdrant : Option (Io W (Result MemoryError Unit)) → Io W SubsystemStatus
  check_qdrant none = pure down
  check_qdrant (some ping) = do r ← ping; pure (status_of r)

  -- The body of the loop, after the sleep.
  unfoldable pub beat : Shared → Io W Shared
  beat shared = do
    ce ← health_check cognition
    let ce_status = status_of ce
    qdrant_status ← check_qdrant memory
    (cleaned, sessions) ← cleanup_expired clock settings.session_idle_timeout_secs shared.sessions
    let status = overall ce_status qdrant_status
    pure (record {
      sessions = sessions;
      health =
          update
            (record {
              status = status;
              cognition_engine = ce_status;
              qdrant = qdrant_status;
              active_sessions = len sessions;
            })
            shared.health;
      serving = if is_down status then false else true;
    })

  -- The task: `n` rounds of its loop, each after a sleep of the interval, in seconds.
  unfoldable pub run : (ℕ → Io W Unit) → ℕ → Shared → Io W Shared
  run sleep zero shared = pure shared
  run sleep (suc n) shared = do
    sleep settings.heartbeat_interval_secs
    shared' ← beat shared
    run sleep n shared'

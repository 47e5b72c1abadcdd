-- ===== src/Health/Status.antt =====
-- `SubsystemStatus`, `HealthReport` and `HealthState` of orchestrator/src/health/mod.rs.
use ai_assistant.Prelude.{ℕ, Bool, true, false}

pub data SubsystemStatus : Type 0 where
  ok degraded down : SubsystemStatus

abbrev pub is_down : SubsystemStatus → Bool
is_down down = true
is_down _ = false

pub record HealthReport : Type 0 where
  pub status : SubsystemStatus
  pub cognition_engine : SubsystemStatus
  pub qdrant : SubsystemStatus
  pub active_sessions : ℕ

-- The report behind its lock; an operation holds the lock while it runs.
pub record HealthState : Type 0 where
  pub inner : HealthReport

-- `new`, before the first round.
abbrev pub initial : HealthState
initial = record {
  inner = record { status = ok; cognition_engine = ok; qdrant = ok; active_sessions = 0 };
}

abbrev pub update : HealthReport → HealthState → HealthState
update report health = record health { inner = report }

abbrev pub report : HealthState → HealthReport
report health = health.inner

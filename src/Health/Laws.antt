-- ===== src/Health/Laws.antt =====
-- What a round of the heartbeat (orchestrator/src/heartbeat/mod.rs) publishes.
use ai_assistant.Prelude.{
  ℕ, ◌≡◌, ◌↔◌, refl, Bool, true, false, Option, none, some, Io, Result, ok, err, arith,
  if◌then◌else◌,
}
use ai_assistant.Errors.{CognitionError, MemoryError}
use ai_assistant.Config.{AgentSettings}
use ai_assistant.Cognition.{CognitionClient, health_check}
use ai_assistant.Session.{Clock, len}
use ai_assistant.Health.Status.{SubsystemStatus, down, is_down, HealthReport}
use ai_assistant.Health.{Shared, beat, overall, status_of, check_qdrant, health_handler}

-- What a client and the gRPC health service learn, where `engine` is the result of the engine's health
-- check and `Pinged` says that there is a memory store and it answered.
pub record Published (engine : Result CognitionError Unit) (Pinged : Type 0) (code : ℕ)
    (shown : HealthReport) (serving : Bool) : Type 0 where
  pub healthy : (code ≡ 200) ↔ (engine ≡ ok tt)
  pub unhealthy : (code ≡ 503) ↔ ((e : CognitionError) × (engine ≡ err e))
  pub serves : (serving ≡ true) ↔ (engine ≡ ok tt)
  pub engine_ok : (shown.cognition_engine ≡ SubsystemStatus.ok) ↔ (engine ≡ ok tt)
  pub engine_down : (shown.cognition_engine ≡ down) ↔ ((e : CognitionError) × (engine ≡ err e))
  pub qdrant_ok : (shown.qdrant ≡ SubsystemStatus.ok) ↔ Pinged
  pub all_ok : (shown.status ≡ SubsystemStatus.ok) ↔ ((engine ≡ ok tt) × Pinged)

abbrev shown_as : SubsystemStatus → SubsystemStatus → ℕ → HealthReport
shown_as ce q n = record {
  status = overall ce q;
  cognition_engine = ce;
  qdrant = q;
  active_sessions = n;
}

-- The status of Qdrant in the report.
data Asked (Pinged : Type 0) : SubsystemStatus → Type 0 where
  pinged : Pinged → Asked Pinged SubsystemStatus.ok
  silent : ¬ Pinged → Asked Pinged down

overall-Published :
    (r : Result CognitionError Unit) (q : SubsystemStatus) (Pinged : Type 0) (count : ℕ)
    → Asked Pinged q
    → Published r Pinged
        (if is_down (overall (status_of r) q) then 503 else 200)
        (shown_as (status_of r) q count)
        (if is_down (overall (status_of r) q) then false else true)
unfolding overall
overall-Published (ok u) _ Pinged count (pinged p) = record {
  healthy = (λ _. refl, λ _. refl);
  unhealthy = (λ x. absurd (omega (arith, x)), λ (e, x). cc);
  serves = (λ _. refl, λ _. refl);
  engine_ok = (λ _. refl, λ _. refl);
  engine_down = (λ x. cc, λ (e, x). cc);
  qdrant_ok = (λ _. p, λ _. refl);
  all_ok = (λ _. (refl, p), λ _. refl);
}
overall-Published (ok u) _ Pinged count (silent n) = record {
  healthy = (λ _. refl, λ _. refl);
  unhealthy = (λ x. absurd (omega (arith, x)), λ (e, x). cc);
  serves = (λ _. refl, λ _. refl);
  engine_ok = (λ _. refl, λ _. refl);
  engine_down = (λ x. cc, λ (e, x). cc);
  qdrant_ok = (λ x. cc, λ p. absurd (n p));
  all_ok = (λ x. cc, λ (x, p). absurd (n p));
}
overall-Published (err e) _ Pinged count (pinged p) = record {
  healthy = (λ x. absurd (omega (arith, x)), λ x. cc);
  unhealthy = (λ _. (e, refl), λ _. refl);
  serves = (λ x. cc, λ x. cc);
  engine_ok = (λ x. cc, λ x. cc);
  engine_down = (λ _. (e, refl), λ _. refl);
  qdrant_ok = (λ _. p, λ _. refl);
  all_ok = (λ x. cc, λ (x, p). cc);
}
overall-Published (err e) _ Pinged count (silent n) = record {
  healthy = (λ x. absurd (omega (arith, x)), λ x. cc);
  unhealthy = (λ _. (e, refl), λ _. refl);
  serves = (λ x. cc, λ x. cc);
  engine_ok = (λ x. cc, λ x. cc);
  engine_down = (λ _. (e, refl), λ _. refl);
  qdrant_ok = (λ x. cc, λ p. absurd (n p));
  all_ok = (λ x. cc, λ (x, p). cc);
}

module _ {W : Type 0} (clock : Clock W) (cognition : CognitionClient W)
    (memory : Option (Io W (Result MemoryError Unit))) (settings : AgentSettings) (shared : Shared)
    (w : W) where
  abbrev after : Shared
  after = (beat clock cognition memory settings shared w).0

  abbrev engine : Result CognitionError Unit
  engine = (health_check cognition w).0

  -- There is a memory store, and it answered.
  abbrev pub Answers : Option (Io W (Result MemoryError Unit)) → W → Type 0
  Answers none v = ⊥
  Answers (some ping) v = (ping v).0 ≡ ok tt

  Asked-check_qdrant :
      (o : Option (Io W (Result MemoryError Unit))) (v : W)
      → Asked (Answers o v) (check_qdrant clock cognition memory settings o v).0
  unfolding check_qdrant
  Asked-check_qdrant none v = silent (λ x. x)
  Asked-check_qdrant (some ping) v = by_reply (ping v).0
    where
      by_reply : (r : Result MemoryError Unit) → Asked (r ≡ ok tt) (status_of r)
      by_reply (ok u) = pinged refl
      by_reply (err e) = silent (λ x. cc)

  -- After a round, `GET /health` answers 200 exactly when the engine's health check succeeded and 503
  -- exactly when it failed. The gRPC service says that it serves, and the report shows the engine as
  -- ok, exactly in the first case; the report shows Qdrant as ok exactly when there is a memory store
  -- and it answered, the whole as ok exactly when both are, and as many sessions as the store has.
  pub beat-health :
      Published engine
        (Answers memory (health_check cognition w).1)
        (health_handler after.health).0
        (health_handler after.health).1
        after.serving
      × ((health_handler after.health).1.active_sessions ≡ len after.sessions)
  unfolding beat health_handler
  beat-health = (
    overall-Published engine _ _ _ (Asked-check_qdrant memory (health_check cognition w).1),
    refl,
  )

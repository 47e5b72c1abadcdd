-- ===== src/Cognition/Cost.antt =====
-- How many attempts the retries of orchestrator/src/cognition_client/mod.rs make.
use ai_assistant.Prelude.{
  ℕ, zero, suc, ◌+◌, ◌≤◌, inl, inr, Io, Result, arith, Bool-cases, Result-cases,
}
use ai_assistant.Errors.{Status}
use ai_assistant.Cognition.{is_retryable, backoff, attempts, with_retry}

-- `cost` grows by at most one with each attempt, and not with a delay.
module _ {W A : Type 0} (sleep_ms : ℕ → Io W Unit) (call : Io W (Result Status A)) (cost : W → ℕ)
    (called : (w : W) → cost (call w).1 ≤ cost w + 1)
    (slept : (ms : ℕ) (w : W) → cost (sleep_ms ms w).1 ≤ cost w) where
  cost-attempts :
      (left a : ℕ) (w : W) → cost (attempts sleep_ms call left a w).1 ≤ cost w + suc left
  unfolding attempts
  cost-attempts zero a w = called w
  cost-attempts (suc left) a w = elim (Result-cases (call w).0) [
    | inl (v, e) ↦ ground (arith, e, called w)
    | inr (s, e) ↦ elim (Bool-cases (is_retryable s.code)) [
      | inl again ↦
          let w' = (call w).1 in
          let next = cost-attempts left (suc a) (sleep_ms (backoff (suc a)) w').1 in
          ground (arith, e, again, called w, slept (backoff (suc a)) w', next)
      | inr final ↦ ground (arith, e, final, called w)
    ]
  ]

  pub cost-with_retry :
      (max : ℕ) (w : W) → cost (with_retry sleep_ms call max w).1 ≤ cost w + suc max
  unfolding with_retry
  cost-with_retry max w = cost-attempts max 0 w

-- ===== src/Cognition/Retry.antt =====
-- The retries of orchestrator/src/cognition_client/mod.rs: which attempt decides the result, and
-- the delays between attempts.
use native.Mathlib.Nat.{pow-le-pow_right, pow-suc}
use ai_assistant.Prelude.{
  ℕ, zero, suc, ◌+◌, ◌-◌, ◌*◌, ◌^◌, ◌≤◌, ◌<◌, ◌≡◌, ◌⊎◌, inl, inr, refl, true, Io, Result, ok, err,
  map_err, arith, Bool-cases, Result-cases, Or-map, dec_lt, subst,
}
use ai_assistant.Errors.{Status, CognitionError, from_status}
use ai_assistant.Cognition.{is_retryable, backoff, attempts, with_retry}

-- Before its wrap-around the delay of a retry is 200 ms, doubled for each earlier retry.
backoff-suc : (k : ℕ) → k ≤ 56 → backoff (suc k) ≡ 200 * 2 ^ k
unfolding backoff
backoff-suc k h =
    let e : suc k - 1 ≡ k = omega arith in
    rw e (omega (arith, pow-le-pow_right {n = 2} (omega arith) {i = k} {j = 56} h))

eighth_pow : (k : ℕ) → (m : ℕ) × (2 ^ (61 + k) ≡ 2 ^ 61 * m)
eighth_pow zero = (1, refl)
eighth_pow (suc k) =
    let (m, e) = eighth_pow k in
    let step : 61 + suc k ≡ suc (61 + k) = omega arith in
    (m * 2, rw (step, pow-suc) (omega (arith, e)))

-- From the 62nd retry on, the wrap-around makes the delay 0.
pub backoff-eq-zero : (k : ℕ) → backoff (62 + k) ≡ 0
unfolding backoff
backoff-eq-zero k =
    let (m, e) = eighth_pow k in
    let step : 62 + k - 1 ≡ 61 + k = omega arith in rw (step, e) (omega arith)

-- A reply that is a retryable failure.
abbrev pub IsTransient : {A : Type 0} → Result Status A → Type 0
IsTransient (ok v) = ⊥
IsTransient (err s) = is_retryable s.code ≡ true

module _ {W A : Type 0} (sleep_ms : ℕ → Io W Unit) (call : Io W (Result Status A)) where
  -- The world before attempt `k` (from 0), when all attempts before it fail.
  abbrev pub before : ℕ → W → W
  before zero w = w
  before (suc k) w = (sleep_ms (200 * 2 ^ k) (call (before k w)).1).1

  abbrev pub reply : ℕ → W → Result Status A
  reply k w = (call (before k w)).0

  -- Attempt `k` decides.
  pub record Decides (from upto : ℕ) (w : W) (out : Result CognitionError A × W) (k : ℕ)
      : Type 0 where
    pub at_least : from ≤ k
    pub at_most : k ≤ upto
    pub result : out.0 ≡ map_err from_status (reply k w)
    pub world : out.1 ≡ (call (before k w)).1
    pub transient : (j : ℕ) → from ≤ j → j < k → IsTransient (reply j w)
    pub final : (k ≡ upto) ⊎ (¬ IsTransient (reply k w))

  -- A transient failure with retries left: the delay, and the next attempt.
  attempts-suc :
      (left a : ℕ) (w : W)
      → a ≤ 56
      → IsTransient (reply a w)
      → attempts sleep_ms call (suc left) a (before a w)
        ≡ attempts sleep_ms call left (suc a) (before (suc a) w)
  unfolding attempts
  attempts-suc left a w fits t = elim (Result-cases (reply a w)) [
    | inl (v, e) ↦ absurd (rw e at t)
    | inr (s, e) ↦
        let again : is_retryable s.code ≡ true = rw e at t in rw (e, again, backoff-suc a fits)
  ]

  earlier :
      {a k : ℕ} (w : W)
      → IsTransient (reply a w)
      → ((j : ℕ) → suc a ≤ j → j < k → IsTransient (reply j w))
      → (j : ℕ) → a ≤ j
      → j < k
      → IsTransient (reply j w)
  earlier {a} {k} w now later j p q = elim (dec_lt a j) [
    | yes less ↦ later j less q
    | no not_less ↦ let same : a ≡ j = omega arith in subst (λ i. IsTransient (reply i w)) same now
  ]

  attempts-Decides :
      (left a : ℕ) (w : W)
      → a + left ≤ 57
      → (k : ℕ) × Decides a (a + left) w (attempts sleep_ms call left a (before a w)) k
  unfolding attempts
  attempts-Decides zero a w fits = (
    a,
    record {
      at_least = omega arith;
      at_most = omega arith;
      result = refl;
      world = refl;
      transient = λ j p q. absurd (omega arith);
      final = inl (omega arith);
    },
  )
  attempts-Decides (suc left) a w fits = elim (Result-cases (reply a w)) [
    | inl (v, e) ↦ (
      a,
      record {
        at_least = omega arith;
        at_most = omega arith;
        result = ground arith;
        world = ground arith;
        transient = λ j p q. absurd (omega arith);
        final = inr (rw e (λ t. t));
      },
    )
    | inr (s, e) ↦ elim (Bool-cases (is_retryable s.code)) [
      | inl again ↦
          let t : IsTransient (reply a w) = rw e again in
          let (k, d) = attempts-Decides left (suc a) w (omega arith) in
          rw (attempts-suc left a w (omega arith) t) (
            k,
            record {
              at_least = omega (arith, d.at_least);
              at_most = omega (arith, d.at_most);
              result = d.result;
              world = d.world;
              transient = earlier w t d.transient;
              final = Or-map (λ same. omega (arith, same)) d.final;
            },
          )
      | inr never ↦ (
        a,
        record {
          at_least = omega arith;
          at_most = omega arith;
          result = ground arith;
          world = ground arith;
          transient = λ j p q. absurd (omega arith);
          final = inr (rw e (λ t. cc));
        },
      )
    ]
  ]

  -- With at most 57 retries, `with_retry` returns what one attempt replied: a success, a failure
  -- that is no retryable one, or the last attempt that is allowed. Every attempt before it failed
  -- with a retryable code, retry `k` came 200 * 2^(k-1) ms after the failure before it, and after
  -- the deciding attempt nothing more is called.
  pub with_retry-Decides :
      (max : ℕ) (w : W) → max ≤ 57 → (k : ℕ) × Decides 0 max w (with_retry sleep_ms call max w) k
  unfolding with_retry
  with_retry-Decides max w h =
      let (k, d) = attempts-Decides max 0 w (omega arith) in
      let e : 0 + max ≡ max = omega arith in
      (k, subst (λ u. Decides 0 u w (attempts sleep_ms call max 0 w) k) e d)

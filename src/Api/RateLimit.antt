-- ===== src/Api/RateLimit.antt =====
-- orchestrator/src/api/rate_limit.rs: the limiter of each session. The token bucket is the crate
-- `governor`'s: `check_key` spends one cell of a key's bucket, if there is one.
use ai_assistant.Prelude.{ℕ, zero, suc, String, Bool, true, Option, none, some, Io, pure}

abbrev pub Limiter : Type 0 → Type 0
Limiter W = String → Io W Bool

-- `None` if the number of requests per minute is zero.
unfoldable pub new : {W : Type 0} → (ℕ → Limiter W) → ℕ → Option (Limiter W)
new keyed zero = none
new keyed (suc rpm) = some (keyed (suc rpm))

unfoldable pub check : {W : Type 0} → Option (Limiter W) → String → Io W Bool
check none session_id = pure true
check (some check_key) session_id = check_key session_id

-- ===== src/AgentLoop/Trim.antt =====
-- The token trimming of orchestrator/src/agent_loop/mod.rs: a loop that removes the oldest message
-- after the first until the engine counts no more tokens than the budget, or two messages are left.
pub mod Laws
pub mod Cost
use ai_assistant.Prelude.{
  ℕ, String, Bool, true, false, List, [], ◌∷◌, ℤ, leb_ℤ, Io, pure, ◌>>=◌, Result, ok, err,
}
use ai_assistant.Errors.{CognitionError}
use ai_assistant.Proto.{Message, CountTokensResponse}

-- `count` is the client's `count_tokens` for this session.
module _ {W : Type 0} (count : List Message → Io W (Result CognitionError CountTokensResponse))
    (budget : ℤ) where
  abbrev judge : Result CognitionError CountTokensResponse → Result CognitionError Bool
  judge (err e) = err e
  judge (ok count_res) = ok (leb_ℤ count_res.token_count budget)

  -- One count: an error ends the turn, `true` says that the history fits.
  unfoldable pub check_budget : List Message → Io W (Result CognitionError Bool)
  check_budget history = do count_res ← count history; pure (judge count_res)

  abbrev ended : Result CognitionError Bool → Result CognitionError Unit
  ended (err e) = err e
  ended (ok fits) = ok tt

  -- `break`, or the loop on the history that the removal leaves.
  abbrev go_on :
      List Message
      → Io W (Result CognitionError Unit × List Message)
      → Result CognitionError Bool
      → Io W (Result CognitionError Unit × List Message)
  go_on history shorter (err e) = pure (err e, history)
  go_on history shorter (ok true) = pure (ok tt, history)
  go_on history shorter (ok false) = shorter

  -- The loop on a history of `m0` and the messages after it.
  unfoldable pub trim_rest :
      Message → List Message → Io W (Result CognitionError Unit × List Message)
  trim_rest m0 [] = do r ← check_budget (m0 ∷ []); pure (ended r, m0 ∷ [])
  trim_rest m0 (m1 ∷ []) = do r ← check_budget (m0 ∷ m1 ∷ []); pure (ended r, m0 ∷ m1 ∷ [])
  trim_rest m0 (m1 ∷ m2 ∷ rest) = do
    r ← check_budget (m0 ∷ m1 ∷ m2 ∷ rest)
    go_on (m0 ∷ m1 ∷ m2 ∷ rest) (trim_rest m0 (m2 ∷ rest)) r

  unfoldable pub trim : List Message → Io W (Result CognitionError Unit × List Message)
  trim [] = do r ← check_budget []; pure (ended r, [])
  trim (m0 ∷ rest) = trim_rest m0 rest

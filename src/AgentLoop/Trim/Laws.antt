-- ===== src/AgentLoop/Trim/Laws.antt =====
-- What the token trimming of orchestrator/src/agent_loop/mod.rs leaves of a history.
use ai_assistant.Prelude.{
  ◌≤◌, ◌≡◌, refl, inl, inr, true, false, List, [], ◌∷◌, ℤ, leb_ℤ, Io, Result, ok, err, length,
  arith, Result-cases, Bool-cases,
}
use ai_assistant.Errors.{CognitionError}
use ai_assistant.Proto.{Message, CountTokensResponse}
use ai_assistant.AgentLoop.Trim.{check_budget, trim_rest, trim}

module _ {W : Type 0} (count : List Message → Io W (Result CognitionError CountTokensResponse))
    (budget : ℤ) where
  -- `h'` is `h` without some of the oldest messages after the first. Each was removed because the
  -- engine counted more tokens than the budget, with the message there; the last one always stays.
  pub data Trims : List Message → List Message → Type 0 where
    same : {h : List Message} → Trims h h
    oldest :
        {m0 m1 m2 : Message} {rest h' : List Message} (w : W) (c : CountTokensResponse)
        → (count (m0 ∷ m1 ∷ m2 ∷ rest) w).0 ≡ ok c
        → leb_ℤ c.token_count budget ≡ false
        → Trims (m0 ∷ m2 ∷ rest) h'
        → Trims (m0 ∷ m1 ∷ m2 ∷ rest) h'

  pub Trims-length-le : {h h' : List Message} → Trims h h' → length h' ≤ length h
  Trims-length-le same = omega arith
  Trims-length-le (oldest w c e above t) = omega (arith, Trims-length-le t)

  -- How the loop ended on the history `h'`: with an error of the count of `h'`, with a count of `h'`
  -- within the budget, or with two messages or fewer.
  pub data Stops (h' : List Message) : Result CognitionError Unit → Type 0 where
    failed : {e : CognitionError} (w : W) → (count h' w).0 ≡ err e → Stops h' (err e)
    fits :
        (w : W) (c : CountTokensResponse)
        → (count h' w).0 ≡ ok c
        → leb_ℤ c.token_count budget ≡ true
        → Stops h' (ok tt)
    short :
        (w : W) (c : CountTokensResponse) → (count h' w).0 ≡ ok c → length h' ≤ 2 → Stops h' (ok tt)

  abbrev Ends : List Message → Result CognitionError Unit × List Message → Type 0
  Ends h (r, h') = Trims h h' × Stops h' r

  trim_rest-Ends :
      (m0 : Message) (rest : List Message) (w : W)
      → Ends (m0 ∷ rest) (trim_rest count budget m0 rest w).0
  unfolding trim_rest check_budget
  trim_rest-Ends m0 [] w = elim (Result-cases (count (m0 ∷ []) w).0) [
    | inl (c, e) ↦ rw e (same, short w c e (omega arith))
    | inr (x, e) ↦ rw e (same, failed w e)
  ]
  trim_rest-Ends m0 (m1 ∷ []) w = elim (Result-cases (count (m0 ∷ m1 ∷ []) w).0) [
    | inl (c, e) ↦ rw e (same, short w c e (omega arith))
    | inr (x, e) ↦ rw e (same, failed w e)
  ]
  trim_rest-Ends m0 (m1 ∷ m2 ∷ rest) w = elim (Result-cases (count (m0 ∷ m1 ∷ m2 ∷ rest) w).0) [
    | inr (x, e) ↦ rw e (same, failed w e)
    | inl (c, e) ↦ elim (Bool-cases (leb_ℤ c.token_count budget)) [
      | inl within ↦ rw (e, within) (same, fits w c e within)
      | inr above ↦
          let (t, s) = trim_rest-Ends m0 (m2 ∷ rest) (count (m0 ∷ m1 ∷ m2 ∷ rest) w).1 in
          rw (e, above) (oldest w c e above t, s)
    ]
  ]

  -- Trimming removes only messages between the first and the last, the oldest first. It stops at the
  -- first error of the token count, and otherwise with a history that the engine counted within the
  -- budget, or of at most two messages.
  pub trim-Ends : (h : List Message) (w : W) → Ends h (trim count budget h w).0
  unfolding trim check_budget
  trim-Ends [] w = elim (Result-cases (count [] w).0) [
    | inl (c, e) ↦ rw e (same, short w c e (omega arith))
    | inr (x, e) ↦ rw e (same, failed w e)
  ]
  trim-Ends (m0 ∷ rest) w = trim_rest-Ends m0 rest w

  -- Where the first count fails, the trimming ends with that error and the whole history.
  pub trim-failed :
      (h : List Message) (w : W) (e : CognitionError)
      → (count h w).0 ≡ err e
      → (trim count budget h w).0 ≡ (err e, h)
  unfolding trim trim_rest check_budget
  trim-failed [] w e h = rw h refl
  trim-failed (m0 ∷ []) w e h = rw h refl
  trim-failed (m0 ∷ m1 ∷ []) w e h = rw h refl
  trim-failed (m0 ∷ m1 ∷ m2 ∷ rest) w e h = rw h refl

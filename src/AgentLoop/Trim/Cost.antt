-- ===== src/AgentLoop/Trim/Cost.antt =====
-- How many token counts the trimming of orchestrator/src/agent_loop/mod.rs makes.
use ai_assistant.Prelude.{
  ℕ, ◌+◌, ◌*◌, ◌≤◌, ◌≡◌, inl, inr, List, [], ◌∷◌, ℤ, leb_ℤ, Io, Result, length, arith, Result-cases,
  Bool-cases,
}
use ai_assistant.Errors.{CognitionError}
use ai_assistant.Proto.{Message, CountTokensResponse}
use ai_assistant.AgentLoop.Trim.{check_budget, trim_rest, trim}

-- `cost` grows by at most `each` with a token count.
module _ {W : Type 0} (count : List Message → Io W (Result CognitionError CountTokensResponse))
    (budget : ℤ) (cost : W → ℕ) (each : ℕ)
    (counted : (h : List Message) (w : W) → cost (count h w).1 ≤ cost w + each) where
  -- Every count but one is paid for by a message that is removed.
  abbrev pub Paid : ℕ → List Message → (Result CognitionError Unit × List Message) × W → Type 0
  Paid before h ((r, h'), w') = cost w' + each * length h' ≤ before + each * length h + each

  trim_rest-Paid :
      (m0 : Message) (rest : List Message) (w : W)
      → Paid (cost w) (m0 ∷ rest) (trim_rest count budget m0 rest w)
  unfolding trim_rest check_budget
  trim_rest-Paid m0 [] w = omega (arith, counted (m0 ∷ []) w)
  trim_rest-Paid m0 (m1 ∷ []) w = omega (arith, counted (m0 ∷ m1 ∷ []) w)
  trim_rest-Paid m0 (m1 ∷ m2 ∷ rest) w =
      let h = m0 ∷ m1 ∷ m2 ∷ rest in
      elim (Result-cases (count h w).0) [
        | inr (x, e) ↦ rw e (omega (arith, counted h w))
        | inl (c, e) ↦ elim (Bool-cases (leb_ℤ c.token_count budget)) [
          | inl within ↦ rw (e, within) (omega (arith, counted h w))
          | inr above ↦
              let paid = trim_rest-Paid m0 (m2 ∷ rest) (count h w).1 in
              let one : each * length h ≡ each + each * length (m0 ∷ m2 ∷ rest) = grind arith in
              rw (e, above) (omega (arith, counted h w, paid, one))
        ]
      ]

  pub trim-Paid : (h : List Message) (w : W) → Paid (cost w) h (trim count budget h w)
  unfolding trim check_budget
  trim-Paid [] w = omega (arith, counted [] w)
  trim-Paid (m0 ∷ rest) w = trim_rest-Paid m0 rest w

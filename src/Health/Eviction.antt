-- ===== src/Health/Eviction.antt =====
-- Sessions that nobody uses, under the background task of orchestrator/src/heartbeat/mod.rs.
use ai_assistant.Prelude.{
  List, [], ◌∷◌, ℕ, zero, suc, ◌+◌, ◌*◌, ◌≤◌, String, ◌≡◌, ◌∙◌, refl, ap, ◌⊎◌, inl, inr, false,
  Option, none, some, Io, Result, arith, Bool-cases, if◌then◌else◌, get_elem?,
}
use ai_assistant.Errors.{MemoryError}
use ai_assistant.Config.{AgentSettings}
use ai_assistant.Cognition.{CognitionClient, health_check}
use ai_assistant.Session.{Clock, Cell, SessionStore, cleanup_expired, retain, is_kept, get}
use ai_assistant.Session.Invariant.{IsValid, cleanup_expired-IsValid}
use ai_assistant.Session.Cleanup.{
  survives, ticks, is_kept-ticks, get-cleanup_expired, cleanup_expired_frame,
}
use ai_assistant.Health.{Shared, beat, check_qdrant, run}

module _ {W : Type 0} (clock : Clock W) (cognition : CognitionClient W)
    (memory : Option (Io W (Result MemoryError Unit))) (sleep : ℕ → Io W Unit) where
  -- Time passes: the clock shows it, in nanoseconds, and a sleep takes its seconds.
  pub record Passes : Type 0 where
    pub time : W → ℕ
    pub shown : (w : W) → (clock.now w).0 ≡ time w
    pub read : (w : W) → time w ≤ time (clock.now w).1
    pub slept : (secs : ℕ) (w : W) → time w + secs * 1_000_000_000 ≤ time (sleep secs w).1
    pub checked : (service : String) (w : W) → time w ≤ time (cognition.inner.check service w).1
    pub pinged :
        (ping : Io W (Result MemoryError Unit)) (w : W)
        → memory ≡ some ping
        → time w ≤ time (ping w).1

module _ {W : Type 0} (clock : Clock W) (cognition : CognitionClient W)
    (memory : Option (Io W (Result MemoryError Unit))) (sleep : ℕ → Io W Unit)
    (passes : Passes clock cognition memory sleep) (settings : AgentSettings) where
  open passes use {time}

  abbrev timeout : ℕ
  timeout = settings.session_idle_timeout_secs

  time-ticks : (n : ℕ) (w : W) → time w ≤ time (ticks clock timeout n w)
  time-ticks zero w = omega arith
  time-ticks (suc n) w = omega (arith, passes.read w, time-ticks n (clock.now w).1)

  time-check_qdrant :
      (o : Option (Io W (Result MemoryError Unit))) (w : W)
      → memory ≡ o
      → time w ≤ time (check_qdrant clock cognition memory settings o w).1
  unfolding check_qdrant
  time-check_qdrant none w e = omega arith
  time-check_qdrant (some ping) w e = passes.pinged ping w e

  -- The world in which a round cleans up.
  abbrev before_cleanup : W → W
  before_cleanup w =
      (check_qdrant clock cognition memory settings memory (health_check cognition w).1).1

  time-before_cleanup : (w : W) → time w ≤ time (before_cleanup w)
  unfolding health_check
  time-before_cleanup w =
      omega (arith, passes.checked "" w, time-check_qdrant memory (health_check cognition w).1 refl)

  time-is_kept : (o : Option Cell) (w : W) → time w ≤ time (is_kept clock timeout o w).1
  time-is_kept o w = elim (is_kept-ticks clock timeout o w) [
    | inl unread ↦ rw unread (omega arith)
    | inr read ↦ rw read (passes.read w)
  ]

  time-retain :
      (cells : List Cell) (m : List (String × ℕ)) (w : W)
      → time w ≤ time (retain clock timeout cells m w).1
  unfolding retain
  time-retain cells [] w = omega arith
  time-retain cells ((id, a) ∷ rest) w = omega (
    arith,
    time-is_kept (get_elem? cells a) w,
    time-retain cells rest (is_kept clock timeout (get_elem? cells a) w).1,
  )

  module _ (id : String) (a : ℕ) (c : Cell) where
    -- The session is where it was, or under no identifier any more.
    record Rests (shared : Shared) : Type 0 where
      valid : IsValid shared.sessions
      at : get_elem? shared.sessions.cells a ≡ some c
      there : (get id shared.sessions ≡ some a) ⊎ (get id shared.sessions ≡ none)

    after_cleanup :
        (t : ℕ) (o : Option ℕ)
        → o ≡ (if survives timeout t c then some a else none)
        → (o ≡ some a) ⊎ (o ≡ none)
    after_cleanup t o e = elim (Bool-cases (survives timeout t c)) [
      | inl kept ↦ inl (e ∙ ap (λ b. if b then some a else none) kept)
      | inr gone ↦ inr (e ∙ ap (λ b. if b then some a else none) gone)
    ]

    cleanup_expired-there :
        (st : SessionStore) (w : W)
        → IsValid st
        → get_elem? st.cells a ≡ some c
        → (get id st ≡ some a) ⊎ (get id st ≡ none)
        → let st' = (cleanup_expired clock timeout st w).0.1 in
          (get id st' ≡ some a) ⊎ (get id st' ≡ none)
    cleanup_expired-there st w v at there = elim there [
      | inl here ↦
          let (n, fewer, left) = get-cleanup_expired clock timeout st w id a c v here at in
          after_cleanup _ _ left
      | inr gone ↦ inr (cleanup_expired_frame clock timeout st w id gone).0
    ]

    beat-Rests :
        (shared : Shared) (w : W)
        → Rests shared
        → Rests (beat clock cognition memory settings shared w).0
    unfolding beat cleanup_expired
    beat-Rests shared w r = record {
      valid = cleanup_expired-IsValid clock timeout shared.sessions (before_cleanup w) r.valid;
      at = r.at;
      there = cleanup_expired-there shared.sessions (before_cleanup w) r.valid r.at r.there;
    }

    time-beat :
        (shared : Shared) (w : W) → time w ≤ time (beat clock cognition memory settings shared w).1
    unfolding beat cleanup_expired
    time-beat shared w = omega (
      arith,
      time-before_cleanup w,
      time-retain shared.sessions.cells shared.sessions.sessions (before_cleanup w),
    )

    -- Idle for the timeout and unlocked, a session does not survive.
    survives-idle :
        (t : ℕ)
        → c.locked ≡ false
        → c.session.last_active + timeout * 1_000_000_000 ≤ t
        → survives timeout t c ≡ false
    survives-idle t free idle = ground (arith, free, idle)

    cleanup_expired-evicts :
        (st : SessionStore) (w : W)
        → IsValid st
        → get_elem? st.cells a ≡ some c
        → (get id st ≡ some a) ⊎ (get id st ≡ none)
        → c.locked ≡ false
        → c.session.last_active + timeout * 1_000_000_000 ≤ time w
        → get id (cleanup_expired clock timeout st w).0.1 ≡ none
    cleanup_expired-evicts st w v at there free idle = elim there [
      | inl here ↦
          let (n, fewer, left) = get-cleanup_expired clock timeout st w id a c v here at in
          let t = ticks clock timeout n w in
          let late : c.session.last_active + timeout * 1_000_000_000 ≤ (clock.now t).0 =
            omega (arith, idle, time-ticks n w, passes.shown t) in
          left ∙ ap (λ b. if b then some a else none) (survives-idle _ free late)
      | inr gone ↦ (cleanup_expired_frame clock timeout st w id gone).0
    ]

    beat-evicts :
        (shared : Shared) (w : W)
        → Rests shared
        → c.locked ≡ false
        → c.session.last_active + timeout * 1_000_000_000 ≤ time w
        → get id (beat clock cognition memory settings shared w).0.sessions ≡ none
    unfolding beat
    beat-evicts shared w r free idle =
        cleanup_expired-evicts shared.sessions (before_cleanup w) r.valid r.at r.there free
          (omega (arith, idle, time-before_cleanup w))

    run-evicts-Rests :
        (n : ℕ) (shared : Shared) (w : W)
        → Rests shared
        → c.locked ≡ false
        → c.session.last_active + timeout * 1_000_000_000
          ≤ time w + suc n * (settings.heartbeat_interval_secs * 1_000_000_000)
        → get id (run clock cognition memory settings sleep (suc n) shared w).0.sessions ≡ none
    unfolding run
    run-evicts-Rests zero shared w r free idle =
        beat-evicts shared (sleep settings.heartbeat_interval_secs w).1 r free
          (omega (arith, idle, passes.slept settings.heartbeat_interval_secs w))
    run-evicts-Rests (suc n) shared w r free idle =
        let w' = (sleep settings.heartbeat_interval_secs w).1 in
        let step : suc (suc n) * (settings.heartbeat_interval_secs * 1_000_000_000)
            ≡ settings.heartbeat_interval_secs * 1_000_000_000
              + suc n * (settings.heartbeat_interval_secs * 1_000_000_000) =
          grind arith in
        run-evicts-Rests n (beat clock cognition memory settings shared w').0
          (beat clock cognition memory settings shared w').1 (beat-Rests shared w' r) free
          (omega (
            arith,
            idle,
            step,
            passes.slept settings.heartbeat_interval_secs w,
            time-beat shared w',
          ))

module _ {W : Type 0} (clock : Clock W) (cognition : CognitionClient W)
    (memory : Option (Io W (Result MemoryError Unit))) (sleep : ℕ → Io W Unit)
    (passes : Passes clock cognition memory sleep) (settings : AgentSettings) where
  -- A session that is unlocked, in a valid store, is no longer found after as many rounds of
  -- the heartbeat (and at least one) as it takes to reach its timeout, where nothing else uses
  -- the store between the rounds: if the clock shows the time and a sleep takes its seconds.
  pub run-evicts :
      (n : ℕ) (shared : Shared) (w : W) (id : String) (a : ℕ) (c : Cell)
      → IsValid shared.sessions
      → get id shared.sessions ≡ some a
      → get_elem? shared.sessions.cells a ≡ some c
      → c.locked ≡ false
      → c.session.last_active + settings.session_idle_timeout_secs * 1_000_000_000
        ≤ passes.time w + suc n * (settings.heartbeat_interval_secs * 1_000_000_000)
      → get id (run clock cognition memory settings sleep (suc n) shared w).0.sessions ≡ none
  run-evicts n shared w id a c v there at free idle =
      run-evicts-Rests clock cognition memory sleep passes settings id a c n shared w
        (record { valid = v; at = at; there = inl there }) free idle

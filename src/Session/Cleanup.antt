-- ===== src/Session/Cleanup.antt =====
-- Which sessions `cleanup_expired` of orchestrator/src/session/mod.rs removes.
use ai_assistant.Prelude.{
  ℕ, zero, suc, ◌<◌, ◌⊎◌, subst, Option, ◌+◌, ◌-◌, ◌/◌, ◌≤◌, String, ◌≡◌, refl, inl, inr, Bool,
  ◌||◌, List, [], ◌∷◌, none, some, Io, arith, eq_iff, ◌==◌, ltb, if◌then◌else◌, get_elem?, length,
  lookup, Distinct, Bool-cases,
}
use ai_assistant.Session.{
  Clock, Cell, SessionStore, cleanup_expired, retain, is_kept, idle_secs, get, len,
}
use ai_assistant.Session.Invariant.{IsValid, lookup-retain-none}

-- Whether a session outlives a cleanup at which the clock shows `t`.
abbrev pub survives : ℕ → ℕ → Cell → Bool
survives threshold_secs t c =
    c.locked || ltb ((t - c.session.last_active) / 1_000_000_000) threshold_secs

module _ {W : Type 0} (clock : Clock W) (threshold_secs : ℕ) where
  open clock use {now}

  kept-eq-survives :
      (c : Cell) (w : W)
      → (is_kept clock threshold_secs (some c) w).0 ≡ survives threshold_secs (now w).0 c
  unfolding is_kept idle_secs
  kept-eq-survives c w = ground arith

  -- The world after the first entry's test, and the rest of the pass from there.
  abbrev tested : List Cell → ℕ → Io W Bool
  tested cells b = is_kept clock threshold_secs (get_elem? cells b)

  -- The world after the clock was read `n` times.
  abbrev pub ticks : ℕ → W → W
  ticks zero w = w
  ticks (suc n) w = ticks n (now w).1

  -- A test reads the clock once or not at all.
  pub is_kept-ticks :
      (o : Option Cell) (w : W)
      → let w' = (is_kept clock threshold_secs o w).1 in (w' ≡ w) ⊎ (w' ≡ (now w).1)
  unfolding is_kept idle_secs
  is_kept-ticks none w = inl refl
  is_kept-ticks (some c) w = elim (Bool-cases c.locked) [
    | inl held ↦ rw held (inl refl)
    | inr free ↦ rw free (inr refl)
  ]

  lookup-retain-cons :
      (cells : List Cell) (id j : String) (b : ℕ) (rest : List (String × ℕ)) (w : W)
      → let others = lookup id (retain clock threshold_secs cells rest (tested cells b w).1).0 in
        lookup id (retain clock threshold_secs cells ((j, b) ∷ rest) w).0
        ≡ (if (tested cells b w).0 then (if j == id then some b else others) else others)
  unfolding retain lookup
  lookup-retain-cons cells id j b rest w = ground arith

  -- What the pass over `m` leaves at `id`, if the test of its session reads the clock in `v`.
  abbrev Left : List Cell → String → ℕ → Cell → List (String × ℕ) → W → W → Type 0
  Left cells id a c m w v =
      lookup id (retain clock threshold_secs cells m w).0
      ≡ (if survives threshold_secs (now v).0 c then some a else none)

  retain-survives :
      (cells : List Cell) (id : String) (a : ℕ) (c : Cell) (m : List (String × ℕ)) (w : W)
      → get_elem? cells a ≡ some c
      → Distinct m
      → lookup id m ≡ some a
      → (n : ℕ) × (n < length m) × Left cells id a c m w (ticks n w)
  unfolding lookup
  retain-survives cells id a c [] w at d h = cc
  retain-survives cells id a c ((j, b) ∷ rest) w at (fresh, d) h = elim (Bool-cases (j == id)) [
    | inl same ↦
        let gone =
          lookup-retain-none clock threshold_secs cells j rest (tested cells b w).1 fresh in
        let here : b ≡ a = ground (arith, same) in
        (
          0,
          omega arith,
          ground (
            arith,
            lookup-retain-cons cells id j b rest w,
            kept-eq-survives c w,
            (eq_iff j id).0 same,
            gone,
            here,
            at,
          ),
        )
    | inr other ↦
        let w' = (tested cells b w).1 in
        let (n, fewer, ih) = retain-survives cells id a c rest w' at d (rw (other, lookup) at h) in
        let whole : Left cells id a c ((j, b) ∷ rest) w (ticks n w') =
          ground (arith, lookup-retain-cons cells id j b rest w, ih, other) in
        let from = λ (v : W). Left cells id a c ((j, b) ∷ rest) w (ticks n v) in
        elim (is_kept-ticks (get_elem? cells b) w) [
          | inl unread ↦ (n, omega (arith, fewer), subst from unread whole)
          | inr read ↦ (suc n, omega (arith, fewer), subst from read whole)
        ]
  ]

  length-retain-le :
      (cells : List Cell) (m : List (String × ℕ)) (w : W)
      → length (retain clock threshold_secs cells m w).0 ≤ length m
  unfolding retain
  length-retain-le cells [] w = omega arith
  length-retain-le cells ((j, b) ∷ rest) w =
      let (kept, w') = is_kept clock threshold_secs (get_elem? cells b) w in
      ground (arith, length-retain-le cells rest w')

  -- In a valid store, a session is kept by a cleanup exactly when it is locked, or when the whole
  -- seconds since its last activity are fewer than the threshold, at one of the readings of the clock
  -- that the cleanup makes, which are at most one for each entry.
  pub get-cleanup_expired :
      (st : SessionStore) (w : W) (id : String) (a : ℕ) (c : Cell)
      → IsValid st
      → get id st ≡ some a
      → get_elem? st.cells a ≡ some c
      → (n : ℕ) × (n < len st)
        × (get id (cleanup_expired clock threshold_secs st w).0.1
            ≡ (if survives threshold_secs (now (ticks n w)).0 c then some a else none))
  unfolding get cleanup_expired len
  get-cleanup_expired st w id a c v h at =
      retain-survives st.cells id a c st.sessions w at v.distinct h

  -- A cleanup brings no identifier back, changes no session, and returns the number of entries that
  -- it removed.
  pub cleanup_expired_frame :
      (st : SessionStore) (w : W) (id : String)
      → get id st ≡ none
      → let (n, st') = (cleanup_expired clock threshold_secs st w).0 in
        (get id st' ≡ none) × (st'.cells ≡ st.cells) × (n + len st' ≡ len st)
  unfolding get len cleanup_expired
  cleanup_expired_frame st w id gone = (
    lookup-retain-none clock threshold_secs st.cells id st.sessions w gone,
    refl,
    omega (arith, length-retain-le st.cells st.sessions w),
  )

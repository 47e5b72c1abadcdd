-- ===== src/Api/Webhook/Laws.antt =====
-- What `POST /webhook` (orchestrator/src/api/webhook.rs) does to the session store.
use ai_assistant.Prelude.{
  ℕ, String, ◌≡◌, ◌≢◌, refl, inl, inr, Bool, true, false, [], Option, none, some, arith, is_some,
  get_elem?-append_some, get_elem?-set_ne, Option-cases, ap, lt_of_get_elem?, lookup-insert,
  eq_refl, get_elem?,
}
use ai_assistant.AccessControl.{ValidatedUser}
use ai_assistant.Session.{Cell, SessionStore, create, get, deref, write_back}
use ai_assistant.Session.Invariant.{IsValid, create-IsValid, write_back-IsValid}
use ai_assistant.Session.Lookup.{create-IsFresh}
use ai_assistant.AgentLoop.{message, run_turn}
use ai_assistant.AgentLoop.History.{run_turn-SameSession}
use ai_assistant.Api.Types.{UserMessage}
use ai_assistant.Api.Webhook.{
  WebhookState, user_or_default, resume_or_create, resolve, locked_turn, turn, locate, admit,
  webhook_handler,
}

module _ {W N : Type 0} (state : WebhookState W N) where
  open state use {deps, memory, rate_limiter, agent, new_v4}

  resume_or_create-IsValid :
      (id : String) (b : Bool) (st : SessionStore) (w : W)
      → IsValid st
      → IsValid (resume_or_create state id b st w).0.1
  unfolding resume_or_create
  resume_or_create-IsValid id true st w v = v
  resume_or_create-IsValid id false st w v = create-IsValid deps.clock new_v4 [] st w v

  pub resolve-IsValid :
      (id : Option String) (st : SessionStore) (w : W)
      → IsValid st
      → IsValid (resolve state id st w).0.1
  unfolding resolve
  resolve-IsValid none st w v = create-IsValid deps.clock new_v4 [] st w v
  resolve-IsValid (some id) st w v = resume_or_create-IsValid id (is_some (get id st)) st w v

  resume_or_create-found :
      (id : String) (b : Bool) (st : SessionStore) (w : W)
      → is_some (get id st) ≡ b
      → let (id', st') = (resume_or_create state id b st w).0 in is_some (get id' st') ≡ true
  unfolding resume_or_create
  resume_or_create-found id true st w e = e
  resume_or_create-found id false st w e =
      ap is_some (create-IsFresh deps.clock new_v4 [] st w).found

  -- The session that a request is for.
  pub resolve-found :
      (id : Option String) (st : SessionStore) (w : W)
      → let (id', st') = (resolve state id st w).0 in is_some (get id' st') ≡ true
  unfolding resolve
  resolve-found none st w = ap is_some (create-IsFresh deps.clock new_v4 [] st w).found
  resolve-found (some id) st w = resume_or_create-found id (is_some (get id st)) st w refl

  -- The cell after the turn.
  abbrev ran : UserMessage → ValidatedUser → Cell → W → Cell
  ran payload user c w = record {
    session =
        (run_turn deps agent user.token user.policy memory (message payload.message) c.session
          w).0.1;
    locked = false;
  }

  turn-IsValid :
      (start : ℕ) (payload : UserMessage) (user : ValidatedUser) (id : String) (a : ℕ)
      (o : Option Cell) (st : SessionStore) (w : W)
      → deref a st ≡ o
      → IsValid st
      → IsValid (turn state start payload user id a o st w).0.1
  unfolding turn locked_turn deref
  turn-IsValid start payload user id a none st w e v = v
  turn-IsValid start payload user id a (some c) st w e v =
      let same =
        run_turn-SameSession deps agent user.token user.policy memory payload.message c.session w in
      let v' = write_back-IsValid a c (ran payload user c w) st e same.0 v in ground (arith, v, v')

  locate-IsValid :
      (start : ℕ) (payload : UserMessage) (user : ValidatedUser) (id : String) (a : Option ℕ)
      (st : SessionStore) (w : W)
      → IsValid st
      → IsValid (locate state start payload user id a st w).0.1
  unfolding locate
  locate-IsValid start payload user id none st w v = v
  locate-IsValid start payload user id (some a) st w v =
      turn-IsValid start payload user id a (deref a st) st w refl v

  admit-IsValid :
      (start : ℕ) (payload : UserMessage) (user : ValidatedUser) (id : String) (b : Bool)
      (st : SessionStore) (w : W)
      → IsValid st
      → IsValid (admit state start payload user id b st w).0.1
  unfolding admit
  admit-IsValid start payload user id false st w v = v
  admit-IsValid start payload user id true st w v =
      locate-IsValid start payload user id (get id st) st w v

  -- A request leaves a valid session store valid, however it ends.
  pub webhook_handler-IsValid :
      (user : Option ValidatedUser) (payload : UserMessage) (st : SessionStore) (w : W)
      → IsValid st
      → IsValid (webhook_handler state user payload st w).0.1
  unfolding webhook_handler
  webhook_handler-IsValid user payload st w v =
      admit-IsValid _ payload (user_or_default user) _ _ _ _
        (resolve-IsValid payload.session_id st _ v)

  -- The cell at `b` is no business of a request that works on another one.
  abbrev Untouched : ℕ → Cell → SessionStore → Type 0
  Untouched b c st = deref b st ≡ some c

  abbrev Elsewhere : ℕ → Option ℕ → Type 0
  Elsewhere b none = Unit
  Elsewhere b (some a) = a ≢ b

  create-Untouched :
      (b : ℕ) (c : Cell) (st : SessionStore) (w : W)
      → Untouched b c st
      → let (id, st') = (create deps.clock new_v4 [] st w).0 in
        Untouched b c st' × Elsewhere b (get id st')
  unfolding create get deref
  create-Untouched b c st w h = (
    get_elem?-append_some st.cells _ b h,
    simp (lookup-insert, eq_refl) (omega (arith, lt_of_get_elem? st.cells b h)),
  )

  locate-Untouched :
      (start : ℕ) (payload : UserMessage) (user : ValidatedUser) (id : String) (a : Option ℕ)
      (b : ℕ) (c : Cell) (st : SessionStore) (w : W)
      → Elsewhere b a
      → Untouched b c st
      → Untouched b c (locate state start payload user id a st w).0.1
  unfolding locate turn locked_turn deref write_back
  locate-Untouched start payload user id none b c st w ne h = h
  locate-Untouched start payload user id (some a) b c st w ne h =
      elim (Option-cases (get_elem? st.cells a)) [
        | inl none_there ↦ rw none_there h
        | inr (d, there) ↦
            rw there (ground (arith, h, get_elem?-set_ne st.cells (ran payload user d w) ne))
      ]

  resume_or_create-Untouched :
      (id : String) (known : Bool) (b : ℕ) (c : Cell) (st : SessionStore) (w : W)
      → Elsewhere b (get id st)
      → Untouched b c st
      → let (id', st') = (resume_or_create state id known st w).0 in
        Untouched b c st' × Elsewhere b (get id' st')
  unfolding resume_or_create
  resume_or_create-Untouched id true b c st w ne h = (h, ne)
  resume_or_create-Untouched id false b c st w ne h = create-Untouched b c st w h

  admit-Untouched :
      (start : ℕ) (payload : UserMessage) (user : ValidatedUser) (id : String) (allowed : Bool)
      (b : ℕ) (c : Cell) (st : SessionStore) (w : W)
      → Elsewhere b (get id st)
      → Untouched b c st
      → Untouched b c (admit state start payload user id allowed st w).0.1
  unfolding admit
  admit-Untouched start payload user id false b c st w ne h = h
  admit-Untouched start payload user id true b c st w ne h =
      locate-Untouched start payload user id (get id st) b c st w ne h

  -- Where the address that the client's identifier leads to.
  abbrev pub named : Option String → SessionStore → Option ℕ
  named none st = none
  named (some id) st = get id st

  resolve-Untouched :
      (id : Option String) (b : ℕ) (c : Cell) (st : SessionStore) (w : W)
      → Elsewhere b (named id st)
      → Untouched b c st
      → let (id', st') = (resolve state id st w).0 in Untouched b c st' × Elsewhere b (get id' st')
  unfolding resolve
  resolve-Untouched none b c st w ne h = create-Untouched b c st w h
  resolve-Untouched (some id) b c st w ne h =
      resume_or_create-Untouched id (is_some (get id st)) b c st w ne h

  Elsewhere-of_ne : (b : ℕ) (a : Option ℕ) → a ≢ some b → Elsewhere b a
  Elsewhere-of_ne b none ne = tt
  Elsewhere-of_ne b (some a) ne = λ e. ne (ap some e)

  -- A request changes no session but the one that its identifier names: every other session keeps
  -- its history, its state and its lock.
  pub webhook_handler-deref :
      (user : Option ValidatedUser) (payload : UserMessage) (st : SessionStore) (w : W) (b : ℕ)
      (c : Cell)
      → deref b st ≡ some c
      → named payload.session_id st ≢ some b
      → deref b (webhook_handler state user payload st w).0.1 ≡ some c
  unfolding webhook_handler
  webhook_handler-deref user payload st w b c h ne =
      let (h', ne') = resolve-Untouched payload.session_id b c st _ (Elsewhere-of_ne b _ ne) h in
      admit-Untouched _ payload (user_or_default user) _ _ b c _ _ ne' h'

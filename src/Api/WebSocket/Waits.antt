-- ===== src/Api/WebSocket/Waits.antt =====
-- What a connection to `/ws` (orchestrator/src/api/ws.rs) waits for.
use ai_assistant.Prelude.{
  ℕ, zero, suc, String, ◌≡◌, ◌⊎◌, inl, inr, refl, sym, ap, ◌∙◌, subst, Bool, true, false, List, [],
  ◌∷◌, ◌++◌, Option, none, some, Io, pure, Result, ok, err, length, is_some, get_elem?, set,
  if◌then◌else◌,
}
use ai_assistant.AccessControl.{ValidatedUser}
use ai_assistant.Session.{Cell, SessionStore, get, deref, create, write_back}
use ai_assistant.Session.Invariant.{IsValid, create-IsValid, write_back-IsValid}
use ai_assistant.AgentLoop.History.{run_turn-SameSession}
use ai_assistant.Api.Types.{UserMessage}
use ai_assistant.Api.Webhook.{WebhookState, Body, user_or_default, resolve, resume_or_create}
use ai_assistant.Api.WebSocket.{
  text, binary, ping, pong, close, Inbound, Socket, Conn, Flow, going, returned, waiting,
  out_of_fuel, Outcome, on_sent, send, send_body, drain, complete_turn, drop_turn, race,
  locked_turn, turn, locate, admit, on_message, on_frame, continue, serve, handle_socket,
  ws_handler, go_on, wait,
}
use ai_assistant.Api.WebSocket.Store.{drain-Keeps}

module _ {A : Type 0} where
  get_elem?-concat-cases :
      (xs : List A) (x : A) (i : ℕ) (y : A)
      → get_elem? (xs ++ x ∷ []) i ≡ some y
      → (get_elem? xs i ≡ some y) ⊎ (y ≡ x)
  get_elem?-concat-cases [] x zero y h = inr cc
  get_elem?-concat-cases [] x (suc i) y h = cc
  get_elem?-concat-cases (z ∷ xs) x zero y h = inl h
  get_elem?-concat-cases (z ∷ xs) x (suc i) y h = get_elem?-concat-cases xs x i y h

  get_elem?-set-cases :
      (xs : List A) (a : ℕ) (d : A) (i : ℕ) (y : A)
      → get_elem? (set xs a d) i ≡ some y
      → (get_elem? xs i ≡ some y) ⊎ (y ≡ d)
  get_elem?-set-cases [] a d i y h = inl h
  get_elem?-set-cases (z ∷ xs) zero d zero y h = inr cc
  get_elem?-set-cases (z ∷ xs) zero d (suc i) y h = inl h
  get_elem?-set-cases (z ∷ xs) (suc a) d zero y h = inl h
  get_elem?-set-cases (z ∷ xs) (suc a) d (suc i) y h = get_elem?-set-cases xs a d i y h

-- Since the store was `first`, no session has been locked that was not: each one that is locked was
-- so, and is as it was.
record Since (first st : SessionStore) : Type 0 where
  valid : IsValid st
  held : (a : ℕ) (c : Cell) → deref a st ≡ some c → c.locked ≡ true → deref a first ≡ some c

-- A session in the store that was locked when the connection was opened.
pub record Held (first st : SessionStore) : Type 0 where
  pub id : String
  pub address : ℕ
  pub cell : Cell
  pub found : get id st ≡ some address
  pub at : deref address st ≡ some cell
  pub locked : cell.locked ≡ true
  pub before : deref address first ≡ some cell

unlocked_clash : (c d : Cell) → c ≡ d → d.locked ≡ false → c.locked ≡ true → ⊥
unlocked_clash c d same free held =
    let e : true ≡ false = sym held ∙ ap (λ (x : Cell). x.locked) same ∙ free in cc

module _ {W N : Type 0} (state : WebhookState W N) (socket : Socket W) (first : SessionStore) where
  open state use {deps, memory, agent, new_v4}

  -- What holds of the store, by what the handler does next.
  abbrev Next : Flow → SessionStore → Type 0
  Next going st = Since first st
  Next waiting st = Held first st
  Next returned st = Unit
  Next out_of_fuel st = Unit

  abbrev Goes : Outcome → Type 0
  Goes o = Next o.flow o.conn.store

  Since-create :
      (st : SessionStore) (w : W)
      → Since first st
      → Since first (create deps.clock new_v4 [] st w).0.1
  unfolding create deref
  Since-create st w s = record {
    valid = create-IsValid deps.clock new_v4 [] st w s.valid;
    held = λ a c at locked. elim (get_elem?-concat-cases st.cells _ a c at) [
      | inl old ↦ s.held a c old locked
      | inr fresh ↦ absurd (unlocked_clash c _ fresh refl locked)
    ];
  }

  Since-write_back :
      (a : ℕ) (c d : Cell) (st : SessionStore)
      → deref a st ≡ some c
      → d.session.session_id ≡ c.session.session_id
      → d.locked ≡ false
      → Since first st
      → Since first (write_back a d st)
  unfolding write_back deref
  Since-write_back a c d st at same free s = record {
    valid = write_back-IsValid a c d st at same s.valid;
    held = λ b x at' locked. elim (get_elem?-set-cases st.cells a d b x at') [
      | inl old ↦ s.held b x old locked
      | inr written ↦ absurd (unlocked_clash x d written free locked)
    ];
  }

  resume_or_create-Since :
      (id : String) (b : Bool) (st : SessionStore) (w : W)
      → Since first st
      → Since first (resume_or_create state id b st w).0.1
  unfolding resume_or_create
  resume_or_create-Since id true st w s = s
  resume_or_create-Since id false st w s = Since-create st w s

  resolve-Since :
      (id : Option String) (st : SessionStore) (w : W)
      → Since first st
      → Since first (resolve state id st w).0.1
  unfolding resolve
  resolve-Since none st w s = Since-create st w s
  resolve-Since (some id) st w s = resume_or_create-Since id (is_some (get id st)) st w s

  on_sent-Goes :
      (b : Bool) (rest : List Inbound) (conn : Conn) (w : W)
      → Since first conn.store
      → Goes (on_sent state socket b rest (λ c v. (go_on rest c, v)) conn w).0
  on_sent-Goes true rest conn w s = s
  on_sent-Goes false rest conn w s = tt

  send_body-Goes :
      (body : Body) (rest : List Inbound) (conn : Conn) (w : W)
      → Since first conn.store
      → Goes (send_body state socket body rest conn w).0
  unfolding send_body send
  send_body-Goes body rest conn w s = on_sent-Goes _ rest _ _ s

  module _ (user : ValidatedUser) where
    race-Goes :
        (start : ℕ) (user_msg : UserMessage) (id : String) (a : ℕ) (c : Cell) (flow : Flow)
        (rest : List Inbound) (conn : Conn) (w : W)
        → deref a conn.store ≡ some c
        → Since first conn.store
        → Goes (race state socket user start user_msg id a c flow rest conn w).0
    unfolding race complete_turn drop_turn
    race-Goes start user_msg id a c going rest conn w at s = send_body-Goes _ rest _ _ (
        Since-write_back a c _ conn.store at
          (run_turn-SameSession deps agent user.token user.policy memory user_msg.message c.session
            w).0
          refl s)
    race-Goes start user_msg id a c returned rest conn w at s = tt
    race-Goes start user_msg id a c waiting rest conn w at s = tt
    race-Goes start user_msg id a c out_of_fuel rest conn w at s = tt

    locked_turn-Goes :
        (start : ℕ) (user_msg : UserMessage) (id : String) (a : ℕ) (c : Cell) (rest : List Inbound)
        (conn : Conn) (w : W)
        → deref a conn.store ≡ some c
        → Since first conn.store
        → Goes (locked_turn state socket user start user_msg id a c rest conn w).0
    unfolding locked_turn
    locked_turn-Goes start user_msg id a c rest conn w at s =
        let (n, w') = socket.arriving w in
        let d = drain state socket n rest conn w' in
        let (at', s') =
          drain-Keeps state socket (λ st. (deref a st ≡ some c) × Since first st) n rest conn w'
            (at, s) in
        race-Goes start user_msg id a c d.0.flow d.0.rest d.0.conn d.1 at' s'

    if_locked-Goes :
        (start : ℕ) (user_msg : UserMessage) (id : String) (a : ℕ) (c : Cell) (b : Bool)
        (rest : List Inbound) (conn : Conn) (w : W)
        → c.locked ≡ b
        → get id conn.store ≡ some a
        → deref a conn.store ≡ some c
        → Since first conn.store
        → Goes
            ((if b
                then pure (wait rest conn)
                else locked_turn state socket user start user_msg id a c rest conn)
              w).0
    if_locked-Goes start user_msg id a c true rest conn w locked found at s = record {
      id = id;
      address = a;
      cell = c;
      found = found;
      at = at;
      locked = locked;
      before = s.held a c at locked;
    }
    if_locked-Goes start user_msg id a c false rest conn w free found at s =
        locked_turn-Goes start user_msg id a c rest conn w at s

    turn-Goes :
        (start : ℕ) (user_msg : UserMessage) (id : String) (a : ℕ) (o : Option Cell)
        (rest : List Inbound) (conn : Conn) (w : W)
        → get id conn.store ≡ some a
        → deref a conn.store ≡ o
        → Since first conn.store
        → Goes (turn state socket user start user_msg id a o rest conn w).0
    unfolding turn get deref
    turn-Goes start user_msg id a none rest conn w found at s =
        let o = s.valid.owned id a found in let clash : none ≡ some o.cell = sym at ∙ o.at in cc
    turn-Goes start user_msg id a (some c) rest conn w found at s =
        if_locked-Goes start user_msg id a c c.locked rest conn w refl found at s

    locate-Goes :
        (start : ℕ) (user_msg : UserMessage) (id : String) (o : Option ℕ) (rest : List Inbound)
        (conn : Conn) (w : W)
        → get id conn.store ≡ o
        → Since first conn.store
        → Goes (locate state socket user start user_msg id o rest conn w).0
    unfolding locate
    locate-Goes start user_msg id none rest conn w found s = tt
    locate-Goes start user_msg id (some a) rest conn w found s =
        turn-Goes start user_msg id a (deref a conn.store) rest conn w found refl s

    admit-Goes :
        (start : ℕ) (user_msg : UserMessage) (id : String) (allowed : Bool) (rest : List Inbound)
        (conn : Conn) (w : W)
        → Since first conn.store
        → Goes (admit state socket user start user_msg id allowed rest conn w).0
    unfolding admit
    admit-Goes start user_msg id false rest conn w s = send_body-Goes _ rest conn w s
    admit-Goes start user_msg id true rest conn w s =
        locate-Goes start user_msg id (get id conn.store) rest conn w refl s

    on_message-Goes :
        (parsed : Result String UserMessage) (rest : List Inbound) (conn : Conn) (w : W)
        → Since first conn.store
        → Goes (on_message state socket user parsed rest conn w).0
    unfolding on_message
    on_message-Goes (err e) rest conn w s = send_body-Goes _ rest conn w s
    on_message-Goes (ok user_msg) rest conn w s =
        admit-Goes _ user_msg _ _ rest _ _ (resolve-Since user_msg.session_id conn.store w s)

    on_frame-Goes :
        (frame : Inbound) (rest : List Inbound) (conn : Conn) (w : W)
        → Since first conn.store
        → Goes (on_frame state socket user frame rest conn w).0
    unfolding on_frame send
    on_frame-Goes none rest conn w s = tt
    on_frame-Goes (some (err e)) rest conn w s = tt
    on_frame-Goes (some (ok (text raw))) rest conn w s =
        on_message-Goes (socket.from_str raw) rest conn w s
    on_frame-Goes (some (ok (ping bytes))) rest conn w s = on_sent-Goes _ rest _ _ s
    on_frame-Goes (some (ok close)) rest conn w s = tt
    on_frame-Goes (some (ok (binary b))) rest conn w s = s
    on_frame-Goes (some (ok (pong p))) rest conn w s = s

    continue-Goes :
        (k : List Inbound → Conn → Io W Outcome) (flow : Flow) (rest : List Inbound) (conn : Conn)
        (w : W)
        → ((r : List Inbound) (c : Conn) (v : W) → Since first c.store → Goes (k r c v).0)
        → Next flow conn.store
        → Goes (continue state socket user k flow rest conn w).0
    continue-Goes k going rest conn w each s = each rest conn w s
    continue-Goes k returned rest conn w each s = s
    continue-Goes k waiting rest conn w each s = s
    continue-Goes k out_of_fuel rest conn w each s = s

    serve-Goes :
        (n : ℕ) (frames : List Inbound) (conn : Conn) (w : W)
        → Since first conn.store
        → Goes (serve state socket user n frames conn w).0
    unfolding serve
    serve-Goes zero frames conn w s = tt
    serve-Goes (suc n) [] conn w s = s
    serve-Goes (suc n) (frame ∷ rest) conn w s =
        let o = on_frame state socket user frame rest conn w in
        continue-Goes (serve state socket user n) o.0.flow o.0.rest o.0.conn o.1 (serve-Goes n)
          (on_frame-Goes frame rest conn w s)

module _ {W N : Type 0} (state : WebhookState W N) (socket : Socket W) where
  -- Where the handler waits, a session of the store is locked, and was so with the same content when
  -- the connection was opened.
  pub ws_handler-Held :
      (user : Option ValidatedUser) (frames : List Inbound) (st : SessionStore) (w : W)
      → IsValid st
      → let o = (ws_handler state socket user frames st w).0 in
        o.flow ≡ waiting → Held st o.conn.store
  unfolding ws_handler handle_socket
  ws_handler-Held user frames st w v e =
      let o = (ws_handler state socket user frames st w).0 in
      subst (λ flow. Next state socket st flow o.conn.store) e
        (serve-Goes state socket st (user_or_default user) (suc (length frames)) frames _ w
          (record { valid = v; held = λ a c at locked. at }))

-- ===== src/Session/View.antt =====
-- The store of orchestrator/src/session/mod.rs as a map from identifiers to sessions, without its
-- heap of shared cells.
pub mod Refines
use mathlib.Core.Path.{ap₂}
use ai_assistant.Prelude.{
  ℕ, ◌<◌, String, ◌≡◌, ◌≢◌, ◌∙◌, refl, sym, ap, subst, inl, inr, ◌⊎◌, Bool, true, false, List, [],
  ◌∷◌, ◌++◌, Option, none, some, Io, arith, ◌==◌, eq_iff, eq_refl, if◌then◌else◌, length, get_elem?,
  set, eqb, lookup, insert, lookup-insert, lookup-erase, ℕ_discrete, Bool-cases, Option-cases,
  get_elem?-append_some, get_elem?-concat_last, get_elem?-set_self, get_elem?-set_ne,
}
use ai_assistant.Session.{
  Clock, Session, idle, Cell, SessionStore, create as create_session, get, len, deref, write_back,
  cleanup_expired, new,
}
use ai_assistant.Session.Invariant.{
  IsValid, Owns, Step, creates, removes, writes, cleans, Reach, here, next, Reach-IsValid,
}
use ai_assistant.Session.Cleanup.{survives, ticks, get-cleanup_expired, cleanup_expired_frame}

abbrev pub cell_at : List Cell → Option ℕ → Option Cell
cell_at cells none = none
cell_at cells (some a) = get_elem? cells a

-- The session under an identifier, with its lock.
unfoldable pub view : SessionStore → String → Option Cell
unfolding get
view st id = cell_at st.cells (get id st)

-- What a task asks of the store: a create that returns this identifier, a remove, a session written
-- over `c` at an address to which the map leads or leads no more, or a cleanup that meets so many
-- entries.
pub data Action (W : Type 0) : Type 0 where
  create : String → List (String × String) → Action W
  remove : String → Action W
  write : (c d : Cell) → Bool → Action W
  clean : ℕ → W → ℕ → Action W

-- Whether the map leads to the address.
abbrev pub leads_to : Option ℕ → ℕ → Bool
leads_to none a = false
leads_to (some b) a = eqb b a

-- A session that was made just now, for this identifier and with these metadata.
pub record IsNew (id : String) (metadata : List (String × String)) (c : Cell) : Type 0 where
  pub named : c.session.session_id ≡ id
  pub given : c.session.metadata ≡ metadata
  pub is_idle : c.session.state ≡ idle
  pub no_history : c.session.conversation_history ≡ []
  pub unlocked : c.locked ≡ false

module _ {W : Type 0} (clock : Clock W) where
  -- What a cleanup leaves of a session: itself, if it is locked or its idle seconds are fewer than the
  -- threshold, at one of the readings of the clock that follow each other from `w` on, at most one for
  -- each entry.
  pub data Left (threshold_secs : ℕ) (w : W) (entries : ℕ)
      : Option Cell → Option Cell → Type 0 where
    still_absent : Left threshold_secs w entries none none
    tested :
        (c : Cell) (n : ℕ)
        → n < entries
        → Left threshold_secs w entries (some c) (
            if survives threshold_secs (clock.now (ticks clock threshold_secs n w)).0 c
            then some c
            else none)

  -- What an action does to the map. A session that is written keeps its identifier.
  pub data MapStep (m m' : String → Option Cell) : Action W → Type 0 where
    created :
        (id : String) (metadata : List (String × String)) (c : Cell)
        → IsNew id metadata c
        → ((j : String) → m' j ≡ (if id == j then some c else m j))
        → MapStep m m' (create id metadata)
    removed :
        (id : String)
        → ((j : String) → m' j ≡ (if id == j then none else m j))
        → MapStep m m' (remove id)
    written :
        (c d : Cell)
        → d.session.session_id ≡ c.session.session_id
        → m c.session.session_id ≡ some c
        → ((j : String) → m' j ≡ (if c.session.session_id == j then some d else m j))
        → MapStep m m' (write c d true)
    detached : (c d : Cell) → ((j : String) → m' j ≡ m j) → MapStep m m' (write c d false)
    cleaned :
        (threshold_secs : ℕ) (w : W) (entries : ℕ)
        → ((j : String) → Left threshold_secs w entries (m j) (m' j))
        → MapStep m m' (clean threshold_secs w entries)

  -- A run of the map, by the actions in their order.
  pub data MapReach (m : String → Option Cell)
      : (String → Option Cell) → List (Action W) → Type 0 where
    start : MapReach m m []
    after :
        {n n' : String → Option Cell} {actions : List (Action W)} {action : Action W}
        → MapReach m n actions
        → MapStep n n' action
        → MapReach m n' (actions ++ action ∷ [])

  -- The action of a step of the store.
  abbrev pub action_of : {s t : SessionStore} → Step clock s t → Action W
  action_of {s = s} (creates new_v4 metadata w) =
      create (create_session clock new_v4 metadata s w).0.0 metadata
  action_of (removes id) = remove id
  action_of {s = s} (writes a c d at same) = write c d (leads_to (get c.session.session_id s) a)
  action_of {s = s} (cleans threshold_secs w) = clean threshold_secs w (len s)

  abbrev pub actions_of : {s t : SessionStore} → Reach clock s t → List (Action W)
  actions_of here = []
  actions_of (next r st) = actions_of r ++ action_of st ∷ []

-- ===== src/Session.antt =====
-- orchestrator/src/session/mod.rs: a session, and the store of all sessions. An `Arc` of a session
-- is its address in the store's heap, so that a handler and the map share one session. Proofs are
-- in `Invariant`, `Lookup` and `Cleanup`.
pub mod Invariant
pub mod Lookup
pub mod Cleanup
pub mod View
use ai_assistant.Prelude.{
  ℕ, suc, ◌-◌, ◌/◌, String, Bool, true, false, List, [], ◌∷◌, ◌++◌, map, Option, none, some, Io,
  pure, ◌>>=◌, ltb, if◌then◌else◌, length, get_elem?, set, lookup, insert, erase, not,
}
use ai_assistant.Proto.{Message}

pub data SessionState : Type 0 where
  idle processing awaiting_tool_result : SessionState
  error : String → SessionState

-- An `Instant` is its number of nanoseconds.
pub record Session : Type 0 where
  pub session_id : String
  pub created_at : ℕ
  pub last_active : ℕ
  pub state : SessionState
  pub conversation_history : List Message
  pub metadata : List (String × String)

-- A monotonic clock: reading it is an action, and it does not run backwards.
pub record Clock (W : Type 0) : Type 0 where
  pub now : Io W ℕ

module _ {W : Type 0} (clock : Clock W) where
  open clock use {now}

  -- `Uuid::new_v4` is the action `new_v4`.
  unfoldable pub new : Io W String → List (String × String) → Io W Session
  new new_v4 metadata = do
    t ← now
    id ← new_v4
    pure (record {
      session_id = id;
      created_at = t;
      last_active = t;
      state = idle;
      conversation_history = [];
      metadata = metadata;
    })

  unfoldable pub touch : Session → Io W Session
  touch s = do t ← now; pure (record s { last_active = t })

  unfoldable pub push_message : String → String → Session → Io W Session
  unfolding touch
  push_message role content s = touch (record s {
    conversation_history =
        s.conversation_history ++ (record { role = role; content = content }) ∷ [];
  })

  -- `elapsed()` is zero where the clock shows less than `last_active`; `as_secs()` drops the rest.
  unfoldable pub idle_secs : Session → Io W ℕ
  idle_secs s = do t ← now; pure ((t - s.last_active) / 1_000_000_000)

-- A `Mutex<Session>`: the session, and whether a task holds the lock.
pub record Cell : Type 0 where
  pub session : Session
  pub locked : Bool

-- `sessions` maps an identifier to the address of its cell. Cells are never freed here: an `Arc`
-- that a task holds keeps its session alive after the map has dropped it.
pub record SessionStore : Type 0 where
  pub sessions : List (String × ℕ)
  pub cells : List Cell

abbrev pub empty : SessionStore
empty = record { sessions = []; cells = [] }

unfoldable pub get : String → SessionStore → Option ℕ
get session_id st = lookup session_id st.sessions

-- The cell's contents behind an `Arc`.
unfoldable pub deref : ℕ → SessionStore → Option Cell
deref a st = get_elem? st.cells a

-- What a task that holds the lock writes back, and `lock` and the drop of its guard.
unfoldable pub write_back : ℕ → Cell → SessionStore → SessionStore
write_back a c st = record st { cells = set st.cells a c }

unfoldable pub remove : String → SessionStore → SessionStore
remove session_id st = record st { sessions = erase session_id st.sessions }

unfoldable pub len : SessionStore → ℕ
len st = length st.sessions

unfoldable pub is_empty : SessionStore → Bool
is_empty st = elim st.sessions [ [] ↦ true | x ∷ xs ↦ false ]

unfoldable pub list_active : SessionStore → List String
list_active st = map (λ e. e.0) st.sessions

module _ {W : Type 0} (clock : Clock W) where
  unfoldable pub create :
      Io W String → List (String × String) → SessionStore → Io W (String × SessionStore)
  unfolding new
  create new_v4 metadata st = do
    session ← new clock new_v4 metadata
    pure (
      session.session_id,
      record {
        sessions = insert session.session_id (length st.cells) st.sessions;
        cells = st.cells ++ (record { session = session; locked = false }) ∷ [];
      },
    )

  -- The closure of `retain`: a session that is locked is kept whatever its age.
  unfoldable pub is_kept : ℕ → Option Cell → Io W Bool
  is_kept threshold_secs none = pure true
  is_kept threshold_secs (some c) =
      if c.locked
      then pure true
      else do age ← idle_secs clock c.session; pure (ltb age threshold_secs)

  unfoldable pub retain : ℕ → List Cell → List (String × ℕ) → Io W (List (String × ℕ))
  retain threshold_secs cells [] = pure []
  retain threshold_secs cells ((id, a) ∷ rest) = do
    kept ← is_kept threshold_secs (get_elem? cells a)
    others ← retain threshold_secs cells rest
    pure (if kept then (id, a) ∷ others else others)

  -- The number of sessions removed, and the store without them.
  unfoldable pub cleanup_expired : ℕ → SessionStore → Io W (ℕ × SessionStore)
  unfolding retain is_kept idle_secs
  cleanup_expired threshold_secs st = do
    kept ← retain threshold_secs st.cells st.sessions
    pure (length st.sessions - length kept, record st { sessions = kept })

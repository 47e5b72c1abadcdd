-- ===== src/Session/Lookup.antt =====
-- What `create`, `get` and `remove` of orchestrator/src/session/mod.rs promise to a caller.
use ai_assistant.Prelude.{
  ℕ, String, ◌≡◌, refl, false, List, [], none, some, Io, ◌==◌, eq_refl, if◌then◌else◌, length,
  lookup-insert, lookup-erase, get_elem?-concat_last, get_elem?-append_some,
}
use ai_assistant.Session.{idle, Clock, Cell, SessionStore, new, create, get, deref, remove}

-- After `remove` of an identifier `get` no longer finds it, and finds all others as before; the
-- sessions themselves stay, for the tasks that still hold them.
pub get-remove :
    (id j : String) (a : ℕ) (st : SessionStore)
    → (get j (remove id st) ≡ (if id == j then none else get j st))
      × (deref a (remove id st) ≡ deref a st)
unfolding get remove deref
get-remove id j a st = (lookup-erase id j st.sessions, refl)

-- A session as `create` leaves it behind the identifier that it returns.
pub record IsFresh (metadata : List (String × String)) (out : String × SessionStore) : Type 0 where
  pub address : ℕ
  pub cell : Cell
  pub found : get out.0 out.1 ≡ some address
  pub at : deref address out.1 ≡ some cell
  pub named : cell.session.session_id ≡ out.0
  pub is_idle : cell.session.state ≡ idle
  pub no_history : cell.session.conversation_history ≡ []
  pub given : cell.session.metadata ≡ metadata
  pub unlocked : cell.locked ≡ false

module _ {W : Type 0} (clock : Clock W) (new_v4 : Io W String)
    (metadata : List (String × String)) where
  -- `create` returns an identifier under which `get` finds an idle, unlocked session with an empty
  -- history, the given metadata and that identifier.
  pub create-IsFresh :
      (st : SessionStore) (w : W) → IsFresh metadata (create clock new_v4 metadata st w).0
  unfolding create get deref
  create-IsFresh st w =
      let s = (new clock new_v4 metadata w).0 in
      record {
        address = length st.cells;
        cell = record { session = s; locked = false };
        found = simp (lookup-insert, eq_refl);
        at = get_elem?-concat_last st.cells (record { session = s; locked = false });
        named = refl;
        is_idle = refl;
        no_history = refl;
        given = refl;
        unlocked = refl;
      }

  -- A session that is there under another identifier than the one `create` returns is found as
  -- before, unchanged.
  pub create_frame :
      (st : SessionStore) (w : W) (j : String) (a : ℕ) (c : Cell)
      → get j st ≡ some a
      → deref a st ≡ some c
      → ((create clock new_v4 metadata st w).0.0 == j) ≡ false
      → let st' = (create clock new_v4 metadata st w).0.1 in
        (get j st' ≡ some a) × (deref a st' ≡ some c)
  unfolding create get deref
  create_frame st w j a c found at other =
      (simp lookup-insert (rw other found), get_elem?-append_some st.cells _ a at)

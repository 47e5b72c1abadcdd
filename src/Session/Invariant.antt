-- ===== src/Session/Invariant.antt =====
-- Well-formed session stores (orchestrator/src/session/mod.rs): which operations keep them so.
use ai_assistant.Prelude.{
  ℕ, String, ◌≡◌, refl, inl, inr, subst, false, set, ℕ_discrete, ap, ◌∙◌, get_elem?-set_self,
  get_elem?-set_ne, List, [], ◌∷◌, ◌++◌, none, some, Io, arith, eq_iff, ◌==◌, length, get_elem?,
  lookup, insert, Distinct, Distinct-insert, Distinct-erase, lookup-insert, lookup-erase,
  get_elem?-concat_last, get_elem?-append_some, Bool-cases,
}
use ai_assistant.Session.{
  Clock, Cell, SessionStore, create, remove, cleanup_expired, write_back, retain, is_kept, empty,
  new,
}

-- Every identifier in the map is the `session_id` of the session that it leads to.
pub record Owns (cells : List Cell) (id : String) (a : ℕ) : Type 0 where
  pub cell : Cell
  pub at : get_elem? cells a ≡ some cell
  pub named : cell.session.session_id ≡ id

pub record IsValid (st : SessionStore) : Type 0 where
  pub distinct : Distinct st.sessions
  pub owned : (id : String) (a : ℕ) → lookup id st.sessions ≡ some a → Owns st.cells id a

pub empty-IsValid : IsValid empty
unfolding lookup
empty-IsValid = record { distinct = tt; owned = λ id a h. cc }

Owns-append :
    (cells more : List Cell) (id : String) (a : ℕ) → Owns cells id a → Owns (cells ++ more) id a
Owns-append cells more id a o = record {
  cell = o.cell;
  at = get_elem?-append_some cells more a o.at;
  named = o.named;
}

pub remove-IsValid : (id : String) (st : SessionStore) → IsValid st → IsValid (remove id st)
unfolding remove
remove-IsValid id st v = record {
  distinct = Distinct-erase id st.sessions v.distinct;
  owned = λ j a h. v.owned j a (ground (arith, lookup-erase id j st.sessions));
}

Owns-insert :
    (c : Cell) (cells : List Cell) (m : List (String × ℕ))
    → ((id : String) (a : ℕ) → lookup id m ≡ some a → Owns cells id a)
    → (id : String) (a : ℕ) → lookup id (insert c.session.session_id (length cells) m) ≡ some a
    → Owns (cells ++ c ∷ []) id a
Owns-insert c cells m owned id a h = elim (Bool-cases (c.session.session_id == id)) [
  | inl same ↦
      let here : length cells ≡ a =
        ground (arith, lookup-insert c.session.session_id id (length cells) m) in
      record {
        cell = c;
        at =
            subst (λ i. get_elem? (cells ++ c ∷ []) i ≡ some c) here
              (get_elem?-concat_last cells c);
        named = (eq_iff _ _).0 same;
      }
  | inr other ↦
      Owns-append cells (c ∷ []) id a
        (owned id a (ground (arith, lookup-insert c.session.session_id id (length cells) m)))
]

-- A task that holds the lock may change anything in its session but the identifier.
pub write_back-IsValid :
    (a : ℕ) (c d : Cell) (st : SessionStore)
    → get_elem? st.cells a ≡ some c
    → d.session.session_id ≡ c.session.session_id
    → IsValid st
    → IsValid (write_back a d st)
unfolding write_back
write_back-IsValid a c d st at same v = record {
  distinct = v.distinct;
  owned = λ id b h.
      let o = v.owned id b h in
      elim (ℕ_discrete a b) [
        | yes e ↦
            let c_is : c ≡ o.cell = ground (arith, at, o.at, ap (get_elem? st.cells) e) in
            record {
              cell = d;
              at =
                  subst (λ i. get_elem? (set st.cells a d) i ≡ some d) e
                    (get_elem?-set_self st.cells a d at);
              named = same ∙ ap (λ x. x.session.session_id) c_is ∙ o.named;
            }
        | no ne ↦ record {
          cell = o.cell;
          at = get_elem?-set_ne st.cells d ne ∙ o.at;
          named = o.named;
        }
      ];
}

module _ {W : Type 0} (clock : Clock W) where
  pub create-IsValid :
      (new_v4 : Io W String) (metadata : List (String × String)) (st : SessionStore) (w : W)
      → IsValid st
      → IsValid (create clock new_v4 metadata st w).0.1
  unfolding create
  create-IsValid new_v4 metadata st w v = record {
    distinct = Distinct-insert _ _ st.sessions v.distinct;
    owned =
        Owns-insert (record { session = (new clock new_v4 metadata w).0; locked = false }) st.cells
          st.sessions v.owned;
  }

  module _ (threshold_secs : ℕ) (cells : List Cell) where
    pub lookup-retain-none :
        (id : String) (m : List (String × ℕ)) (w : W)
        → lookup id m ≡ none
        → lookup id (retain clock threshold_secs cells m w).0 ≡ none
    unfolding retain lookup
    lookup-retain-none id [] w h = refl
    lookup-retain-none id ((j, b) ∷ rest) w h =
        let (kept, w') = is_kept clock threshold_secs (get_elem? cells b) w in
        let ih = lookup-retain-none id rest w' in ground (arith, ih)

    lookup-retain-some :
        (id : String) (a : ℕ) (m : List (String × ℕ)) (w : W)
        → Distinct m
        → lookup id (retain clock threshold_secs cells m w).0 ≡ some a
        → lookup id m ≡ some a
    unfolding retain lookup
    lookup-retain-some id a [] w d h = h
    lookup-retain-some id a ((j, b) ∷ rest) w (fresh, d) h =
        let (kept, w') = is_kept clock threshold_secs (get_elem? cells b) w in
        ground (arith, lookup-retain-some id a rest w' d, eq_iff j id)

    Distinct-retain :
        (m : List (String × ℕ)) (w : W)
        → Distinct m
        → Distinct (retain clock threshold_secs cells m w).0
    unfolding retain
    Distinct-retain [] w d = tt
    Distinct-retain ((j, b) ∷ rest) w (fresh, d) =
        let (kept, w') = is_kept clock threshold_secs (get_elem? cells b) w in
        ground (arith, lookup-retain-none j rest w' fresh, Distinct-retain rest w' d)

  pub cleanup_expired-IsValid :
      (threshold_secs : ℕ) (st : SessionStore) (w : W)
      → IsValid st
      → IsValid (cleanup_expired clock threshold_secs st w).0.1
  unfolding cleanup_expired
  cleanup_expired-IsValid threshold_secs st w v = record {
    distinct = Distinct-retain threshold_secs st.cells st.sessions w v.distinct;
    owned = λ id a h.
        v.owned id a (lookup-retain-some threshold_secs st.cells id a st.sessions w v.distinct h);
  }

-- What the tasks of the program do to the store, one operation at a time.
pub data Step {W : Type 0} (clock : Clock W) : SessionStore → SessionStore → Type 0 where
  creates :
      {st : SessionStore} (new_v4 : Io W String) (metadata : List (String × String)) (w : W)
      → Step clock st (create clock new_v4 metadata st w).0.1
  removes : {st : SessionStore} (id : String) → Step clock st (remove id st)
  writes :
      {st : SessionStore} (a : ℕ) (c d : Cell)
      → get_elem? st.cells a ≡ some c
      → d.session.session_id ≡ c.session.session_id
      → Step clock st (write_back a d st)
  cleans :
      {st : SessionStore} (threshold_secs : ℕ) (w : W)
      → Step clock st (cleanup_expired clock threshold_secs st w).0.1

pub data Reach {W : Type 0} (clock : Clock W) (s : SessionStore) : SessionStore → Type 0 where
  here : Reach clock s s
  next : {t u : SessionStore} → Reach clock s t → Step clock t u → Reach clock s u

module _ {W : Type 0} {clock : Clock W} where
  Step-IsValid : {s t : SessionStore} → Step clock s t → IsValid s → IsValid t
  Step-IsValid (creates new_v4 metadata w) v = create-IsValid clock new_v4 metadata _ w v
  Step-IsValid (removes id) v = remove-IsValid id _ v
  Step-IsValid (writes a c d at same) v = write_back-IsValid a c d _ at same v
  Step-IsValid (cleans threshold_secs w) v = cleanup_expired-IsValid clock threshold_secs _ w v

  -- Whatever the tasks create, remove, write back and clean up, in any order, from a valid store:
  -- no identifier stands twice in the map, and each one leads to a live session of that identifier.
  pub Reach-IsValid : {s t : SessionStore} → IsValid s → Reach clock s t → IsValid t
  Reach-IsValid v here = v
  Reach-IsValid v (next r st) = Step-IsValid st (Reach-IsValid v r)

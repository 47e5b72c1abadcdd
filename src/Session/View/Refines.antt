-- ===== src/Session/View/Refines.antt =====
-- The store of orchestrator/src/session/mod.rs beside the map of `View`, step by step.
use mathlib.Core.Path.{ap₂}
use ai_assistant.Prelude.{
  ℕ, String, ◌≡◌, ◌≢◌, ◌∙◌, refl, sym, ap, subst, inl, inr, ◌⊎◌, Bool, true, false, List, [], ◌∷◌,
  ◌++◌, Option, none, some, Io, arith, ◌==◌, eq_iff, if◌then◌else◌, length, get_elem?, set, lookup,
  lookup-insert, lookup-erase, eqb, eqb_iff, Bool-cases, Option-cases, get_elem?-append_some,
  get_elem?-concat_last, get_elem?-set_self, get_elem?-set_ne,
}
use ai_assistant.Session.{
  Clock, Cell, SessionStore, create, remove, get, write_back, cleanup_expired, new, len,
}
use ai_assistant.Session.Invariant.{
  IsValid, Owns, Step, creates, removes, writes, cleans, Reach, here, next, Reach-IsValid,
}
use ai_assistant.Session.Cleanup.{survives, ticks, get-cleanup_expired, cleanup_expired_frame}
use ai_assistant.Session.View.{
  cell_at, view, write, Left, still_absent, tested, leads_to, action_of, actions_of, MapStep,
  created, removed, written, detached, cleaned, MapReach, start, after,
}

view-remove :
    (gone : String) (st : SessionStore) (id : String)
    → view (remove gone st) id ≡ (if gone == id then none else view st id)
unfolding view remove
view-remove gone st id = ground (arith, lookup-erase gone id st.sessions)

some-injective : {A : Type 0} {x y : A} → some x ≡ some y → x ≡ y
some-injective h = cc

cell_at-if :
    (cells : List Cell) (b : Bool) (n : ℕ) (o : Option ℕ)
    → cell_at cells (if b then some n else o) ≡ (if b then get_elem? cells n else cell_at cells o)
cell_at-if cells true n o = refl
cell_at-if cells false n o = refl

-- Appending a cell leaves what the map leads to.
cell_at-append :
    (cells more : List Cell) (id : String) (o : Option ℕ)
    → ((a : ℕ) → o ≡ some a → Owns cells id a)
    → cell_at (cells ++ more) o ≡ cell_at cells o
cell_at-append cells more id none owned = refl
cell_at-append cells more id (some a) owned =
    let o = owned a refl in get_elem?-append_some cells more a o.at ∙ sym o.at

module _ {W : Type 0} (clock : Clock W) (new_v4 : Io W String)
    (metadata : List (String × String)) where
  abbrev fresh : W → Cell
  fresh w = record { session = (new clock new_v4 metadata w).0; locked = false }

  view-create :
      (st : SessionStore) (w : W) (id : String)
      → IsValid st
      → view (create clock new_v4 metadata st w).0.1 id
        ≡ (if (fresh w).session.session_id == id then some (fresh w) else view st id)
  unfolding view create
  view-create st w id v =
      let c = fresh w in
      let cells = st.cells ++ c ∷ [] in
      ap (cell_at cells) (lookup-insert c.session.session_id id (length st.cells) st.sessions)
      ∙ cell_at-if cells (c.session.session_id == id) (length st.cells) (lookup id st.sessions)
      ∙ ap₂ (λ x y. if c.session.session_id == id then x else y) (get_elem?-concat_last st.cells c)
          (cell_at-append st.cells (c ∷ []) id (lookup id st.sessions) (v.owned id))

module _ (a : ℕ) (c d : Cell) (st : SessionStore) (at : get_elem? st.cells a ≡ some c)
    (v : IsValid st) where
  -- Only one identifier leads to a cell.
  named_by : (id : String) → lookup id st.sessions ≡ some a → c.session.session_id ≡ id
  named_by id h =
      let o = v.owned id a h in
      let same : c ≡ o.cell = some-injective (sym at ∙ o.at) in
      ap (λ (x : Cell). x.session.session_id) same ∙ o.named

  -- What is under an identifier that leads elsewhere.
  cell_at-set_ne : (o : Option ℕ) → o ≢ some a → cell_at (set st.cells a d) o ≡ cell_at st.cells o
  cell_at-set_ne none ne = refl
  cell_at-set_ne (some b) ne = get_elem?-set_ne st.cells d (λ e. ne (ap some (sym e)))

  view-write_back-named :
      (id : String)
      → lookup c.session.session_id st.sessions ≡ some a
      → view (write_back a d st) id ≡ (if c.session.session_id == id then some d else view st id)
  unfolding view write_back
  view-write_back-named id h = elim (Bool-cases (c.session.session_id == id)) [
    | inl same ↦
        let e = (eq_iff c.session.session_id id).0 same in
        ap (cell_at (set st.cells a d)) (ap (λ j. lookup j st.sessions) (sym e) ∙ h)
        ∙ get_elem?-set_self st.cells a d at
        ∙ rw same refl
    | inr other ↦
        cell_at-set_ne (lookup id st.sessions)
          (λ e. let yes_same = (eq_iff c.session.session_id id).1 (named_by id e) in cc)
        ∙ rw other refl
  ]

  view-write_back-detached :
      (id : String)
      → lookup c.session.session_id st.sessions ≢ some a
      → view (write_back a d st) id ≡ view st id
  unfolding view write_back
  view-write_back-detached id ne =
      cell_at-set_ne (lookup id st.sessions)
        (λ e. ne (ap (λ j. lookup j st.sessions) (named_by id e) ∙ e))

  leads_to-cases :
      (o : Option ℕ)
      → ((o ≡ some a) × (leads_to o a ≡ true)) ⊎ ((o ≢ some a) × (leads_to o a ≡ false))
  leads_to-cases none = inr (λ e. cc, refl)
  leads_to-cases (some b) = elim (Bool-cases (eqb b a)) [
    | inl same ↦ inl (ap some ((eqb_iff b a).0 same), same)
    | inr other ↦ inr (λ e. let same = (eqb_iff b a).1 (some-injective e) in cc, other)
  ]

  write_back-MapStep :
      {W : Type 0} (clock : Clock W)
      → d.session.session_id ≡ c.session.session_id
      → MapStep clock
          (view st)
          (view (write_back a d st))
          (write c d (leads_to (get c.session.session_id st) a))
  unfolding view get
  write_back-MapStep clock same = elim (leads_to-cases (lookup c.session.session_id st.sessions)) [
    | inl (there, is) ↦
        subst (λ b. MapStep clock (view st) (view (write_back a d st)) (write c d b)) (sym is)
          (written c d same (ap (cell_at st.cells) there ∙ at)
            (λ id. view-write_back-named id there))
    | inr (elsewhere, is) ↦
        subst (λ b. MapStep clock (view st) (view (write_back a d st)) (write c d b)) (sym is)
          (detached c d (λ id. view-write_back-detached id elsewhere))
  ]

module _ {W : Type 0} (clock : Clock W) (threshold_secs : ℕ) where
  module _ (st : SessionStore) (w : W) (id : String) (v : IsValid st) where
    abbrev st' : SessionStore
    st' = (cleanup_expired clock threshold_secs st w).0.1

    abbrev Goes : Option Cell → Option Cell → Type 0
    Goes = Left clock threshold_secs w (len st)

    cell_at-if_kept :
        (b : Bool) (a : ℕ) (c : Cell)
        → get_elem? st.cells a ≡ some c
        → cell_at st.cells (if b then some a else none) ≡ (if b then some c else none)
    cell_at-if_kept true a c at = at
    cell_at-if_kept false a c at = refl

    Left-present : (a : ℕ) → lookup id st.sessions ≡ some a → Goes (view st id) (view st' id)
    unfolding view get cleanup_expired
    Left-present a h =
        let o = v.owned id a h in
        let (n, fewer, left) = get-cleanup_expired clock threshold_secs st w id a o.cell v h o.at in
        let t = (clock.now (ticks clock threshold_secs n w)).0 in
        let before = ap (cell_at st.cells) h ∙ o.at in
        let after =
          ap (cell_at st.cells) left
          ∙ cell_at-if_kept (survives threshold_secs t o.cell) a o.cell o.at in
        subst (λ x. Goes x (view st' id)) (sym before)
          (subst (Goes (some o.cell)) (sym after) (tested o.cell n fewer))

    view-Left : Goes (view st id) (view st' id)
    unfolding view get cleanup_expired
    view-Left = elim (Option-cases (lookup id st.sessions)) [
      | inl absent ↦
          let (still, same, _) = cleanup_expired_frame clock threshold_secs st w id absent in
          subst (λ x. Goes x (view st' id)) (sym (ap (cell_at st.cells) absent))
            (subst (Goes none) (sym (ap (cell_at st.cells) still)) still_absent)
      | inr (a, h) ↦ Left-present a h
    ]

module _ {W : Type 0} {clock : Clock W} where
  Step-MapStep :
      {s t : SessionStore}
      → IsValid s
      → (st : Step clock s t) → MapStep clock (view s) (view t) (action_of clock st)
  unfolding new create
  Step-MapStep v (creates new_v4 metadata w) =
      created _ metadata (fresh clock new_v4 metadata w)
        (record { named = refl; given = refl; is_idle = refl; no_history = refl; unlocked = refl })
        (λ id. view-create clock new_v4 metadata _ w id v)
  Step-MapStep v (removes id) = removed id (view-remove id _)
  Step-MapStep v (writes a c d at same) = write_back-MapStep a c d _ at v clock same
  Step-MapStep v (cleans threshold_secs w) =
      cleaned threshold_secs w _ (λ id. view-Left clock threshold_secs _ w id v)

  -- A run of the store, by any tasks and from a valid store, is a run of the map from identifiers to
  -- sessions, by the same actions in the same order. A create adds a new session under the identifier
  -- that it returns, a remove takes away that identifier alone, a session that is written keeps its
  -- identifier and stands in the map if the map leads to its address, and a cleanup drops exactly the
  -- sessions that are unlocked and idle for the threshold, at one of its readings of the clock.
  pub Reach-MapReach :
      {s t : SessionStore}
      → IsValid s
      → (r : Reach clock s t) → MapReach clock (view s) (view t) (actions_of clock r)
  Reach-MapReach v here = start
  Reach-MapReach v (next r st) = after (Reach-MapReach v r) (Step-MapStep (Reach-IsValid v r) st)

-- ===== src/Examples/Sessions.antt =====
-- The theorems of `Session` on the store `two`.
use ai_assistant.Prelude.{
  ℕ, String, ◌<◌, ◌≡◌, refl, subst, inl, inr, true, false, [], ◌∷◌, none, some, arith, eq_iff, ◌==◌,
  lookup, Bool-cases, if◌then◌else◌,
}
use ai_assistant.Session.{SessionStore, empty, create, get, remove, cleanup_expired, len}
use ai_assistant.Session.Invariant.{
  IsValid, Owns, Reach, here, next, creates, removes, cleans, empty-IsValid, Reach-IsValid,
}
use ai_assistant.Session.Lookup.{IsFresh, create-IsFresh}
use ai_assistant.Session.Cleanup.{survives, ticks, get-cleanup_expired}
use ai_assistant.Session.View.{view, MapReach, actions_of}
use ai_assistant.Session.View.Refines.{Reach-MapReach}
use ai_assistant.Samples.{clock, cell, two, new_v4}

abbrev one : SessionStore
one = (create clock new_v4 [] empty 0).0.1

steps : Reach clock empty (cleanup_expired clock 60 (remove "d" one) 7).0.1
steps = next (next (next here (creates new_v4 [] 0)) (removes "d")) (cleans 60 7)

Reach-IsValid_example : IsValid (cleanup_expired clock 60 (remove "d" one) 7).0.1
Reach-IsValid_example = Reach-IsValid empty-IsValid steps

Reach-MapReach_example :
    MapReach clock
      (view empty)
      (view (cleanup_expired clock 60 (remove "d" one) 7).0.1)
      (actions_of clock steps)
Reach-MapReach_example = Reach-MapReach empty-IsValid steps

two-Owns : (id : String) (a : ℕ) → lookup id two.sessions ≡ some a → Owns two.cells id a
unfolding lookup
two-Owns id a h = elim (Bool-cases ("a" == id)) [
  | inl first ↦
      let zeroth : 0 ≡ a = ground (arith, first) in
      subst (λ i. Owns two.cells id i) zeroth
        (record { cell = cell "a" false; at = refl; named = (eq_iff "a" id).0 first })
  | inr other ↦ elim (Bool-cases ("b" == id)) [
    | inl second ↦
        let first : 1 ≡ a = ground (arith, other, second) in
        subst (λ i. Owns two.cells id i) first
          (record { cell = cell "b" true; at = refl; named = (eq_iff "b" id).0 second })
    | inr none_of_them ↦ let missing : none ≡ some a = ground (arith, other, none_of_them) in cc
  ]
]

pub two-IsValid : IsValid two
unfolding lookup
two-IsValid = record { distinct = (refl, (refl, tt)); owned = two-Owns }

-- The session that a task holds outlives a cleanup, whatever its age.
get-cleanup_expired_example :
    (n : ℕ) × (n < len two)
    × (get "b" (cleanup_expired clock 60 two 100).0.1 ≡ (
        if survives 60 (clock.now (ticks clock 60 n 100)).0 (cell "b" true) then some 1 else none))
unfolding get lookup
get-cleanup_expired_example =
    get-cleanup_expired clock 60 two 100 "b" 1 (cell "b" true) two-IsValid refl refl

-- The idle session is removed, the held one stays.
cleaned : (cleanup_expired clock 60 two 100).0.1.sessions ≡ ("b", 1) ∷ []
unfolding cleanup_expired
cleaned = refl

create-IsFresh_example : IsFresh [] (create clock new_v4 [] two 3).0
create-IsFresh_example = create-IsFresh clock new_v4 [] two 3

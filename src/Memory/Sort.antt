-- ===== src/Memory/Sort.antt =====
-- `sort_by_key` of what a query gives in any order (orchestrator/src/memory/store.rs).
use mathlib.Core.Path.{ap₂}
use mathlib.Core.Logic.Or
use mathlib.Core.HLevel.{¬_prop}
use mathlib.Core.List.Permᴰ
use mathlib.Core.List.{Mem, Permᴰ, Pairwise, mem-cons, mem-cons_self, not-mem-nil}
use native.Mathlib.Bridge.{le_prop}
use ai_assistant.Prelude.{
  ℕ, suc, ◌≤◌, ◌≡◌, ◌≢◌, ◌∙◌, refl, ap, sym, subst, List, [], ◌∷◌, map, Option, none, some, arith,
  le→leb,
}
use ai_assistant.Memory.{insert_by_key, sort_by_key}
use ai_assistant.Memory.Store.{filter_map, keep}

module _ {A : Type 0} where
  abbrev pub Apart : ℕ × A → ℕ × A → Type 0
  Apart x y = x.0 ≢ y.0

  insert_by_key_comm :
      (x y : ℕ × A) (l : List (ℕ × A))
      → Apart x y
      → insert_by_key x (insert_by_key y l) ≡ insert_by_key y (insert_by_key x l)
  unfolding insert_by_key
  insert_by_key_comm x y [] ne = ground (arith, ne)
  insert_by_key_comm x y (z ∷ l) ne = ground (arith, ne, insert_by_key_comm x y l ne)

  sort_by_key-Permᴰ :
      {xs ys : List (ℕ × A)} → Permᴰ xs ys → Pairwise Apart xs → sort_by_key xs ≡ sort_by_key ys
  unfolding sort_by_key
  sort_by_key-Permᴰ Permᴰ.nil p = refl
  sort_by_key-Permᴰ (Permᴰ.cons e d) (Pairwise.cons h p) =
      ap₂ insert_by_key e (sort_by_key-Permᴰ d p)
  sort_by_key-Permᴰ (Permᴰ.swap {a = a} {b = b} {l = l} e e') (Pairwise.cons h p) =
      insert_by_key_comm a b (sort_by_key l) (h b mem-cons_self)
      ∙ ap₂ (λ (x y : ℕ × A). insert_by_key x (insert_by_key y (sort_by_key l))) e' e
  sort_by_key-Permᴰ (Permᴰ.trans d d') p =
      sort_by_key-Permᴰ d p
      ∙ sort_by_key-Permᴰ d' (Permᴰ.pairwise (λ x y. ¬_prop) (λ x y ne e. ne (sym e)) d p)

  -- The elements, numbered from `k`.
  abbrev pub numbered : ℕ → List A → List (ℕ × A)
  numbered k [] = []
  numbered k (x ∷ xs) = (k, x) ∷ numbered (suc k) xs

  le_of_mem-numbered : (k : ℕ) (xs : List A) (e : ℕ × A) → Mem e (numbered k xs) → k ≤ e.0
  le_of_mem-numbered k [] e m = absurd (not-mem-nil m)
  le_of_mem-numbered k (x ∷ xs) e m =
      Or.elim le_prop (mem-cons.0 m) (λ same. rw same (omega arith))
        (λ later. omega (arith, le_of_mem-numbered (suc k) xs e later))

  numbered-Pairwise : (k : ℕ) (xs : List A) → Pairwise Apart (numbered k xs)
  numbered-Pairwise k [] = Pairwise.nil
  numbered-Pairwise k (x ∷ xs) =
      Pairwise.cons (λ e m. omega (arith, le_of_mem-numbered (suc k) xs e m))
        (numbered-Pairwise (suc k) xs)

  insert_by_key-numbered :
      (k : ℕ) (x : A) (xs : List A)
      → insert_by_key (k, x) (numbered (suc k) xs) ≡ (k, x) ∷ numbered (suc k) xs
  unfolding insert_by_key
  insert_by_key-numbered k x [] = refl
  insert_by_key-numbered k x (y ∷ ys) = rw (le→leb k (suc k) (omega arith)) refl

  sort_by_key-numbered : (k : ℕ) (xs : List A) → sort_by_key (numbered k xs) ≡ numbered k xs
  unfolding sort_by_key
  sort_by_key-numbered k [] = refl
  sort_by_key-numbered k (x ∷ xs) =
      rw (sort_by_key-numbered (suc k) xs) (insert_by_key-numbered k x xs)

  values-numbered : (k : ℕ) (xs : List A) → map (λ (e : ℕ × A). e.1) (numbered k xs) ≡ xs
  values-numbered k [] = refl
  values-numbered k (x ∷ xs) = ap (λ l. x ∷ l) (values-numbered (suc k) xs)

  -- Sorting puts numbered elements back in their order.
  pub sort_by_key-shuffled :
      (xs : List A) (es : List (ℕ × A))
      → Permᴰ (numbered 0 xs) es
      → map (λ (e : ℕ × A). e.1) (sort_by_key es) ≡ xs
  sort_by_key-shuffled xs es d =
      ap (map (λ (e : ℕ × A). e.1))
        (sym (sort_by_key-Permᴰ d (numbered-Pairwise 0 xs)) ∙ sort_by_key-numbered 0 xs)
      ∙ values-numbered 0 xs

module _ {A B : Type 0} (f : A → Option B) where
  keep-Permᴰ : (o : Option B) {xs ys : List B} → Permᴰ xs ys → Permᴰ (keep o xs) (keep o ys)
  keep-Permᴰ none d = d
  keep-Permᴰ (some b) d = Permᴰ.cons refl d

  keep-swap : (o p : Option B) (l : List B) → Permᴰ (keep o (keep p l)) (keep p (keep o l))
  keep-swap none p l = Permᴰ.refl (keep p l)
  keep-swap (some a) none l = Permᴰ.refl (a ∷ l)
  keep-swap (some a) (some b) l = Permᴰ.swap refl refl

  -- What is read from shuffled inputs is shuffled.
  pub filter_map-Permᴰ : {xs ys : List A} → Permᴰ xs ys → Permᴰ (filter_map f xs) (filter_map f ys)
  unfolding filter_map
  filter_map-Permᴰ Permᴰ.nil = Permᴰ.nil
  filter_map-Permᴰ (Permᴰ.cons {a = a} {l₁ = l} {l₂ = m} e d) =
      subst (λ x. Permᴰ (keep (f a) (filter_map f l)) (keep (f x) (filter_map f m))) e
        (keep-Permᴰ (f a) (filter_map-Permᴰ d))
  filter_map-Permᴰ (Permᴰ.swap {a = a} {b = b} {b' = b'} {l = l} e e') =
      subst
        (λ x.
          Permᴰ (keep (f a) (keep (f b) (filter_map f l)))
            (keep (f x) (keep (f b') (filter_map f l))))
        e'
        (subst
          (λ x.
            Permᴰ (keep (f a) (keep (f b) (filter_map f l)))
              (keep (f b) (keep (f x) (filter_map f l))))
          e (keep-swap (f a) (f b) (filter_map f l)))
  filter_map-Permᴰ (Permᴰ.trans d d') = Permᴰ.trans (filter_map-Permᴰ d) (filter_map-Permᴰ d')

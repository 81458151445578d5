-- ===== src/Core/Outcomes/Started.antt =====
-- Where the leaves of an operation start: each is skipped, without an error.
use unikvs.Prelude.{
  subst, sym, ℕ, ◌≡◌, refl, some, List, [], ◌∷◌, map, All, arith, nat_beq_iff, inl, inr, ◌⊎◌,
}
use unikvs.Pipeline.{Plugins, Leaf}
use unikvs.Core.Outcomes.{skipped, create_target_outcomes}
use unikvs.Core.Outcomes.Settled.{status_at, Contains}

abbrev pub IsIn : {A : Type 0} → A → List A → Type 0
IsIn x [] = ⊥
IsIn x (y ∷ ys) = (x ≡ y) ⊎ IsIn x ys

module _ {A : Type 0} (P : A → Type 0) where
  pub All-at : (x : A) (xs : List A) → All P xs → IsIn x xs → P x
  All-at x [] h there = absurd there
  All-at x (y ∷ ys) h (inl same) = subst P (sym same) h.0
  All-at x (y ∷ ys) h (inr later) = All-at x ys h.1 later

module _ {A : Type 0} (P Q : A → Type 0) where
  pub All-map : ((a : A) → P a → Q a) → (xs : List A) → All P xs → All Q xs
  All-map f [] h = tt
  All-map f (x ∷ xs) h = (f x h.0, All-map f xs h.1)

module _ {A : Type 0} (P Q R : A → Type 0) where
  pub All-map₂ : ((a : A) → P a → Q a → R a) → (xs : List A) → All P xs → All Q xs → All R xs
  All-map₂ f [] h k = tt
  All-map₂ f (x ∷ xs) h k = (f x h.0 k.0, All-map₂ f xs h.1 k.1)

module _ {p : Plugins} {L : Type 0} (leaf_at : L → Leaf p) where
  abbrev pub label_indexes : List L → List ℕ
  label_indexes = map (λ l. (leaf_at l).index)

  pub All-Contains : (ls : List L) → All (λ l. Contains (leaf_at l).index (label_indexes ls)) ls
  All-Contains [] = tt
  All-Contains (l ∷ ls) = (
    inl refl,
    All-map (λ k. Contains (leaf_at k).index (label_indexes ls))
        (λ k. Contains (leaf_at k).index (label_indexes (l ∷ ls))) (λ k c. inr c) ls
        (All-Contains ls),
  )

module _ {p : Plugins} {L : Type 0} (F : Type 0) (leaf_at : L → Leaf p) where
  unfoldable pub IsSkipped : List (Leaf p) → L → Type 0
  IsSkipped ls l = status_at (leaf_at l).index (create_target_outcomes {F = F} ls) ≡ some skipped

  IsSkipped-later :
      (k : Leaf p) (ls : List (Leaf p)) (l : L) → IsSkipped ls l → IsSkipped (k ∷ ls) l
  unfolding IsSkipped create_target_outcomes
  IsSkipped-later k ls l h = ground (arith, h)

  pub started-IsSkipped : (ls : List L) → All (IsSkipped (map leaf_at ls)) ls
  unfolding IsSkipped create_target_outcomes
  started-IsSkipped [] = tt
  started-IsSkipped (l ∷ ls) = (
    ground (arith, nat_beq_iff (leaf_at l).index (leaf_at l).index),
    All-map (IsSkipped (map leaf_at ls)) (IsSkipped (leaf_at l ∷ map leaf_at ls))
        (IsSkipped-later (leaf_at l) (map leaf_at ls)) ls (started-IsSkipped ls),
  )

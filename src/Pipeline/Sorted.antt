-- ===== src/Pipeline/Sorted.antt =====
-- The leaves below a level of the tree are its own and those of its children, sorted.
use unikvs.Prelude.{ℕ, ◌≡◌, refl, sym, ◌∙◌, List, [], ◌∷◌, ◌++◌, append-nil, All, flatten}
use unikvs.Prelude.Sorting.{sort_by, IsSorted, sort_by-IsSorted, sort_by_of_IsSorted}
use unikvs.Pipeline.{Plugins, Leaf, Level, level, Children, childless, child}
use unikvs.Pipeline.Levels.{summarize_leaves, all_leaves, children_leaves}

abbrev pub key : {p : Plugins} → Leaf p → ℕ
key l = l.index

summarize_leaves-eq-sort_by :
    {A : Type 0} (k : A → ℕ) (ls : List A) (lss : List (List A))
    → All (IsSorted k) lss
    → summarize_leaves k ls lss ≡ sort_by k (ls ++ flatten lss)
unfolding summarize_leaves
summarize_leaves-eq-sort_by k [] (below ∷ []) h =
    rw (append-nil below) (sym (sort_by_of_IsSorted k below h.0))
summarize_leaves-eq-sort_by k [] [] h = refl
summarize_leaves-eq-sort_by k [] (a ∷ b ∷ lss) h = refl
summarize_leaves-eq-sort_by k (x ∷ xs) lss h = refl

module _ {p : Plugins} where
  all_leaves_level :
      (ls : List (Leaf p)) (ch : Children p)
      → all_leaves (level ls ch) ≡ summarize_leaves key ls (children_leaves ch)
  unfolding all_leaves
  all_leaves_level ls ch = refl

  pub children_leaves_child :
      (m : p.Middleware) (l : Level p) (rest : Children p)
      → children_leaves (child m l rest) ≡ all_leaves l ∷ children_leaves rest
  unfolding children_leaves
  children_leaves_child m l rest = refl

  pub children_leaves_childless : children_leaves {p = p} childless ≡ []
  unfolding children_leaves
  children_leaves_childless = refl

mutual
  all_leaves-IsSorted : {p : Plugins} (l : Level p) → IsSorted key (all_leaves l)
  all_leaves-IsSorted (level ls ch) =
      rw
        (
          all_leaves_level ls ch,
          summarize_leaves-eq-sort_by key ls (children_leaves ch) (children_leaves-IsSorted ch),
        )
        (sort_by-IsSorted key (ls ++ flatten (children_leaves ch)))

  children_leaves-IsSorted :
      {p : Plugins} (ch : Children p) → All (IsSorted key) (children_leaves ch)
  children_leaves-IsSorted childless = rw children_leaves_childless tt
  children_leaves-IsSorted (child m l rest) =
      rw (children_leaves_child m l rest) (all_leaves-IsSorted l, children_leaves-IsSorted rest)

module _ {p : Plugins} where
  -- The sort is all that a level does, also where the source passes a lone child's leaves on.
  pub all_leaves-eq-sort_by :
      (ls : List (Leaf p)) (ch : Children p)
      → all_leaves (level ls ch) ≡ sort_by key (ls ++ flatten (children_leaves ch))
  all_leaves-eq-sort_by ls ch =
      all_leaves_level ls ch
      ∙ summarize_leaves-eq-sort_by key ls (children_leaves ch) (children_leaves-IsSorted ch)

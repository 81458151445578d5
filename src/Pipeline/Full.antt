-- ===== src/Pipeline/Full.antt =====
-- Every node of the tree has a leaf below it, so the entries of every level can be ordered.
use unikvs.Prelude.{
  ℕ, ◌≡◌, ◌≢◌, refl, List, [], ◌∷◌, ◌++◌, map, Option, none, some, Equality, ◌==◌, Bool-cases, inl,
  inr, All,
}
use unikvs.Prelude.Sorting.{sort_by}
use unikvs.Pipeline.{
  Plugins, Leaf, Level, level, Children, childless, child, Entry, node_entry, Entries,
}
use unikvs.Pipeline.Levels.{
  all_leaves, first_index, with_orders, leaf_item, create_entries, summarize_entries, row, finalize,
  finalize_children,
}
use unikvs.Pipeline.Compile.{empty_level, update_child, insert}
use unikvs.Pipeline.Sorted.{key}
use unikvs.Pipeline.Order.{LevelBelow, ChildrenBelow, insert-Adds}

-- Every child node has a leaf below it.
abbrev mutual
  pub IsFull : {p : Plugins} → Level p → Type 0
  IsFull (level ls ch) = IsFullChildren ch

  pub IsFullChildren : {p : Plugins} → Children p → Type 0
  IsFullChildren childless = Unit
  IsFullChildren (child m l rest) = (all_leaves l ≢ []) × IsFull l × IsFullChildren rest

append-ne-nil : {A : Type 0} (xs : List A) (x : A) → xs ++ x ∷ [] ≢ []
append-ne-nil [] x e = cc
append-ne-nil (y ∷ xs) x e = cc

module _ {p : Plugins} ⦃e : Equality p.Middleware⦄ (l : Leaf p) where
  abbrev Fills : (Level p → Level p) → Type 0
  Fills f = (v : Level p) → LevelBelow (key l) v → IsFull v → IsFull (f v) × (all_leaves (f v) ≢ [])

  update_child-IsFull :
      (m : p.Middleware) (f : Level p → Level p) (ch : Children p)
      → Fills f
      → ChildrenBelow (key l) ch
      → IsFullChildren ch
      → IsFullChildren (update_child m f ch)
  unfolding update_child
  update_child-IsFull m f childless h b v = let r = h empty_level (tt, tt) tt in (r.1, r.0, tt)
  update_child-IsFull m f (child n w rest) h b v = elim (Bool-cases (n == m)) [
    | inl same ↦ let r = h w b.0 v.1 in rw same (r.1, r.0, v.2)
    | inr other ↦ rw other (v.0, v.1, update_child-IsFull m f rest h b.1 v.2)
  ]

  insert-ne-nil :
      (path : List p.Middleware) (v : Level p)
      → LevelBelow (key l) v
      → all_leaves (insert path l v) ≢ []
  insert-ne-nil path v b = rw (insert-Adds l path v b) (append-ne-nil (all_leaves v) l)

  pub insert-IsFull :
      (path : List p.Middleware) (v : Level p)
      → LevelBelow (key l) v
      → IsFull v
      → IsFull (insert path l v)
  unfolding insert
  insert-IsFull [] (level ls ch) b v = v
  insert-IsFull (m ∷ path) (level ls ch) b v =
      update_child-IsFull m (insert path l) ch
        (λ w bw vw. (insert-IsFull path w bw vw, insert-ne-nil path w bw)) b.1 v

module _ {p : Plugins} where
  with_orders_total :
      (cs : List (Option ℕ × Entry p))
      → All (λ c. c.0 ≢ none) cs
      → (os : List (ℕ × Entry p)) × (with_orders cs ≡ some os)
  with_orders_total [] h = ([], refl)
  with_orders_total ((none, e) ∷ cs) h = absurd (h.0 refl)
  with_orders_total ((some n, e) ∷ cs) h =
      let (os, eq) = with_orders_total cs h.1 in ((n, e) ∷ os, rw eq)

  create_entries_total :
      (ls : List (Leaf p)) (cs : List (Option ℕ × Entry p))
      → All (λ c. c.0 ≢ none) cs
      → (es : List (Entry p)) × (create_entries ls cs ≡ some es)
  unfolding create_entries
  create_entries_total ls cs h =
      let (os, eq) = with_orders_total cs h in
      (map (λ i. i.1) (sort_by (λ i. i.0) (map leaf_item ls ++ os)), rw eq)

  summarize_entries_total :
      (ls : List (Leaf p)) (cs : List (Option ℕ × Entry p))
      → All (λ c. c.0 ≢ none) cs
      → (es : List (Entry p)) × (summarize_entries ls cs ≡ some es)
  unfolding summarize_entries
  summarize_entries_total [] ((o, e) ∷ []) h = (e ∷ [], refl)
  summarize_entries_total [] [] h = create_entries_total [] [] h
  summarize_entries_total [] (c ∷ d ∷ cs) h = create_entries_total [] (c ∷ d ∷ cs) h
  summarize_entries_total (l ∷ ls) cs h = create_entries_total (l ∷ ls) cs h

first_index-ne-none : {p : Plugins} (ls : List (Leaf p)) → ls ≢ [] → first_index ls ≢ none
first_index-ne-none [] h = absurd (h refl)
first_index-ne-none (l ∷ ls) h = λ e. cc

mutual
  unfolding finalize

  pub finalize_total :
      {p : Plugins} (v : Level p) → IsFull v → (es : Entries p) × (finalize v ≡ some es)
  finalize_total (level ls ch) h =
      let (cs, below, firsts) = finalize_children_total ch h in
      let (es, eq) = summarize_entries_total ls cs firsts in (row es, rw (below, eq))

  finalize_children_total :
      {p : Plugins} (ch : Children p)
      → IsFullChildren ch
      → (cs : List (Option ℕ × Entry p)) × (finalize_children ch ≡ some cs)
        × All (λ c. c.0 ≢ none) cs
  finalize_children_total childless h = ([], refl, tt)
  finalize_children_total (child m l rest) h =
      let (es, eq) = finalize_total l h.1 in
      let (cs, below, firsts) = finalize_children_total rest h.2 in
      (
        (first_index (all_leaves l), node_entry m es) ∷ cs,
        rw (eq, below),
        (first_index-ne-none (all_leaves l) h.0, firsts),
      )

-- ===== src/Pipeline/Gathered.antt =====
-- The entries of the compiled tree hold the leaves of the levels, none twice and none left out.
use unikvs.Prelude.{
  ℕ, Option, none, some, List, [], ◌∷◌, ◌++◌, map, append_assoc, Equality, flatten, ◌≡◌, refl, sym,
  ap, subst, ◌∙◌,
}
use mathlib.Core.List.{Permᴰ}
use mathlib.Core.List.Permᴰ
use unikvs.Prelude.Maybe.{◌>>=◌, Holds, Holds-bind}
use unikvs.Prelude.Sorting.{sort_by}
use unikvs.Prelude.Reorder.{sort_by-Perm}
use unikvs.Pipeline.{
  Plugins, Destination, Leaf, Level, level, Children, childless, child, Entry, node_entry,
}
use unikvs.Pipeline.Levels.{
  all_leaves, children_leaves, create_entries, summarize_entries, with_orders, leaf_item, row,
  first_index, finalize, finalize_children,
}
use unikvs.Pipeline.Sorted.{
  key, children_leaves_child, children_leaves_childless, all_leaves-eq-sort_by,
}
use unikvs.Pipeline.Compile.{build, no_building, compile, graph_of, PipelineGraph}
use unikvs.Pipeline.Encode.Walked.{leaves_of_entry, leaves_of}

-- The leaves of entries that stand beside something.
abbrev leaves_beside : {p : Plugins} {A : Type 0} → List (A × Entry p) → List (Leaf p)
leaves_beside [] = []
leaves_beside ((a, e) ∷ is) = leaves_of_entry e ++ leaves_beside is

module _ {p : Plugins} where
  swap_front : (xs ys zs : List (Leaf p)) → Permᴰ (xs ++ (ys ++ zs)) (ys ++ (xs ++ zs))
  swap_front xs ys zs =
      subst (λ r. Permᴰ r (ys ++ (xs ++ zs))) (append_assoc xs ys zs)
        (subst (Permᴰ ((xs ++ ys) ++ zs)) (append_assoc ys xs zs)
          (Permᴰ.append_right zs (Permᴰ.append_comm xs ys)))

  leaves_beside-Perm :
      {A : Type 0} {is js : List (A × Entry p)}
      → Permᴰ is js
      → Permᴰ (leaves_beside is) (leaves_beside js)
  leaves_beside-Perm Permᴰ.nil = Permᴰ.nil
  leaves_beside-Perm (Permᴰ.cons {b = b} {l₁ = l} {l₂ = m} e d) =
      subst (λ i. Permᴰ (leaves_beside (i ∷ l)) (leaves_beside (b ∷ m))) (sym e)
        (Permᴰ.append_left (leaves_of_entry b.1) (leaves_beside-Perm d))
  leaves_beside-Perm (Permᴰ.swap {a = a} {b = b} {b' = d} {l = l} e f) =
      subst (λ i. Permᴰ (leaves_beside (a ∷ b ∷ l)) (leaves_beside (i ∷ d ∷ l))) f
        (subst (λ i. Permᴰ (leaves_beside (a ∷ b ∷ l)) (leaves_beside (b ∷ i ∷ l))) e
          (swap_front (leaves_of_entry a.1) (leaves_of_entry b.1) (leaves_beside l)))
  leaves_beside-Perm (Permᴰ.trans d g) = Permᴰ.trans (leaves_beside-Perm d) (leaves_beside-Perm g)

  row-leaves_beside :
      (is : List (ℕ × Entry p)) → leaves_of (row (map (λ i. i.1) is)) ≡ leaves_beside is
  row-leaves_beside [] = refl
  row-leaves_beside (i ∷ is) = ap (λ r. leaves_of_entry i.1 ++ r) (row-leaves_beside is)

  leaves_beside-append :
      (ls : List (Leaf p)) (os : List (ℕ × Entry p))
      → leaves_beside (map leaf_item ls ++ os) ≡ ls ++ leaves_beside os
  leaves_beside-append [] os = refl
  leaves_beside-append (l ∷ ls) os = ap (λ r. l ∷ r) (leaves_beside-append ls os)

  with_orders_same :
      (cs : List (Option ℕ × Entry p))
      → Holds (λ os. leaves_beside os ≡ leaves_beside cs) (with_orders cs)
  with_orders_same [] = refl
  with_orders_same ((none, e) ∷ cs) = tt
  with_orders_same ((some n, e) ∷ cs) =
      Holds-bind (λ os. leaves_beside os ≡ leaves_beside cs)
        (λ os. leaves_beside os ≡ leaves_beside ((some n, e) ∷ cs)) (with_orders cs)
        (λ os. some ((n, e) ∷ os)) (with_orders_same cs)
        (λ os k. ap (λ r. leaves_of_entry e ++ r) k)

  create_entries-Perm :
      (ls : List (Leaf p)) (cs : List (Option ℕ × Entry p))
      → Holds (λ es. Permᴰ (leaves_of (row es)) (ls ++ leaves_beside cs)) (create_entries ls cs)
  unfolding create_entries
  create_entries-Perm ls cs =
      Holds-bind (λ os. leaves_beside os ≡ leaves_beside cs)
        (λ es. Permᴰ (leaves_of (row es)) (ls ++ leaves_beside cs)) (with_orders cs)
        (λ os. some (map (λ i. i.1) (sort_by (λ i. i.0) (map leaf_item ls ++ os))))
        (with_orders_same cs)
        (λ os k.
          let is = map leaf_item ls ++ os in
          let same : leaves_beside is ≡ ls ++ leaves_beside cs =
            leaves_beside-append ls os ∙ ap (λ r. ls ++ r) k in
          subst (λ r. Permᴰ (leaves_of (row (map (λ i. i.1) (sort_by (λ i. i.0) is)))) r) same
            (subst (λ r. Permᴰ r (leaves_beside is))
              (sym (row-leaves_beside (sort_by (λ i. i.0) is)))
              (leaves_beside-Perm (sort_by-Perm (λ i. i.0) is))))

  summarize_entries-Perm :
      (ls : List (Leaf p)) (cs : List (Option ℕ × Entry p))
      → Holds (λ es. Permᴰ (leaves_of (row es)) (ls ++ leaves_beside cs)) (summarize_entries ls cs)
  unfolding summarize_entries
  summarize_entries-Perm [] ((o, e) ∷ []) = Permᴰ.refl (leaves_of_entry e ++ [])
  summarize_entries-Perm [] [] = create_entries-Perm [] []
  summarize_entries-Perm [] (c ∷ d ∷ cs) = create_entries-Perm [] (c ∷ d ∷ cs)
  summarize_entries-Perm (l ∷ ls) cs = create_entries-Perm (l ∷ ls) cs

  mutual
    unfolding finalize

    finalize-Perm : (v : Level p) → Holds (λ es. Permᴰ (leaves_of es) (all_leaves v)) (finalize v)
    finalize-Perm (level ls ch) =
        let whole = ls ++ flatten (children_leaves ch) in
        let sorted : Permᴰ whole (all_leaves (level ls ch)) =
          subst (Permᴰ whole) (sym (all_leaves-eq-sort_by ls ch))
            (Permᴰ.symm (sort_by-Perm key whole)) in
        Holds-bind (λ cs. Permᴰ (leaves_beside cs) (flatten (children_leaves ch)))
          (λ es. Permᴰ (leaves_of es) (all_leaves (level ls ch))) (finalize_children ch)
          (λ below. do es ← summarize_entries ls below; some (row es)) (finalize_children-Perm ch)
          (λ below k.
            Holds-bind (λ es. Permᴰ (leaves_of (row es)) (ls ++ leaves_beside below))
              (λ es. Permᴰ (leaves_of es) (all_leaves (level ls ch))) (summarize_entries ls below)
              (λ es. some (row es)) (summarize_entries-Perm ls below)
              (λ es t. Permᴰ.trans t (Permᴰ.trans (Permᴰ.append_left ls k) sorted)))

    finalize_children-Perm :
        (ch : Children p)
        → Holds
            (λ cs. Permᴰ (leaves_beside cs) (flatten (children_leaves ch)))
            (finalize_children ch)
    finalize_children-Perm childless = rw children_leaves_childless Permᴰ.nil
    finalize_children-Perm (child m l rest) = rw (children_leaves_child m l rest) (
        Holds-bind (λ es. Permᴰ (leaves_of es) (all_leaves l))
          (λ cs. Permᴰ (leaves_beside cs) (all_leaves l ++ flatten (children_leaves rest)))
          (finalize l)
          (λ es. do
            others ← finalize_children rest
            some ((first_index (all_leaves l), node_entry m es) ∷ others))
          (finalize-Perm l)
          (λ es k.
            Holds-bind (λ cs. Permᴰ (leaves_beside cs) (flatten (children_leaves rest)))
              (λ cs. Permᴰ (leaves_beside cs) (all_leaves l ++ flatten (children_leaves rest)))
              (finalize_children rest)
              (λ others. some ((first_index (all_leaves l), node_entry m es) ∷ others))
              (finalize_children-Perm rest)
              (λ others t.
                Permᴰ.trans (Permᴰ.append_left (leaves_of es) t)
                  (Permᴰ.append_right (flatten (children_leaves rest)) k))))

  module _ ⦃e : Equality p.Middleware⦄ where
    -- The leaves that the walk of a compiled tree meets are the leaves of the graph, in some order.
    pub compile-Perm :
        (dests : List (Destination p)) (g : PipelineGraph p)
        → compile dests ≡ some g
        → Permᴰ (leaves_of g.entries) g.leaves
    unfolding compile
    compile-Perm dests g h =
        let b = build dests no_building in
        subst (Holds (λ k. Permᴰ (leaves_of k.entries) k.leaves)) h (
          Holds-bind (λ es. Permᴰ (leaves_of es) (all_leaves b.root))
            (λ k. Permᴰ (leaves_of k.entries) k.leaves) (finalize b.root)
            (λ es. some (graph_of b es)) (finalize-Perm b.root) (λ es k. k))

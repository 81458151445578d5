-- ===== src/Pipeline/Placed.antt =====
-- A leaf of the compiled tree stands where its path says.
use unikvs.Prelude.{
  ℕ, Option, none, some, List, [], ◌∷◌, ◌++◌, map, All, All-append, append_assoc, append-nil,
  Equality, ◌==◌, Bool-cases, inl, inr, ◌≡◌, refl, sym, subst, ◌∙◌, length,
}
use unikvs.Prelude.Maybe.{◌>>=◌, Holds, Holds-bind}
use unikvs.Prelude.Sorting.{sort_by, All-sort_by}
use unikvs.Pipeline.{
  Plugins, Destination, Leaf, Level, level, Children, childless, child, Entry, node_entry,
}
use unikvs.Pipeline.Levels.{
  all_leaves, create_entries, summarize_entries, with_orders, leaf_item, row, first_index, finalize,
  finalize_children,
}
use unikvs.Pipeline.Compile.{
  empty_level, update_child, insert, leaf_of, add_destination, build, Building, no_building,
  compile, graph_of, PipelineGraph,
}
use unikvs.Pipeline.Encode.Walked.{IsPlaced, ArePlaced}

module _ {p : Plugins} where
  abbrev mutual
    LevelPlaced : List p.Middleware → Level p → Type 0
    LevelPlaced path (level ls ch) = All (λ l. l.path ≡ path) ls × ChildrenPlaced path ch

    ChildrenPlaced : List p.Middleware → Children p → Type 0
    ChildrenPlaced path childless = Unit {0}
    ChildrenPlaced path (child m l rest) = LevelPlaced (path ++ m ∷ []) l × ChildrenPlaced path rest

  module _ ⦃e : Equality p.Middleware⦄ where
    update_child-Placed :
        (m : p.Middleware) (f : Level p → Level p) (path : List p.Middleware)
        → ((l : Level p) → LevelPlaced (path ++ m ∷ []) l → LevelPlaced (path ++ m ∷ []) (f l))
        → (ch : Children p) → ChildrenPlaced path ch
        → ChildrenPlaced path (update_child m f ch)
    unfolding update_child
    update_child-Placed m f path keep childless h = (keep empty_level (tt, tt), tt)
    update_child-Placed m f path keep (child n l rest) h = elim (Bool-cases (n == m)) [
      | inl same ↦
          let q : n ≡ m = (e.equal_iff n m).0 same in
          let at_m = subst (λ k. LevelPlaced (path ++ k ∷ []) l) q h.0 in
          rw same (subst (λ k. LevelPlaced (path ++ k ∷ []) (f l)) (sym q) (keep l at_m), h.1)
      | inr other ↦ rw other (h.0, update_child-Placed m f path keep rest h.1)
    ]

    insert-Placed :
        (rest path : List p.Middleware) (l : Leaf p)
        → l.path ≡ path ++ rest
        → (v : Level p) → LevelPlaced path v
        → LevelPlaced path (insert rest l v)
    unfolding insert
    insert-Placed [] path l q (level ls ch) h =
        (All-append (λ k. k.path ≡ path) ls (l ∷ []) h.0 (q ∙ append-nil path, tt), h.1)
    insert-Placed (m ∷ rest) path l q (level ls ch) h = (
      h.0,
      update_child-Placed m (insert rest l) path
          (insert-Placed rest (path ++ m ∷ []) l (q ∙ sym (append_assoc path (m ∷ []) rest))) ch
          h.1,
    )

    build-Placed :
        (dests : List (Destination p)) (b : Building p)
        → LevelPlaced [] b.root
        → LevelPlaced [] (build dests b).root
    unfolding build add_destination leaf_of
    build-Placed [] b h = h
    build-Placed (dest ∷ rest) b h =
        build-Placed rest (add_destination dest b)
          (insert-Placed dest.middlewares [] (leaf_of (length b.registered) dest) refl b.root h)

  row-Placed :
      (path : List p.Middleware) (es : List (Entry p))
      → All (IsPlaced path) es
      → ArePlaced path (row es)
  row-Placed path [] h = tt
  row-Placed path (e ∷ es) h = (h.0, row-Placed path es h.1)

  items-Placed :
      (path : List p.Middleware) (is : List (ℕ × Entry p))
      → All (λ i. IsPlaced path i.1) is
      → All (IsPlaced path) (map (λ i. i.1) is)
  items-Placed path [] h = tt
  items-Placed path (i ∷ is) h = (h.0, items-Placed path is h.1)

  leaf_items-Placed :
      (path : List p.Middleware) (ls : List (Leaf p))
      → All (λ l. l.path ≡ path) ls
      → All (λ i. IsPlaced path i.1) (map leaf_item ls)
  leaf_items-Placed path [] h = tt
  leaf_items-Placed path (l ∷ ls) h = (h.0, leaf_items-Placed path ls h.1)

  abbrev ItemsPlaced : List p.Middleware → List (ℕ × Entry p) → Type 0
  ItemsPlaced path = All (λ i. IsPlaced path i.1)

  abbrev NodesPlaced : List p.Middleware → List (Option ℕ × Entry p) → Type 0
  NodesPlaced path = All (λ i. IsPlaced path i.1)

  with_orders-Placed :
      (path : List p.Middleware) (cs : List (Option ℕ × Entry p))
      → NodesPlaced path cs
      → Holds (ItemsPlaced path) (with_orders cs)
  with_orders-Placed path [] h = tt
  with_orders-Placed path ((none, e) ∷ cs) h = tt
  with_orders-Placed path ((some n, e) ∷ cs) h =
      Holds-bind (ItemsPlaced path) (ItemsPlaced path) (with_orders cs) (λ os. some ((n, e) ∷ os))
        (with_orders-Placed path cs h.1) (λ os k. (h.0, k))

  create_entries-Placed :
      (path : List p.Middleware) (ls : List (Leaf p)) (cs : List (Option ℕ × Entry p))
      → All (λ l. l.path ≡ path) ls
      → NodesPlaced path cs
      → Holds (All (IsPlaced path)) (create_entries ls cs)
  unfolding create_entries
  create_entries-Placed path ls cs hl hc =
      Holds-bind (ItemsPlaced path) (All (IsPlaced path)) (with_orders cs)
        (λ os. some (map (λ i. i.1) (sort_by (λ i. i.0) (map leaf_item ls ++ os))))
        (with_orders-Placed path cs hc)
        (λ os k. items-Placed path (sort_by (λ i. i.0) (map leaf_item ls ++ os)) (
          All-sort_by (λ i. i.0) (λ i. IsPlaced path i.1) (map leaf_item ls ++ os)
            (All-append (λ i. IsPlaced path i.1) (map leaf_item ls) os
              (leaf_items-Placed path ls hl) k)))

  summarize_entries-Placed :
      (path : List p.Middleware) (ls : List (Leaf p)) (cs : List (Option ℕ × Entry p))
      → All (λ l. l.path ≡ path) ls
      → NodesPlaced path cs
      → Holds (All (IsPlaced path)) (summarize_entries ls cs)
  unfolding summarize_entries
  summarize_entries-Placed path [] ((o, e) ∷ []) hl hc = (hc.0, tt)
  summarize_entries-Placed path [] [] hl hc = create_entries-Placed path [] [] hl hc
  summarize_entries-Placed path [] (c ∷ d ∷ cs) hl hc =
      create_entries-Placed path [] (c ∷ d ∷ cs) hl hc
  summarize_entries-Placed path (l ∷ ls) cs hl hc = create_entries-Placed path (l ∷ ls) cs hl hc

  mutual
    unfolding finalize

    finalize-Placed :
        (path : List p.Middleware) (v : Level p)
        → LevelPlaced path v
        → Holds (ArePlaced path) (finalize v)
    finalize-Placed path (level ls ch) h =
        Holds-bind (NodesPlaced path) (ArePlaced path) (finalize_children ch)
          (λ below. do es ← summarize_entries ls below; some (row es))
          (finalize_children-Placed path ch h.1)
          (λ below k.
            Holds-bind (All (IsPlaced path)) (ArePlaced path) (summarize_entries ls below)
              (λ es. some (row es)) (summarize_entries-Placed path ls below h.0 k)
              (row-Placed path))

    finalize_children-Placed :
        (path : List p.Middleware) (ch : Children p)
        → ChildrenPlaced path ch
        → Holds (NodesPlaced path) (finalize_children ch)
    finalize_children-Placed path childless h = tt
    finalize_children-Placed path (child m l rest) h =
        Holds-bind (ArePlaced (path ++ m ∷ [])) (NodesPlaced path) (finalize l)
          (λ es. do
            others ← finalize_children rest
            some ((first_index (all_leaves l), node_entry m es) ∷ others))
          (finalize-Placed (path ++ m ∷ []) l h.0)
          (λ es k.
            Holds-bind (NodesPlaced path) (NodesPlaced path) (finalize_children rest)
              (λ others. some ((first_index (all_leaves l), node_entry m es) ∷ others))
              (finalize_children-Placed path rest h.1) (λ others t. (k, t)))

  module _ ⦃e : Equality p.Middleware⦄ where
    -- Every leaf of a compiled tree stands below the nodes of its path, in their order.
    pub compile-ArePlaced :
        (dests : List (Destination p)) (g : PipelineGraph p)
        → compile dests ≡ some g
        → ArePlaced [] g.entries
    unfolding compile
    compile-ArePlaced dests g h =
        let b = build dests no_building in
        subst (Holds (λ k. ArePlaced [] k.entries)) h (
          Holds-bind (ArePlaced []) (λ k. ArePlaced [] k.entries) (finalize b.root)
            (λ es. some (graph_of b es))
            (finalize-Placed [] b.root (build-Placed dests no_building (tt, tt))) (λ es k. k))

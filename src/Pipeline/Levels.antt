-- ===== src/Pipeline/Levels.antt =====
-- unikvs/src/_pipeline-graph.ts, `summarizeLevel` and `finalize`, and `createEntries` of
-- _pipeline-graph.helpers.ts: what the compiled tree holds at a level.
use unikvs.Prelude.{ℕ, Option, none, some, List, [], ◌∷◌, ◌++◌, map, flatten}
use unikvs.Prelude.Maybe.{◌>>=◌}
use unikvs.Prelude.Sorting.{sort_by}
use unikvs.Pipeline.{
  Plugins, Leaf, Level, level, Children, childless, child, Entry, leaf_entry, node_entry, Entries,
  no_entries, entry,
}

module _ {A : Type 0} where
  -- `[...leaves]`, the leaves of each child after them, then the sort: the leaves below a level.
  unfoldable pub summarize_leaves : (A → ℕ) → List A → List (List A) → List A
  summarize_leaves key [] (below ∷ []) = below
  summarize_leaves key leaves below = sort_by key (leaves ++ flatten below)

module _ {p : Plugins} where
  unfoldable mutual
    unfolding summarize_leaves

    -- `allLeaves` of a node, which `finalize` settles from the leaves up.
    pub all_leaves : Level p → List (Leaf p)
    all_leaves (level leaves children) =
        summarize_leaves (λ l. l.index) leaves (children_leaves children)

    pub children_leaves : Children p → List (List (Leaf p))
    children_leaves childless = []
    children_leaves (child m l rest) = all_leaves l ∷ children_leaves rest

abbrev pub first_index : {p : Plugins} → List (Leaf p) → Option ℕ
first_index [] = none
first_index (l ∷ ls) = some l.index

module _ {p : Plugins} where
  -- The child nodes with the order of each, the index of its first leaf; `none` is the throw.
  abbrev pub with_orders : List (Option ℕ × Entry p) → Option (List (ℕ × Entry p))
  with_orders [] = some []
  with_orders ((none, e) ∷ es) = none
  with_orders ((some n, e) ∷ es) = do others ← with_orders es; some ((n, e) ∷ others)

  abbrev pub leaf_item : Leaf p → ℕ × Entry p
  leaf_item l = (l.index, leaf_entry l)

  unfoldable pub create_entries :
      List (Leaf p) → List (Option ℕ × Entry p) → Option (List (Entry p))
  create_entries leaves children = do
    ordered ← with_orders children
    some (map (λ i. i.1) (sort_by (λ i. i.0) (map leaf_item leaves ++ ordered)))

  -- The entries that `summarizeLevel` gives a level: a lone child is passed on with no order.
  unfoldable pub summarize_entries :
      List (Leaf p) → List (Option ℕ × Entry p) → Option (List (Entry p))
  unfolding create_entries
  summarize_entries [] ((order, e) ∷ []) = some (e ∷ [])
  summarize_entries leaves children = create_entries leaves children

  abbrev pub row : List (Entry p) → Entries p
  row [] = no_entries
  row (e ∷ es) = entry e (row es)

  unfoldable mutual
    unfolding summarize_entries

    pub finalize : Level p → Option (Entries p)
    finalize (level leaves children) = do
      below ← finalize_children children
      entries ← summarize_entries leaves below
      some (row entries)

    pub finalize_children : Children p → Option (List (Option ℕ × Entry p))
    finalize_children childless = some []
    finalize_children (child m l rest) = do
      entries ← finalize l
      others ← finalize_children rest
      some ((first_index (all_leaves l), node_entry m entries) ∷ others)

-- ===== src/Pipeline/Compile.antt =====
-- unikvs/src/_pipeline-graph.ts, `PipelineGraph.compile` and `collectLeafIndexes`.
use unikvs.Prelude.{
  ℕ, Bool, string_equality, nat_equality, Option, none, some, List, [], ◌∷◌, ◌++◌, map, Equality,
  ◌==◌, any, length, if◌then◌else◌,
}
use unikvs.Prelude.Maybe.{◌>>=◌}
use mathlib.Core.Option
use unikvs.JsMap
use unikvs.JsMap.{JsMap}
use unikvs.Pipeline.{Plugins, Destination, Leaf, Level, level, Children, childless, child, Entries}
use unikvs.Pipeline.Levels.{all_leaves, finalize}

abbrev pub empty_level : {p : Plugins} → Level p
empty_level = level [] childless

-- `allLeaves`, `rootLeaves` with `rootChildren`, and `middlewares`, which holds what
-- `seenMiddlewares` holds.
pub record Building (p : Plugins) : Type 0 where
  pub registered : List (Leaf p)
  pub root : Level p
  pub middlewares : List p.Middleware

-- The compiled graph: `#leaves`, `#entries`, `#middlewares`, `#leafIndexes`.
pub record PipelineGraph (p : Plugins) : Type 0 where
  pub leaves : List (Leaf p)
  pub entries : Entries p
  pub middlewares : List p.Middleware
  pub leaf_indexes : JsMap p.Middleware (List ℕ)

module _ {A : Type 0} ⦃e : Equality A⦄ where
  abbrev pub includes : A → List A → Bool
  includes a = any (λ b. b == a)

  -- `add` of a `Set`.
  abbrev pub add_new : A → List A → List A
  add_new a xs = if includes a xs then xs else xs ++ a ∷ []

  abbrev pub add_all : List A → List A → List A
  add_all [] xs = xs
  add_all (a ∷ as_) xs = add_all as_ (add_new a xs)

  -- `leafIndexesOf`, also at a map that is still being filled.
  abbrev pub indexes_of : A → JsMap A (List ℕ) → List ℕ
  indexes_of m indexes = Option.get_or (JsMap.get m indexes) []

module _ {p : Plugins} ⦃e : Equality p.Middleware⦄ where
  -- The node of a middleware among its siblings, made if it is not there, with a change of its level.
  unfoldable pub update_child : p.Middleware → (Level p → Level p) → Children p → Children p
  update_child m f childless = child m (f empty_level) childless
  update_child m f (child n l rest) =
      if n == m then child n (f l) rest else child n l (update_child m f rest)

  -- The loop over `dest.middlewares` for one leaf: down the path, and the leaf pushed at its end.
  unfoldable pub insert : List p.Middleware → Leaf p → Level p → Level p
  unfolding update_child
  insert [] l (level leaves children) = level (leaves ++ l ∷ []) children
  insert (m ∷ path) l (level leaves children) =
      level leaves (update_child m (insert path l) children)

  unfoldable pub find_child : p.Middleware → Children p → Option (Level p)
  find_child m childless = none
  find_child m (child n l rest) = if n == m then some l else find_child m rest

  -- The same loop's other effect: a middleware is noted when its node is new and it was not seen.
  unfoldable pub note_middlewares :
      List p.Middleware → Level p → List p.Middleware → List p.Middleware
  unfolding find_child
  note_middlewares [] l seen = seen
  note_middlewares (m ∷ path) (level leaves children) seen = elim (find_child m children) [
    | none ↦ note_middlewares path empty_level (add_new m seen)
    | some below ↦ note_middlewares path below seen
  ]

  unfoldable pub leaf_of : ℕ → Destination p → Leaf p
  leaf_of index dest = record {
    storage = dest.storage;
    index = index;
    name = p.storage_name dest.storage;
    can_repair = any (λ m. p.middleware_name m == "AllowRepair") dest.middlewares;
    path = dest.middlewares;
  }

  -- One round of the loop over the destinations.
  unfoldable pub add_destination : Destination p → Building p → Building p
  unfolding insert note_middlewares leaf_of
  add_destination dest b =
      let l = leaf_of (length b.registered) dest in
      record {
        registered = b.registered ++ l ∷ [];
        root = insert dest.middlewares l b.root;
        middlewares = note_middlewares dest.middlewares b.root b.middlewares;
      }

  unfoldable pub build : List (Destination p) → Building p → Building p
  unfolding add_destination
  build [] b = b
  build (dest ∷ rest) b = build rest (add_destination dest b)

  abbrev pub no_building : Building p
  no_building = record { registered = []; root = empty_level; middlewares = [] }

  -- `collectLeafIndexes` at the nodes of a level.
  unfoldable pub collect_leaf_indexes :
      Children p → JsMap p.Middleware (List ℕ) → JsMap p.Middleware (List ℕ)
  collect_leaf_indexes childless indexes = indexes
  collect_leaf_indexes (child m (level leaves children) rest) indexes = collect_leaf_indexes rest (
      collect_leaf_indexes children (
        JsMap.set m
          (add_all (map (λ l. l.index) (all_leaves (level leaves children))) (indexes_of m indexes))
          indexes))

  abbrev pub children_of : Level p → Children p
  children_of (level leaves children) = children

  -- `new PipelineGraph(...)`, with the leaf indexes of every middleware.
  abbrev pub graph_of : Building p → Entries p → PipelineGraph p
  graph_of b entries = record {
    leaves = all_leaves b.root;
    entries = entries;
    middlewares = b.middlewares;
    leaf_indexes = collect_leaf_indexes (children_of b.root) [];
  }

  -- `compile`; `none` is the throw of `createEntries`.
  unfoldable pub compile : List (Destination p) → Option (PipelineGraph p)
  unfolding build all_leaves finalize collect_leaf_indexes
  compile destinations =
      let b = build destinations no_building in
      do entries ← finalize b.root; some (graph_of b entries)

-- ===== src/Pipeline/Registered.antt =====
-- The loop over the destinations: it keeps the leaves in order, and compiling never throws.
use unikvs.Prelude.{
  ℕ, suc, ◌≡◌, refl, sym, ap, ◌∙◌, List, [], ◌∷◌, ◌++◌, append_assoc, append-nil, some, Equality,
  length, arith, length-append,
}
use unikvs.Prelude.Sorting.{sort_by}
use unikvs.Pipeline.{Plugins, Destination, Leaf}
use unikvs.Pipeline.Levels.{all_leaves}
use unikvs.Pipeline.Compile.{
  Building, add_destination, build, leaf_of, no_building, compile, PipelineGraph, graph_of,
}
use unikvs.Pipeline.Sorted.{key}
use unikvs.Pipeline.Order.{LevelBelow, insert-Adds, insert-Keeps}
use unikvs.Pipeline.Full.{IsFull, insert-IsFull, finalize_total}

-- What the destinations register, counted from an index.
abbrev pub registered_from :
    {p : Plugins} ⦃e : Equality p.Middleware⦄ → ℕ → List (Destination p) → List (Leaf p)
registered_from n [] = []
registered_from n (dest ∷ dests) = leaf_of n dest ∷ registered_from (suc n) dests

-- What holds between two rounds of the loop over the destinations.
record IsOrdered {p : Plugins} (b : Building p) : Type 0 where
  in_order : all_leaves b.root ≡ b.registered
  below : LevelBelow (length b.registered) b.root
  full : IsFull b.root

module _ {p : Plugins} ⦃e : Equality p.Middleware⦄ where
  leaf_of-index : (n : ℕ) (dest : Destination p) → key (leaf_of n dest) ≡ n
  unfolding leaf_of
  leaf_of-index n dest = refl

  add_destination-IsOrdered :
      (dest : Destination p) (b : Building p) → IsOrdered b → IsOrdered (add_destination dest b)
  unfolding add_destination leaf_of
  add_destination-IsOrdered dest b o =
      let l = leaf_of (length b.registered) dest in
      record {
        in_order = insert-Adds l dest.middlewares b.root o.below ∙ ap (λ r. r ++ l ∷ []) o.in_order;
        below =
            let n : length (b.registered ++ l ∷ []) ≡ suc (length b.registered) =
              omega (arith, length-append b.registered (l ∷ [])) in
            rw n (insert-Keeps l dest.middlewares b.root o.below);
        full = insert-IsFull l dest.middlewares b.root o.below o.full;
      }

  add_destination-registered :
      (dest : Destination p) (b : Building p)
      → (add_destination dest b).registered
        ≡ b.registered ++ leaf_of (length b.registered) dest ∷ []
  unfolding add_destination
  add_destination-registered dest b = refl

  build-IsOrdered :
      (dests : List (Destination p)) (b : Building p) → IsOrdered b → IsOrdered (build dests b)
  unfolding build
  build-IsOrdered [] b o = o
  build-IsOrdered (dest ∷ rest) b o =
      build-IsOrdered rest (add_destination dest b) (add_destination-IsOrdered dest b o)

  build-registered :
      (dests : List (Destination p)) (b : Building p)
      → (build dests b).registered ≡ b.registered ++ registered_from (length b.registered) dests
  unfolding build
  build-registered [] b = sym (append-nil b.registered)
  build-registered (dest ∷ rest) b =
      let l = leaf_of (length b.registered) dest in
      let n : length (b.registered ++ l ∷ []) ≡ suc (length b.registered) =
        omega (arith, length-append b.registered (l ∷ [])) in
      build-registered rest (add_destination dest b)
      ∙ ap (λ r. r ++ registered_from (length r) rest) (add_destination-registered dest b)
      ∙ ap (λ k. (b.registered ++ l ∷ []) ++ registered_from k rest) n
      ∙ append_assoc b.registered (l ∷ []) (registered_from (suc (length b.registered)) rest)

  no_building-IsOrdered : IsOrdered (no_building {p = p})
  unfolding all_leaves sort_by
  no_building-IsOrdered = record { in_order = refl; below = (tt, tt); full = tt }

  pub compile-leaves :
      (dests : List (Destination p))
      → (g : PipelineGraph p) × (compile dests ≡ some g) × (g.leaves ≡ registered_from 0 dests)
  unfolding compile
  compile-leaves dests =
      let b = build dests no_building in
      let o = build-IsOrdered dests no_building no_building-IsOrdered in
      let (es, eq) = finalize_total b.root o.full in
      (graph_of b es, rw eq, o.in_order ∙ build-registered dests no_building)

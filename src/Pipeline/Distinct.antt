-- ===== src/Pipeline/Distinct.antt =====
-- The leaves of a compiled graph are known by their indices.
use unikvs.Prelude.{
  ℕ, suc, ◌≤◌, ◌≡◌, ◌≢◌, sym, subst, ◌∙◌, some, List, [], ◌∷◌, All, Equality, arith,
}
use unikvs.Prelude.Reorder.{AreDistinct}
use unikvs.Pipeline.{Plugins, Destination, Leaf}
use unikvs.Pipeline.Compile.{PipelineGraph, compile, leaf_of}
use unikvs.Pipeline.Registered.{registered_from, compile-leaves}

abbrev pub leaf_index : {p : Plugins} → Leaf p → ℕ
leaf_index l = l.index

module _ {p : Plugins} ⦃e : Equality p.Middleware⦄ where
  registered-All :
      (m n : ℕ) (dests : List (Destination p))
      → suc m ≤ n
      → All (λ l. m ≢ leaf_index l) (registered_from n dests)
  unfolding leaf_of
  registered-All m n [] h = tt
  registered-All m n (dest ∷ dests) h =
      (λ q. omega arith, registered-All m (suc n) dests (omega arith))

  registered-AreDistinct :
      (n : ℕ) (dests : List (Destination p)) → AreDistinct leaf_index (registered_from n dests)
  unfolding leaf_of
  registered-AreDistinct n [] = tt
  registered-AreDistinct n (dest ∷ dests) =
      (registered-All n (suc n) dests (omega arith), registered-AreDistinct (suc n) dests)

  pub compile-registered :
      (dests : List (Destination p)) (g : PipelineGraph p)
      → compile dests ≡ some g
      → g.leaves ≡ registered_from 0 dests
  compile-registered dests g compiled =
      let (g', here, registered) = compile-leaves dests in
      let both : some g' ≡ some g = sym here ∙ compiled in
      let same : g' ≡ g = ground (arith, both) in
      subst (λ k. k.leaves ≡ registered_from 0 dests) same registered

  pub compile-AreDistinct :
      (dests : List (Destination p)) (g : PipelineGraph p)
      → compile dests ≡ some g
      → AreDistinct leaf_index g.leaves
  compile-AreDistinct dests g compiled =
      subst (AreDistinct leaf_index) (sym (compile-registered dests g compiled))
        (registered-AreDistinct 0 dests)

-- ===== src/Core/Remove/Prepare.antt =====
-- The loops of `delete` and `#transferLeaves` that resolve the keys of all leaves. `C` is what the
-- resolvers cache, `K` the key or keys of a leaf.
use unikvs.Prelude.{List, [], ◌∷◌}
use unikvs.Prelude.Exec.{Result, ok, thrown}
use unikvs.Pipeline.{Plugins, Leaf}
use unikvs.Core.Outcomes.{Progress, fail}

module _ {p : Plugins} {S F K C : Type 0} (resolve_one : Leaf p → C → S → Result F K × C × S) where
  abbrev pub noted_key :
      Leaf p
      → Result F K
      → (Progress S F → List (Leaf p × K) × Progress S F)
      → Progress S F
      → List (Leaf p × K) × Progress S F
  noted_key l (ok k) rest s = let (prepared, s') = rest s in ((l, k) ∷ prepared, s')
  noted_key l (thrown e) rest s = rest (fail l e s)

  unfoldable pub prepare : List (Leaf p) → C → Progress S F → List (Leaf p × K) × Progress S F
  unfolding fail
  prepare [] cache s = ([], s)
  prepare (l ∷ ls) cache s =
      let (r, cache', world) = resolve_one l cache s.world in
      noted_key l r (prepare ls cache') (record s { world = world })

-- ===== src/Pipeline/LeafResolver.antt =====
-- unikvs/src/_pipeline-leaf-resolver.ts: the mapped keys of leaves, with a cache of the key of each
-- node that one operation has passed. A node is known by the row of middlewares from the root.
pub mod Keys
mod Tests
use unikvs.Prelude.{String, Option, none, some, List, [], ◌∷◌, ◌++◌, Equality}
use unikvs.Prelude.Exec.{Result, ok, thrown}
use unikvs.JsMap.{JsMap, get, set}
use unikvs.Pipeline.{Plugins, Leaf}
use unikvs.Pipeline.Decode.{Runtime}

module _ {p : Plugins} ⦃e : Equality (List p.Middleware)⦄ (w : Runtime p) where
  -- `#nodeCache`
  abbrev pub NodeCache : Type 0
  NodeCache = JsMap (List p.Middleware) String

  abbrev pub Resolved : Type 0
  Resolved = Result w.Failure String × NodeCache × w.State

  -- The key of a node: the cached one, or the mapped one, which is cached.
  unfoldable pub node_key :
      p.Middleware → List p.Middleware → String → NodeCache → w.State → Resolved
  node_key m node key cache s = elim (get node cache) [
    | some cached ↦ (ok cached, cache, s)
    | none ↦
        let (mapped, s') = w.map_key m key s in
        elim mapped [ ok k ↦ (ok k, set node k cache, s') | thrown x ↦ (thrown x, cache, s') ]
  ]

  abbrev pub followed : Resolved → (String → NodeCache → w.State → Resolved) → Resolved
  followed (thrown x, cache, s) rest = (thrown x, cache, s)
  followed (ok k, cache, s) rest = rest k cache s

  -- The loop over the nodes that are left of a path, below a node.
  unfoldable pub resolve_from :
      List p.Middleware → List p.Middleware → String → NodeCache → w.State → Resolved
  unfolding node_key
  resolve_from [] above key cache s = (ok key, cache, s)
  resolve_from (m ∷ rest) above key cache s =
      let node = above ++ m ∷ [] in followed (node_key m node key cache s) (resolve_from rest node)

  -- `resolve`, of which the leaf itself is left out.
  unfoldable pub resolve : String → Leaf p → NodeCache → w.State → Resolved
  unfolding resolve_from
  resolve root_key l cache s = resolve_from l.path [] root_key cache s

  abbrev pub noted :
      Result w.Failure String → Result w.Failure (List String) → Result w.Failure (List String)
  noted (thrown x) rest = thrown x
  noted (ok k) (thrown x) = thrown x
  noted (ok k) (ok ks) = ok (k ∷ ks)

  -- The leaves of one operation, one after the other.
  unfoldable pub resolve_all :
      String → List (Leaf p) → NodeCache → w.State → Result w.Failure (List String)
  unfolding resolve
  resolve_all root_key [] cache s = ok []
  resolve_all root_key (l ∷ ls) cache s =
      let (r, cache', s') = resolve root_key l cache s in
      noted r (resolve_all root_key ls cache' s')

-- ===== src/Pipeline/Encode.antt =====
-- unikvs/src/_pipeline-graph.ts, `PipelineGraph.encode`: the whole tree, each node once, with the key
-- that its `mapKey` gives the leaves below.
pub mod Walked
pub mod Undone
mod Tests
use unikvs.Prelude.{String, Option, none, some, List, [], ◌∷◌, ◌++◌, if◌then◌else◌}
use unikvs.Prelude.Exec.{Result, ok, thrown, continue}
use unikvs.Prelude.Sorting.{sort_by}
use unikvs.Pipeline.{Plugins, Leaf, Entry, leaf_entry, node_entry, Entries, no_entries, entry}
use unikvs.Pipeline.Contract.{Below, Frame, Fault, other, run_middleware}
use unikvs.Pipeline.Decode.{Runtime}

-- `EncodeTarget`
pub record EncodeTarget {p : Plugins} (w : Runtime p) : Type 0 where
  pub key : String
  pub encoded : w.Value
  pub leaf : Leaf p

module _ {p : Plugins} (w : Runtime p) where
  -- The store and the signal, with `targets`.
  abbrev pub Walk : Type 0
  Walk = w.State × List (EncodeTarget w)

  abbrev pub Walked : Type 0
  Walked = Result (Fault w.Failure) (Unit {0}) × Walk

  abbrev pub walked : Result (Fault w.Failure) (Frame w.Value (Unit {0})) × Walk → Walked
  walked (thrown e, s) = (thrown e, s)
  walked (ok f, s) = (ok tt, s)

  -- `applyMapKey`, of which a throw goes on as it is.
  unfoldable pub apply_map_key :
      p.Middleware → String → Walk → Result (Fault w.Failure) String × Walk
  apply_map_key m key (s, targets) =
      let (r, s') = w.map_key m key s in
      (elim r [ ok k ↦ ok k | thrown e ↦ thrown (other e) ], (s', targets))

  unfoldable mutual
    unfolding run_middleware apply_map_key

    -- `walk`, and a leaf that is pushed.
    pub walk : Entry p → w.Value → String → Walk → Walked
    walk (leaf_entry l) input key (s, targets) =
        (ok tt, (s, targets ++ record { key = key; encoded = input; leaf = l } ∷ []))
    walk (node_entry m below) input key (s, targets) =
        let next_part : Below w.State (List (EncodeTarget w)) w.Value w.Failure (Unit {0}) =
          λ encoded st.
            continue (apply_map_key m key st) (λ node_key. walk_entries below encoded node_key) in
        let rest =
          walked (run_middleware w.aborted w.reason next_part (w.encode m input) (s, targets)) in
        if w.aborted s then (thrown (other (w.reason s)), (s, targets)) else rest

    -- The loop over the entries of a node.
    pub walk_entries : Entries p → w.Value → String → Walk → Walked
    walk_entries no_entries input key s = (ok tt, s)
    walk_entries (entry e es) input key s =
        continue (walk e input key s) (λ done. walk_entries es input key)

  abbrev pub finished : Walked → Result (Fault w.Failure) (List (EncodeTarget w)) × w.State
  finished (thrown e, (s, targets)) = (thrown e, s)
  finished (ok u, (s, targets)) = (ok (sort_by (λ t. t.leaf.index) targets), s)

  unfoldable pub encode :
      Entries p
      → String
      → w.Value
      → w.State
      → Result (Fault w.Failure) (List (EncodeTarget w)) × w.State
  unfolding walk walk_entries
  encode entries key source s = finished (walk_entries entries source key (s, []))

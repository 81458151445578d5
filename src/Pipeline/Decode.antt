-- ===== src/Pipeline/Decode.antt =====
-- unikvs/src/_pipeline-graph.ts, `PipelineGraph.decode`: a leaf's middlewares from the leaf to the root,
-- each around the ones that follow. The operation's key is the same for all of them, so it belongs to
-- the handlers.
pub mod Kept
pub mod Undone
mod Tests
use unikvs.Prelude.{Bool, String, Option, none, some, List, [], ◌∷◌, reverse}
use mathlib.Core.Option
use unikvs.Prelude.Exec.{Result, ok, thrown}
use unikvs.Pipeline.{Plugins, Leaf}
use unikvs.Pipeline.Contract.{
  Script, Frame, Fault, contract, destination_missing, Below, run_middleware,
}

-- The middlewares' handlers over the store and the signal of one operation.
pub record Runtime (p : Plugins) : Type 1 where
  pub State : Type 0
  pub Value : Type 0
  pub Failure : Type 0
  pub aborted : State → Bool
  pub reason : State → Failure
  pub encode : p.Middleware → Value → Script State Value Failure
  pub decode : p.Middleware → Value → Script State Value Failure
  pub map_key : p.Middleware → String → State → Result Failure String × State

module _ {p : Plugins} (w : Runtime p) where
  abbrev pub Decoded : Type 0
  Decoded = Result (Fault w.Failure) w.Value × (w.State × Unit {0})

  -- The middleware's destination, or the result of the part below it where there is one.
  abbrev pub delivered : Option w.Value → Option w.Value → w.State × Unit {0} → Decoded
  delivered none result s = (thrown (contract destination_missing), s)
  delivered (some d) result s = (ok (Option.get_or result d), s)

  -- What `run` returns for a middleware that has kept the contract.
  unfoldable pub outcome :
      Result (Fault w.Failure) (Frame w.Value w.Value) × (w.State × Unit {0}) → Decoded
  outcome (thrown e, s) = (thrown e, s)
  outcome (ok f, s) = delivered f.destination f.result s

  -- `run` of `decode`, on the middlewares that are left.
  unfoldable pub run : List p.Middleware → Below w.State (Unit {0}) w.Value w.Failure w.Value
  unfolding run_middleware outcome
  run [] input s = (ok input, s)
  run (m ∷ rest) input s =
      outcome (run_middleware w.aborted w.reason (run rest) (w.decode m input) s)

  unfoldable pub decode : Leaf p → w.Value → w.State → Decoded
  unfolding run
  decode l source s = run (reverse l.path) source (s, tt)

-- ===== src/Core/AfterUse.antt =====
-- `#notifyAfterUse`: what each middleware is told once the storages have been called.
pub mod Kept
use unikvs.Prelude.{
  ℕ, Bool, true, false, Option, List, [], ◌∷◌, Equality, nat_equality, if◌then◌else◌,
}
use unikvs.Prelude.Exec.{Result}
use unikvs.JsMap.{JsMap}
use unikvs.Pipeline.{Plugins}
use unikvs.Pipeline.Compile.{PipelineGraph, indexes_of, includes}
use unikvs.Pipeline.Decode.{Runtime}
use unikvs.Core.{UseContext, UniKvsError}
use unikvs.Core.Backend.{Backend}
use unikvs.Core.Outcomes.{TargetOutcome, UseOutcome}

-- `outcome.targets.filter`
abbrev pub only : {F : Type 0} → List ℕ → List (ℕ × TargetOutcome F) → List (ℕ × TargetOutcome F)
only indexes [] = []
only indexes ((i, o) ∷ rest) =
    if includes i indexes then (i, o) ∷ only indexes rest else only indexes rest

module _ {p : Plugins} ⦃e : Equality p.Middleware⦄ {w : Runtime p} (b : Backend w)
    (g : PipelineGraph p) where
  abbrev pub outcome_for :
      p.Middleware
      → UseOutcome (UniKvsError w.Failure) w.Failure
      → UseOutcome (UniKvsError w.Failure) w.Failure
  outcome_for m outcome = record outcome {
    targets = only (indexes_of m g.leaf_indexes) outcome.targets;
  }

  -- The loop over the middlewares, which passes over what they throw.
  unfoldable pub notify_each :
      List p.Middleware
      → UseContext
      → UseOutcome (UniKvsError w.Failure) w.Failure
      → w.State
      → w.State
  notify_each [] c outcome s = s
  notify_each (m ∷ ms) c outcome s =
      notify_each ms c outcome (b.after_use m c (outcome_for m outcome) s).1

  unfoldable pub notify_after_use :
      UseContext → UseOutcome (UniKvsError w.Failure) w.Failure → w.State → w.State
  unfolding notify_each
  notify_after_use = notify_each g.middlewares

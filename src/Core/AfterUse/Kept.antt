-- ===== src/Core/AfterUse/Kept.antt =====
-- What the middlewares are told of does not touch what the storages hold.
use unikvs.Prelude.{refl, ◌∙◌, String, Option, List, [], ◌∷◌, Equality}
use unikvs.Pipeline.{Plugins, Leaf}
use unikvs.Pipeline.Compile.{PipelineGraph}
use unikvs.Pipeline.Decode.{Runtime}
use unikvs.Core.{UseContext, UniKvsError}
use unikvs.Core.Backend.{Backend}
use unikvs.Core.Laws.{AreStorages, KeepsAll}
use unikvs.Core.Outcomes.{UseOutcome}
use unikvs.Core.AfterUse.{outcome_for, notify_each, notify_after_use}

module _ {p : Plugins} ⦃e : Equality p.Middleware⦄ {w : Runtime p} (b : Backend w)
    (stored : Leaf p → String → w.State → Option w.Value) (laws : AreStorages b stored)
    (g : PipelineGraph p) where
  notify_each-KeepsAll :
      (ms : List p.Middleware) (c : UseContext) (o : UseOutcome (UniKvsError w.Failure) w.Failure)
      → KeepsAll b stored (notify_each b g ms c o)
  unfolding notify_each
  notify_each-KeepsAll [] c o l k s = refl
  notify_each-KeepsAll (m ∷ ms) c o l k s =
      notify_each-KeepsAll ms c o l k (b.after_use m c (outcome_for b g m o) s).1
      ∙ laws.after_use_keeps m c (outcome_for b g m o) l k s

  pub notify_after_use-KeepsAll :
      (c : UseContext) (o : UseOutcome (UniKvsError w.Failure) w.Failure)
      → KeepsAll b stored (notify_after_use b g c o)
  unfolding notify_after_use
  notify_after_use-KeepsAll = notify_each-KeepsAll g.middlewares

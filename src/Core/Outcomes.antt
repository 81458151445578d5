-- ===== src/Core/Outcomes.antt =====
-- What becomes of each destination of an operation: `#createTargetOutcomes`, `#createUseOutcome`, and
-- the two places of the handlers that record a result. A leaf is known by its index.
pub mod Settled
pub mod Turns
pub mod Started
use unikvs.Prelude.{
  ℕ, Bool, true, false, String, nat_equality, nat_beq, Option, none, some, List, [], ◌∷◌, ◌++◌, map,
  if◌then◌else◌,
}
use unikvs.Prelude.Exec.{Result, ok, thrown, Exec}
use unikvs.Prelude.Sorting.{sort_by}
use unikvs.JsMap.{JsMap, get, set}
use unikvs.Pipeline.{Plugins, Leaf}
use unikvs.Core.{PluginErrorRecord, Action, UniKvsError, aggregate}
use unikvs.Tasks.{Task, finished, turn}

pub data Status (F : Type 0) : Type 0 where
  skipped committed not_found : Status F
  failed : F → Status F

-- `MutableUseTargetOutcome`
pub record TargetOutcome (F : Type 0) : Type 0 where
  pub name : String
  pub status : Status F

-- What the handlers of one operation share: the world, `errors`, `outcomes`, the leaves that `found`
-- counts, and the reasons of the handlers that were rejected, of which `Promise.allSettled` tells.
pub record Progress (S F : Type 0) : Type 0 where
  pub world : S
  pub errors : List (PluginErrorRecord F)
  pub outcomes : JsMap ℕ (TargetOutcome F)
  pub found : List ℕ
  pub rejected : List (PluginErrorRecord F)

-- `IMiddleware.UseOutcome`
pub data UseStatus (E F : Type 0) : Type 0 where
  aborted : F → UseStatus E F
  error : E → UseStatus E F
  success : UseStatus E F

pub record UseOutcome (E F : Type 0) : Type 0 where
  pub use_status : UseStatus E F
  pub targets : List (ℕ × TargetOutcome F)

module _ {p : Plugins} {F : Type 0} where
  -- `#createTargetOutcomes`
  unfoldable pub create_target_outcomes : List (Leaf p) → JsMap ℕ (TargetOutcome F)
  create_target_outcomes [] = []
  create_target_outcomes (l ∷ ls) =
      (l.index, record { name = l.name; status = skipped }) ∷ create_target_outcomes ls

module _ {F : Type 0} where
  -- `outcomes.get(leaf)`, and its new status if it is there.
  unfoldable pub set_status : ℕ → Status F → JsMap ℕ (TargetOutcome F) → JsMap ℕ (TargetOutcome F)
  set_status i v [] = []
  set_status i v ((j, o) ∷ m) =
      if nat_beq j i then (j, record o { status = v }) ∷ m else (j, o) ∷ set_status i v m

module _ {E F : Type 0} where
  abbrev pub use_status_of : Option F → Option E → UseStatus E F
  use_status_of (some reason) e = aborted reason
  use_status_of none (some e) = error e
  use_status_of none none = success

  -- `#createUseOutcome`, with the reason of the signal if it is aborted.
  unfoldable pub create_use_outcome :
      Option F → JsMap ℕ (TargetOutcome F) → Option E → UseOutcome E F
  create_use_outcome reason outcomes e = record {
    use_status = use_status_of reason e;
    targets = sort_by (λ t. t.0) outcomes;
  }

module _ {F : Type 0} where
  -- The `PluginOperationAggregateError` of an action, if there are errors.
  abbrev pub aggregate_of : Action → List (PluginErrorRecord F) → Option (UniKvsError F)
  aggregate_of action [] = none
  aggregate_of action (r ∷ rs) = some (aggregate action (r ∷ rs))

module _ {p : Plugins} {S F : Type 0} where
  unfoldable pub mark : Leaf p → Status F → Progress S F → Progress S F
  unfolding set_status
  mark l v s = record s { outcomes = set_status l.index v s.outcomes }

  -- The `catch` of a leaf: the error is kept and the leaf has failed.
  unfoldable pub fail : Leaf p → F → Progress S F → Progress S F
  unfolding mark
  fail l e s =
      mark l (failed e) (record s {
        errors = s.errors ++ record { name = l.name; index = l.index; reason = e } ∷ [];
      })

  -- The `throw` of a handler that the signal has ended.
  unfoldable pub reject : Leaf p → F → Progress S F → Progress S F
  unfolding mark
  reject l e s = mark l (failed e) (record s {
    rejected = s.rejected ++ record { name = l.name; index = l.index; reason = e } ∷ [];
  })

  -- `found += 1`
  unfoldable pub count : Leaf p → Progress S F → Progress S F
  count l s = record s { found = s.found ++ l.index ∷ [] }

  unfoldable pub start : List (Leaf p) → S → Progress S F
  unfolding create_target_outcomes
  start ls s = record {
    world = s;
    errors = [];
    outcomes = create_target_outcomes ls;
    found = [];
    rejected = [];
  }

module _ {S F : Type 0} where
  -- A turn that only keeps the books.
  abbrev pub note : (Progress S F → Progress S F) → Task (Progress S F)
  note change = turn change (λ s. finished)

module _ {S F A : Type 0} where
  -- A call of a storage, which has its effect at one moment; what follows depends on its result.
  unfoldable pub attempt : Exec S F A → (Result F A → Task (Progress S F)) → Task (Progress S F)
  attempt m next = turn (λ s. record s { world = (m s.world).1 }) (λ s. next (m s.world).0)

module _ {p : Plugins} {S F : Type 0} where
  abbrev pub recorded : Leaf p → Result F (Unit {0}) → Task (Progress S F)
  recorded l (ok u) = note (mark l committed)
  recorded l (thrown e) = note (fail l e)

  -- The handler of a leaf that calls its storage once.
  unfoldable pub call_once : Leaf p → Exec S F (Unit {0}) → Task (Progress S F)
  unfolding attempt
  call_once l m = attempt m (recorded l)

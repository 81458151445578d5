-- ===== src/Core/Remove.antt =====
-- `delete` and `clear`. The keys of all leaves are resolved before the first storage is called; a leaf
-- whose key cannot be resolved has failed and is not called.
pub mod Prepare
pub mod Cleared
pub mod Emptied
pub mod Ready
pub mod Called
pub mod Deleted
pub mod Gone
use unikvs.Prelude.{
  ℕ, Bool, true, false, String, Option, none, some, List, [], ◌∷◌, map, Equality, if◌then◌else◌,
}
use unikvs.Prelude.Maybe.{◌>>=◌ as and_then}
use unikvs.Prelude.Exec.{Result, ok, thrown}
use unikvs.Pipeline.{Plugins, Leaf}
use unikvs.Pipeline.Compile.{PipelineGraph}
use unikvs.Pipeline.Decode.{Runtime}
use unikvs.Pipeline.LeafResolver.{resolve}
use unikvs.Core.{Action, UseContext, UniKvsError, deletes, clears, delete_context, clear_context}
use unikvs.Core.Backend.{Backend, signal_reason}
use unikvs.Core.Operation.{Method, using_lock, ◌>>◌}
use unikvs.Core.Outcomes.{
  Progress, start, mark, fail, note, attempt, call_once, aggregate_of, create_use_outcome,
  not_found,
}
use unikvs.Core.AfterUse.{notify_after_use}
use unikvs.Core.Entry.{assert_open, checked, throw_if_aborted, with_instance, use_stage}
use unikvs.Core.Remove.Prepare.{prepare}
use unikvs.Tasks.{Task, await_all}

module _ {p : Plugins} {w : Runtime p} (b : Backend w) where
  abbrev pub Books : Type 0
  Books = Progress w.State w.Failure

  -- What follows `exists`.
  abbrev pub after_exists : Leaf p → Task Books → Result w.Failure Bool → Task Books
  after_exists l next (ok true) = next
  after_exists l next (ok false) = note (mark l not_found)
  after_exists l next (thrown e) = note (fail l e)

  -- The handler of a leaf with its key.
  unfoldable pub delete_task : Leaf p × String → Task Books
  unfolding attempt call_once
  delete_task (l, key) = attempt (b.exists l key) (after_exists l (call_once l (b.delete l key)))

  unfoldable pub delete_all : List ℕ → List (Leaf p × String) → Books → Option Books
  unfolding delete_task await_all
  delete_all schedule prepared = await_all schedule (map delete_task prepared)

  unfoldable pub clear_task : Leaf p → Task Books
  unfolding call_once
  clear_task l = call_once l (b.clear l)

  unfoldable pub clear_all : List ℕ → List (Leaf p) → w.State → Option Books
  unfolding clear_task await_all start
  clear_all schedule leaves s = await_all schedule (map clear_task leaves) (start leaves s)

  module _ ⦃e : Equality p.Middleware⦄ (g : PipelineGraph p) where
    abbrev pub ended :
        Option (UniKvsError w.Failure)
        → w.State
        → Option (Result (UniKvsError w.Failure) (Unit {0}) × w.State)
    ended none s = some (ok tt, s)
    ended (some x) s = some (thrown x, s)

    -- The middlewares are told, and the errors thrown.
    unfoldable pub finish :
        Action → UseContext → Books → Option (Result (UniKvsError w.Failure) (Unit {0}) × w.State)
    unfolding notify_after_use create_use_outcome
    finish action c s = ended (aggregate_of action s.errors) (
        notify_after_use b g c
          (create_use_outcome (signal_reason w s.world) s.outcomes (aggregate_of action s.errors))
          s.world)

    module _ ⦃path : Equality (List p.Middleware)⦄ where
      unfoldable pub delete_leaves : List ℕ → String → Method w.State w.Failure (Unit {0})
      unfolding delete_all prepare start finish resolve
      delete_leaves schedule key s =
          let (prepared, s') = prepare (resolve w key) g.leaves [] (start g.leaves s) in
          and_then (delete_all schedule prepared s') (finish deletes (delete_context key))

      unfoldable pub delete : List ℕ → String → Method w.State w.Failure (Unit {0})
      unfolding assert_open with_instance use_stage delete_leaves
      delete schedule key =
          assert_open b
          >> (checked b (b.check_key key)
              >> with_instance b (
                  use_stage b g (delete_context key)
                  >> using_lock (b.lock_keys (some key)) (b.unlock_keys (some key))
                      (delete_leaves schedule key)))

    unfoldable pub clear_leaves : List ℕ → Method w.State w.Failure (Unit {0})
    unfolding clear_all finish
    clear_leaves schedule s = and_then (clear_all schedule g.leaves s) (finish clears clear_context)

    unfoldable pub clear : List ℕ → Method w.State w.Failure (Unit {0})
    unfolding assert_open with_instance use_stage clear_leaves throw_if_aborted
    clear schedule =
        assert_open b
        >> with_instance b (
            using_lock (b.lock_keys none) (b.unlock_keys none)
              (use_stage b g clear_context >> (throw_if_aborted b >> clear_leaves schedule)))

-- ===== src/Core/Transfer.antt =====
-- `copy` and `move`: `#transfer` and `#transferLeaves`.
pub mod Settled
pub mod OwnKeys
pub mod Done
pub mod Returned
pub mod Carried
use unikvs.Prelude.{
  ℕ, Bool, true, false, String, Option, none, some, List, [], ◌∷◌, map, Equality, ◌==◌, nat_beq,
  string_equality, if◌then◌else◌,
}
use mathlib.Core.Option
use unikvs.Prelude.Maybe.{◌>>=◌ as and_then}
use unikvs.Prelude.Exec.{Result, ok, thrown, Exec}
use unikvs.Pipeline.{Plugins, Leaf}
use unikvs.Pipeline.Contract.{other}
use unikvs.Pipeline.Compile.{PipelineGraph}
use unikvs.Pipeline.Decode.{Runtime}
use unikvs.Pipeline.LeafResolver.{NodeCache, resolve}
use unikvs.Core.{
  Action, UseContext, UniKvsError, PluginErrorRecord, aggregate, copies, moves, copy_context,
  failed as op_failed, move_context,
}
use unikvs.Core
use unikvs.Core.Backend.{Backend, signal_reason}
use unikvs.Core.Operation.{Method, using_lock, ◌>>◌}
use unikvs.Core.Outcomes.{
  Progress, start, mark, fail, reject, count, note, attempt, aggregate_of, create_use_outcome,
  committed, not_found,
}
use unikvs.Core.AfterUse.{notify_after_use}
use unikvs.Core.Entry.{assert_open, checked, throw_if_aborted, with_instance, use_stage}
use unikvs.Core.Remove.Prepare.{prepare}
use unikvs.Tasks.{Task, turn, await_all}

pub data Transfer : Type 0 where
  copying moving : Transfer

abbrev pub action_of : Transfer → Action
action_of copying = copies
action_of moving = moves

abbrev pub context_of : Transfer → String → String → UseContext
context_of copying = copy_context
context_of moving = move_context

-- The destination's key beside the source's.
abbrev pub Keys : Type 0
Keys = String × String

module _ {p : Plugins} {w : Runtime p} (b : Backend w) where
  abbrev pub Books : Type 0
  Books = Progress w.State w.Failure

  abbrev pub Prepared : Type 0
  Prepared = List (Leaf p × Keys)

  abbrev pub Ended : Type 0
  Ended = Option (Result (UniKvsError w.Failure) (Unit {0}) × w.State)

  abbrev pub apply : Transfer → Leaf p → String → String → Exec w.State w.Failure (Unit {0})
  apply copying = b.copy
  apply moving = b.move

  -- The `catch` of a leaf, which throws again once the signal is aborted.
  unfoldable pub caught : Leaf p → w.Failure → Task Books
  caught l e = note (λ s. if w.aborted s.world then reject l e s else fail l e s)

  abbrev pub after_transfer : Leaf p → Result w.Failure (Unit {0}) → Task Books
  after_transfer l (ok u) = note (mark l committed)
  after_transfer l (thrown e) = caught l e

  abbrev pub after_exists : Leaf p → Task Books → Result w.Failure Bool → Task Books
  after_exists l next (ok true) = turn (count l) (λ s. next)
  after_exists l next (ok false) = note (mark l not_found)
  after_exists l next (thrown e) = caught l e

  -- The handler of a leaf with its keys.
  unfoldable pub transfer_task : Transfer → Leaf p × Keys → Task Books
  unfolding attempt caught count
  transfer_task kind (l, (from, to)) =
      attempt (b.exists l from) (after_exists l (attempt (apply kind l from to) (after_transfer l)))

  unfoldable pub transfer_all : Transfer → List ℕ → Prepared → Books → Option Books
  unfolding transfer_task await_all
  transfer_all kind schedule prepared = await_all schedule (map (transfer_task kind) prepared)

  abbrev pub reason_of : ℕ → List (PluginErrorRecord w.Failure) → Option w.Failure
  reason_of i [] = none
  reason_of i (r ∷ rs) = if nat_beq r.index i then some r.reason else reason_of i rs

  -- `abortFailure`: the first handler that was rejected, in the order of the handlers.
  abbrev pub abort_failure : Prepared → List (PluginErrorRecord w.Failure) → Option w.Failure
  abort_failure [] rejected = none
  abort_failure ((l, keys) ∷ rest) rejected = elim (reason_of l.index rejected) [
    | some e ↦ some e
    | none ↦ abort_failure rest rejected
  ]

  abbrev pub is_empty : {A : Type 0} → List A → Bool
  is_empty [] = true
  is_empty (x ∷ xs) = false

  abbrev pub none_found :
      Bool → Action → String → List (PluginErrorRecord w.Failure) → UniKvsError w.Failure
  none_found true action key [] = Core.not_found key [] action
  none_found true action key (r ∷ rs) = aggregate action (r ∷ rs)
  none_found false action key errors = Core.not_found key errors action

  -- `failure` while the signal is not aborted; `unprepared` tells that no leaf has been prepared.
  unfoldable pub failure_of :
      Bool
      → Action
      → String
      → List ℕ
      → List (PluginErrorRecord w.Failure)
      → Option (UniKvsError w.Failure)
  failure_of unprepared action key [] errors = some (none_found unprepared action key errors)
  failure_of unprepared action key (i ∷ found) errors = aggregate_of action errors

  -- The same, and none when the signal is aborted.
  abbrev pub failure : Transfer → String → Prepared → Books → Option (UniKvsError w.Failure)
  failure kind key prepared s =
      if w.aborted s.world
      then none
      else failure_of (is_empty prepared) (action_of kind) key s.found s.errors

  -- What `afterUse` is told of: the failure, or why the operation was aborted.
  abbrev pub told :
      Bool
      → w.Failure
      → Option w.Failure
      → Option (UniKvsError w.Failure)
      → Option (UniKvsError w.Failure)
  told true reason aborted e = some (op_failed (other (Option.get_or aborted reason)))
  told false reason aborted e = e

  -- The three throws at the end.
  unfoldable pub conclude_transfer :
      Option w.Failure → Option (UniKvsError w.Failure) → w.State → Ended
  unfolding throw_if_aborted
  conclude_transfer (some x) e s = some (thrown (op_failed (other x)), s)
  conclude_transfer none (some e) s = (throw_if_aborted b >> (λ t. some (thrown e, t))) s
  conclude_transfer none none s = throw_if_aborted b s

  module _ ⦃e : Equality p.Middleware⦄ (g : PipelineGraph p) where
    -- What follows the handlers.
    unfoldable pub finish_transfer : Transfer → String → String → Prepared → Books → Ended
    unfolding notify_after_use create_use_outcome failure_of conclude_transfer
    finish_transfer kind key destination prepared s =
        let stopped = abort_failure prepared s.rejected in
        let e = failure kind key prepared s in
        conclude_transfer stopped e (
          notify_after_use b g (context_of kind key destination)
            (create_use_outcome (signal_reason w s.world) s.outcomes
              (told (w.aborted s.world) (w.reason s.world) stopped e))
            s.world)

    module _ ⦃path : Equality (List p.Middleware)⦄ where
      abbrev pub Caches : Type 0
      Caches = NodeCache w × NodeCache w

      abbrev pub pair_with : String → Result w.Failure String → Result w.Failure Keys
      pair_with k (ok d) = ok (k, d)
      pair_with k (thrown e) = thrown e

      -- The destination's key; with equal keys the source's resolver resolves both.
      abbrev pub after_source :
          String
          → Bool
          → Leaf p
          → NodeCache w
          → Result w.Failure String × NodeCache w × w.State
          → Result w.Failure Keys × Caches × w.State
      after_source destination same l cache (thrown e, c, s) = (thrown e, (c, cache), s)
      after_source destination true l cache (ok k, c, s) =
          let (r, d, s') = resolve w destination l c s in (pair_with k r, (d, d), s')
      after_source destination false l cache (ok k, c, s) =
          let (r, d, s') = resolve w destination l cache s in (pair_with k r, (c, d), s')

      unfoldable pub resolve_pair :
          String → String → Leaf p → Caches → w.State → Result w.Failure Keys × Caches × w.State
      unfolding resolve
      resolve_pair key destination l caches s =
          after_source destination (key == destination) l caches.1 (resolve w key l caches.0 s)

      -- `#transferLeaves`
      unfoldable pub transfer_leaves :
          Transfer → List ℕ → String → String → Method w.State w.Failure (Unit {0})
      unfolding prepare resolve_pair start transfer_all finish_transfer
      transfer_leaves kind schedule key destination s =
          let (prepared, s') =
            prepare (resolve_pair key destination) g.leaves ([], []) (start g.leaves s) in
          and_then (transfer_all kind schedule prepared s')
            (finish_transfer kind key destination prepared)

      abbrev pub with_key :
          String → Method w.State w.Failure (Unit {0}) → Method w.State w.Failure (Unit {0})
      with_key key = using_lock (b.lock_keys (some key)) (b.unlock_keys (some key))

      -- The locks of the keys, always in the same order.
      abbrev pub with_keys :
          String
          → String
          → Method w.State w.Failure (Unit {0})
          → Method w.State w.Failure (Unit {0})
      with_keys key destination body =
          if key == destination
          then with_key key body
          else if b.comes_before key destination
          then with_key key (with_key destination body)
          else with_key destination (with_key key body)

      -- `#transfer`
      unfoldable pub transfer :
          Transfer → List ℕ → String → String → Method w.State w.Failure (Unit {0})
      unfolding assert_open with_instance use_stage throw_if_aborted transfer_leaves
      transfer kind schedule key destination =
          assert_open b
          >> (checked b (b.check_key key)
              >> (checked b (b.check_key destination)
                  >> with_instance b (
                      use_stage b g (context_of kind key destination)
                      >> (throw_if_aborted b
                          >> with_keys key destination
                              (transfer_leaves kind schedule key destination)))))

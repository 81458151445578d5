-- ===== src/Core/Write.antt =====
-- `set` of a plain value, with `#setPlain` and `#finishWrites`.
pub mod Settled
pub mod Done
pub mod Stored
pub mod Ends
use unikvs.Prelude.{
  ℕ, Bool, String, Option, none, some, List, [], ◌∷◌, map, any, Equality, nat_beq, if◌then◌else◌,
}
use unikvs.Prelude.Maybe.{◌>>=◌ as and_then}
use unikvs.Prelude.Exec.{Result, ok, thrown}
use unikvs.Pipeline.{Plugins, Leaf}
use unikvs.Pipeline.Compile.{PipelineGraph}
use unikvs.Pipeline.Decode.{Runtime}
use unikvs.Pipeline.Encode.{EncodeTarget, encode}
use unikvs.Core.{PluginErrorRecord, UniKvsError, writes, aggregate, set_context}
use unikvs.Core.Backend.{Backend, signal_reason}
use unikvs.Core.Operation.{Method, as_thrown, using_lock, ◌>>=◌, ◌>>◌}
use unikvs.Core.Outcomes.{Progress, start, attempt, call_once, aggregate_of, create_use_outcome}
use unikvs.Core.AfterUse.{notify_after_use}
use unikvs.Core.Entry.{assert_open, checked, throw_if_aborted, with_instance, use_stage}
use unikvs.Tasks.{Task, finished, await_all}

module _ {p : Plugins} {w : Runtime p} (b : Backend w) where
  abbrev pub Books : Type 0
  Books = Progress w.State w.Failure

  abbrev pub leaves_of : List (EncodeTarget w) → List (Leaf p)
  leaves_of = map (λ t. t.leaf)

  -- The handler of a target.
  unfoldable pub write_task : EncodeTarget w → Task Books
  unfolding call_once
  write_task t = call_once t.leaf (b.write t.leaf t.key t.encoded)

  -- All targets written, in the order that a schedule gives.
  unfoldable pub write_targets : List ℕ → List (EncodeTarget w) → w.State → Option Books
  unfolding write_task await_all start
  write_targets schedule targets s =
      await_all schedule (map write_task targets) (start (leaves_of targets) s)

  -- `failed.has`; a leaf is added to `failed` where its error is.
  abbrev pub has_failed : ℕ → List (PluginErrorRecord w.Failure) → Bool
  has_failed i = any (λ r. nat_beq r.index i)

  -- The handler that tells a target of the others' errors, whose own error is only logged.
  unfoldable pub notice_task : List (PluginErrorRecord w.Failure) → EncodeTarget w → Task Books
  unfolding attempt
  notice_task errors t =
      if has_failed t.leaf.index errors
      then finished
      else attempt (b.on_other_write_error t.leaf t.key errors) (λ r. finished)

  -- `#finishWrites`
  unfoldable pub finish_writes :
      List ℕ
      → List (EncodeTarget w)
      → List (PluginErrorRecord w.Failure)
      → Method w.State w.Failure (Unit {0})
  unfolding notice_task await_all start
  finish_writes schedule targets [] s = some (ok tt, s)
  finish_writes schedule targets (r ∷ rs) s =
      and_then (await_all schedule (map (notice_task (r ∷ rs)) targets) (start {p = p} [] s))
        (λ s'. some (thrown (aggregate writes (r ∷ rs)), s'.world))

  module _ ⦃e : Equality p.Middleware⦄ (g : PipelineGraph p) where
    -- What follows the writes of `#setPlain`.
    unfoldable pub finish_set :
        List ℕ
        → String
        → List (EncodeTarget w)
        → Books
        → Option (Result (UniKvsError w.Failure) (Unit {0}) × w.State)
    unfolding notify_after_use finish_writes create_use_outcome
    finish_set notices key targets s = finish_writes notices targets s.errors (
        notify_after_use b g (set_context key)
          (create_use_outcome (signal_reason w s.world) s.outcomes (aggregate_of writes s.errors))
          s.world)

    unfoldable pub set_targets :
        List ℕ → List ℕ → String → List (EncodeTarget w) → Method w.State w.Failure (Unit {0})
    unfolding write_targets finish_set
    set_targets schedule notices key targets s =
        and_then (write_targets schedule targets s) (finish_set notices key targets)

    -- `PipelineGraph.encode`
    abbrev pub encoded_targets : String → w.Value → Method w.State w.Failure (List (EncodeTarget w))
    encoded_targets key value s =
        let (r, s') = encode w g.entries key value s in some (as_thrown r, s')

    -- `#setPlain`
    unfoldable pub set_plain :
        List ℕ → List ℕ → String → w.Value → Method w.State w.Failure (Unit {0})
    unfolding encode set_targets
    set_plain schedule notices key value = encoded_targets key value >>= (λ targets.
        using_lock (b.lock_keys (some key)) (b.unlock_keys (some key))
          (set_targets schedule notices key targets))

    -- `set` of a value that is not a stream.
    unfoldable pub set : List ℕ → List ℕ → String → w.Value → Method w.State w.Failure (Unit {0})
    unfolding assert_open with_instance use_stage throw_if_aborted set_plain
    set schedule notices key value =
        assert_open b
        >> (checked b (b.check_key key) >> checked b (b.check_input key value))
        >>= (λ valid. with_instance b (
            use_stage b g (set_context key)
            >> (throw_if_aborted b >> set_plain schedule notices key valid)))

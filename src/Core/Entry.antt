-- ===== src/Core/Entry.antt =====
-- How each operation of unikvs/src/unikvs.ts begins: the connection, the schemas, the lock of the
-- instance and the middlewares' `use`. The store and the combined signal are in the world from the
-- start; the parsing of the arguments is left out.
pub mod Returned
pub mod Passed
use unikvs.Prelude.{String, Option, none, some, List, map, if◌then◌else◌}
use unikvs.Prelude.Exec.{Result, ok, thrown}
use unikvs.Pipeline.{Plugins}
use unikvs.Pipeline.Contract.{contract, other}
use unikvs.Pipeline.Compile.{PipelineGraph}
use unikvs.Pipeline.Decode.{Runtime}
use unikvs.Core.{UseContext, UniKvsError, not_open, failed, use_failed}
use unikvs.Core.Backend.{Backend}
use unikvs.Core.Operation.{Method, from_result, using_lock, ◌>>◌}
use unikvs.Core.Use.{UseFailure, violated, stopped, aggregated, use_middlewares}

module _ {p : Plugins} {w : Runtime p} (b : Backend w) where
  -- `#assertOpen`, and `#requireOpen`, of which the connection itself is in the world.
  unfoldable pub assert_open : Method w.State w.Failure (Unit {0})
  assert_open s = if b.is_open s then some (ok tt, s) else some (thrown not_open, s)

  -- A check of a schema, which does not touch the world.
  abbrev pub checked : {A : Type 0} → Result w.Failure A → Method w.State w.Failure A
  checked r s = some (from_result r, s)

  -- `throwIfAborted`
  unfoldable pub throw_if_aborted : Method w.State w.Failure (Unit {0})
  throw_if_aborted s =
      if w.aborted s then some (thrown (failed (other (w.reason s))), s) else some (ok tt, s)

  -- The lock of the instance, with the second look at the connection.
  unfoldable pub with_instance :
      {A : Type 0} → Method w.State w.Failure A → Method w.State w.Failure A
  unfolding assert_open
  with_instance body = using_lock b.lock_instance b.unlock_instance (assert_open >> body)

  abbrev pub use_error : UseFailure w.Failure → UniKvsError w.Failure
  use_error (violated x) = failed (contract x)
  use_error (stopped e) = failed (other e)
  use_error (aggregated i e) = use_failed i e

  abbrev pub used :
      Result (UseFailure w.Failure) (Unit {0}) × w.State
      → Option (Result (UniKvsError w.Failure) (Unit {0}) × w.State)
  used (ok u, s) = some (ok tt, s)
  used (thrown e, s) = some (thrown (use_error e), s)

  unfoldable pub use_stage : PipelineGraph p → UseContext → Method w.State w.Failure (Unit {0})
  unfolding use_middlewares
  use_stage g c s = used (use_middlewares w.aborted w.reason (map (b.use_script c) g.middlewares) s)

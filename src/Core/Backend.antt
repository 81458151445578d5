-- ===== src/Core/Backend.antt =====
-- What the client calls: the storages by their wrapper, the middlewares' `use` and `afterUse`, the locks
-- of the asyncmux library and the schemas. Over one state of the world, which a wait may change too:
-- the connection, the signal, the operation's store of variables and the storages' entries.
use unikvs.Prelude.{Bool, String, Option, none, some, List, if◌then◌else◌}
use unikvs.Prelude.Exec.{Result, Exec}
use unikvs.Pipeline.{Plugins, Leaf}
use unikvs.Pipeline.Decode.{Runtime}
use unikvs.Core.{UseContext, UniKvsError, PluginErrorRecord}
use unikvs.Core.Outcomes.{UseOutcome}
use unikvs.Core.Use.{UseScript}

pub record Backend {p : Plugins} (w : Runtime p) : Type 0 where
  -- `#con !== null`
  pub is_open : w.State → Bool
  pub exists : Leaf p → String → Exec w.State w.Failure Bool
  pub read : Leaf p → String → Exec w.State w.Failure w.Value
  pub write : Leaf p → String → w.Value → Exec w.State w.Failure (Unit {0})
  pub delete : Leaf p → String → Exec w.State w.Failure (Unit {0})
  pub clear : Leaf p → Exec w.State w.Failure (Unit {0})
  pub copy : Leaf p → String → String → Exec w.State w.Failure (Unit {0})
  pub move : Leaf p → String → String → Exec w.State w.Failure (Unit {0})
  pub on_other_write_error :
      Leaf p → String → List (PluginErrorRecord w.Failure) → Exec w.State w.Failure (Unit {0})
  pub use_script : UseContext → p.Middleware → UseScript w.State w.Failure
  pub after_use :
      p.Middleware
      → UseContext
      → UseOutcome (UniKvsError w.Failure) w.Failure
      → Exec w.State w.Failure (Unit {0})
  -- `#resolveValueSchema` with `parseSetValue` or `parseOutput`.
  pub check_key : String → Result w.Failure (Unit {0})
  pub check_input : String → w.Value → Result w.Failure w.Value
  pub check_output : String → w.Value → Result w.Failure w.Value
  -- `asyncmux.readonly(this, signal)`
  pub lock_instance : Exec w.State w.Failure (Unit {0})
  pub unlock_instance : w.State → w.State
  -- `io.lock` of a key or of all keys, and `io.rLock`.
  pub lock_keys : Option String → Exec w.State w.Failure (Unit {0})
  pub read_lock_key : String → Exec w.State w.Failure (Unit {0})
  pub unlock_keys : Option String → w.State → w.State
  -- The `<` of strings.
  pub comes_before : String → String → Bool

module _ {p : Plugins} (w : Runtime p) where
  -- `throwIfAborted(signal)` finds the reason of the signal, if it is aborted.
  abbrev pub signal_reason : w.State → Option w.Failure
  signal_reason s = if w.aborted s then some (w.reason s) else none

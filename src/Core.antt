-- ===== src/Core.antt =====
-- unikvs/src/unikvs.ts: the client, which sends an operation through the middlewares to its storages.
--
-- The plugins, the locks of the asyncmux library and the schemas of the valibot library are
-- parameters over one state of the world, which is also what a wait may change: the connection, the
-- signal, the store of variables and the storages' entries.
pub mod Operation
pub mod Outcomes
pub mod Backend
pub mod AfterUse
pub mod Use
pub mod Entry
pub mod Write
pub mod Remove
pub mod Transfer
pub mod Read
pub mod Laws
pub mod RoundTrip
mod Tests
use unikvs.Prelude.{ℕ, String, List, [], ◌∷◌}
use unikvs.Pipeline.Contract.{Fault}

pub data Action : Type 0 where
  reads writes deletes copies moves clears : Action

-- `PluginErrorRecord`
pub record PluginErrorRecord (F : Type 0) : Type 0 where
  pub name : String
  pub index : ℕ
  pub reason : F

-- The cause that `#notFound` gives a `KeyNotFoundError`.
pub data Cause (F : Type 0) : Type 0 where
  no_cause : Cause F
  one_cause : F → Cause F
  aggregate_cause : Action → List (PluginErrorRecord F) → Cause F

-- What an operation throws. `aggregate` is a `PluginOperationAggregateError` of storages, `use_failed`
-- one of the middleware at an index; `failed` is what a plugin, a lock or a schema throws.
pub data UniKvsError (F : Type 0) : Type 0 where
  not_open : UniKvsError F
  key_not_found : String → Cause F → UniKvsError F
  aggregate : Action → List (PluginErrorRecord F) → UniKvsError F
  use_failed : ℕ → F → UniKvsError F
  failed : Fault F → UniKvsError F

-- The context that `use` and `afterUse` get.
pub data UseContext : Type 0 where
  get_context set_context has_context delete_context : String → UseContext
  copy_context move_context : String → String → UseContext
  clear_context : UseContext

-- `#notFound`
unfoldable pub not_found :
    {F : Type 0} → String → List (PluginErrorRecord F) → Action → UniKvsError F
not_found key [] action = key_not_found key no_cause
not_found key (e ∷ []) action = key_not_found key (one_cause e.reason)
not_found key (e ∷ f ∷ errors) action = key_not_found key (aggregate_cause action (e ∷ f ∷ errors))

-- ===== src/Storage.antt =====
-- The storages that keep their data in this process: packages/memory and packages/lru-cache.
--
-- A stored value, its `clone` (`structuredClone` unless the user gives one, and it may throw) and
-- `Uint8Array` are the platform's: parameters. A call's context is its key and whether its signal is
-- aborted.
pub mod Bytes
pub mod LruCache
pub mod Memory
pub mod Retry
mod Tests
use unikvs.Prelude.{ℕ, Bool, true, false, String, Option, List}
use unikvs.Prelude.Exec.{Result, ok, thrown, Exec}

-- `as_bytes` is `some` for what is an instance of `Uint8Array`, and `clone_bytes` is `clone` there.
pub record Values : Type 1 where
  pub Value : Type 0
  pub Failure : Type 0
  pub clone : Value → Result Failure Value
  pub clone_bytes : List ℕ → Result Failure (List ℕ)
  pub as_bytes : Value → Option (List ℕ)
  pub of_bytes : List ℕ → Value

pub record Context : Type 0 where
  pub key : String
  pub aborted : Bool

-- What the storages throw; `failed` is an exception out of a parameter.
pub data StorageError (E : Type 0) : Type 0 where
  aborted not_open : StorageError E
  key_not_found invalid_chunk_type invalid_size_of_result : String → StorageError E
  invalid_max_entries invalid_max_bytes : StorageError E
  failed : E → StorageError E

module _ {S E : Type 0} where
  abbrev pub require : Bool → StorageError E → Exec S (StorageError E) (Unit {0})
  require true e s = (ok tt, s)
  require false e s = (thrown e, s)

  abbrev pub lift : {A : Type 0} → Result E A → Exec S (StorageError E) A
  lift (ok a) s = (ok a, s)
  lift (thrown e) s = (thrown (failed e), s)

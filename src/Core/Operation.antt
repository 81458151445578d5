-- ===== src/Core/Operation.antt =====
-- The asynchronous methods of unikvs/src/unikvs.ts: a method takes the world to a result and the world
-- left, or to nothing when a schedule of the tasks that it awaits leaves one of them unfinished.
pub mod Returned
use unikvs.Prelude.{Bool, Option, none, some, if◌then◌else◌}
use unikvs.Prelude.Exec.{Result, ok, thrown, Exec}
use unikvs.Pipeline.Contract.{Fault, other}
use unikvs.Core.{UniKvsError, failed}

abbrev pub Method : Type 0 → Type 0 → Type 0 → Type 0
Method S F A = S → Option (Result (UniKvsError F) A × S)

module _ {F A : Type 0} where
  -- What the pipeline throws, as a method throws it.
  abbrev pub as_thrown : Result (Fault F) A → Result (UniKvsError F) A
  as_thrown (ok a) = ok a
  as_thrown (thrown e) = thrown (failed e)

  abbrev pub from_result : Result F A → Result (UniKvsError F) A
  from_result (ok a) = ok a
  from_result (thrown e) = thrown (failed (other e))

module _ {S F A : Type 0} where
  abbrev pub pure : A → Method S F A
  pure a s = some (ok a, s)

  abbrev pub throw : UniKvsError F → Method S F A
  throw e s = some (thrown e, s)

  -- A call of a plugin, a lock or a schema.
  abbrev pub call : Exec S F A → Method S F A
  call m s = let (r, s') = m s in some (from_result r, s')

module _ {S F A B : Type 0} where
  abbrev pub after :
      (A → Method S F B) → Result (UniKvsError F) A × S → Option (Result (UniKvsError F) B × S)
  after f (ok a, s) = f a s
  after f (thrown e, s) = some (thrown e, s)

  abbrev pub awaited :
      (A → Method S F B)
      → Option (Result (UniKvsError F) A × S)
      → Option (Result (UniKvsError F) B × S)
  awaited f none = none
  awaited f (some r) = after f r

  infixl 10 ◌>>=◌ ◌>>◌
  abbrev pub ◌>>=◌ : Method S F A → (A → Method S F B) → Method S F B
  ◌>>=◌ m f s = awaited f (m s)

  abbrev pub ◌>>◌ : Method S F A → Method S F B → Method S F B
  ◌>>◌ m n s = awaited (λ _. n) (m s)

module _ {S F A : Type 0} where
  abbrev pub released :
      (S → S) → Option (Result (UniKvsError F) A × S) → Option (Result (UniKvsError F) A × S)
  released release none = none
  released release (some (r, s)) = some (r, release s)

  -- `using`: what was acquired is released however the rest of the block ends.
  abbrev pub using_lock : Exec S F (Unit {0}) → (S → S) → Method S F A → Method S F A
  using_lock lock release body = call lock >>= (λ _ s. released release (body s))

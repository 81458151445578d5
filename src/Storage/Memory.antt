-- ===== src/Storage/Memory.antt =====
-- packages/memory/src/memory.ts: a storage that is a `Map` in this process. It is always open and
-- reads no signal.
pub mod Calls
pub mod Promise
pub mod Chunks
pub mod Refinement
mod Tests
use unikvs.Prelude.{ℕ, Bool, String, string_equality, Option, none, some, List, [], ◌∷◌, ◌++◌}
use unikvs.Prelude.Exec.{Exec, pure, throw, gets, modify, ◌>>=◌, ◌>>◌}
use unikvs.JsMap.{JsMap, get, has, set, delete}
use unikvs.Storage.{Values, Context, StorageError, key_not_found, invalid_chunk_type, require, lift}
use unikvs.Storage.Bytes.{merge}

module _ (v : Values) where
  -- `#map`
  abbrev pub Memory : Type 0
  Memory = JsMap String v.Value

  abbrev pub Method : Type 0 → Type 0
  Method A = Exec Memory (StorageError v.Failure) A

  unfoldable pub write : Context → v.Value → Method (Unit {0})
  write c value = do cloned ← lift (v.clone value); modify (set c.key cloned)

  unfoldable pub read : Context → Method v.Value
  read c = do
    found ← gets (get c.key)
    elim found [
      | none ↦ throw (key_not_found c.key)
      | some value ↦ do cloned ← lift (v.clone value); pure cloned
    ]

  unfoldable pub exists : Context → Method Bool
  exists c = gets (has c.key)

  unfoldable pub delete_key : Context → Method (Unit {0})
  delete_key c = do
    present ← gets (has c.key)
    require present (key_not_found c.key)
    modify (delete c.key)

  unfoldable pub clear : Context → Method (Unit {0})
  clear c = modify (λ m. [])

  -- The handlers of `getWritable`: `write` on the chunks so far, and `close`.
  unfoldable pub write_chunk : Context → List (List ℕ) → v.Value → Method (List (List ℕ))
  write_chunk c chunks chunk = elim (v.as_bytes chunk) [
    | none ↦ throw (invalid_chunk_type c.key)
    | some bytes ↦ do cloned ← lift (v.clone_bytes bytes); pure (chunks ++ cloned ∷ [])
  ]

  unfoldable pub close_writable : Context → List (List ℕ) → Method (Unit {0})
  close_writable c chunks = modify (set c.key (v.of_bytes (merge chunks)))

  -- A writable stream that is fed and closed. A `write` that throws breaks the stream off.
  unfoldable pub write_all : Context → List (List ℕ) → List v.Value → Method (List (List ℕ))
  write_all c chunks [] = pure chunks
  write_all c chunks (chunk ∷ rest) = do
    chunks' ← write_chunk c chunks chunk
    write_all c chunks' rest

  unfoldable pub write_stream : Context → List v.Value → Method (Unit {0})
  write_stream c values = do chunks ← write_all c [] values; close_writable c chunks

  -- `getReadable`: the value that the stream holds.
  unfoldable pub get_readable : Context → Method v.Value
  get_readable c = do
    found ← gets (get c.key)
    elim found [ none ↦ throw (key_not_found c.key) | some value ↦ pure value ]

  -- The stream's `pull`.
  unfoldable pub pull : Context → v.Value → Method (List ℕ)
  pull c value = elim (v.as_bytes value) [
    | none ↦ throw (invalid_chunk_type c.key)
    | some bytes ↦ do cloned ← lift (v.clone_bytes bytes); pure cloned
  ]

  unfoldable pub read_stream : Context → Method (List ℕ)
  read_stream c = do value ← get_readable c; pull c value

-- ===== src/Storage/Memory/Promise.antt =====
-- What the memory storage promises, of a map that has no order: a function from keys.
use unikvs.Prelude.{
  ℕ, String, string_equality, Option, none, some, List, [], ◌∷◌, ◌++◌, ◌==◌, if◌then◌else◌,
}
use unikvs.Prelude.Exec.{Result, ok, thrown}
use unikvs.JsMap.Laws.{is_some}
use unikvs.Storage.{Values, StorageError, key_not_found, invalid_chunk_type, failed}
use unikvs.Storage.Memory.Calls.{
  Call, write_call, read_call, exists_call, delete_call, clear_call, read_stream_call,
  write_stream_call, done, value, present, bytes, Reply,
}

module _ (v : Values) where
  -- What the storage promises, of a map as a function.
  abbrev pub Entries : Type 0
  Entries = String → Option v.Value

  abbrev pub update : String → Option v.Value → Entries → Entries
  update k o f j = if k == j then o else f j

  abbrev pub failing : {A : Type 0} → v.Failure → Result (StorageError v.Failure) A
  failing e = thrown (failed e)

  abbrev pub cloned : Result v.Failure v.Value → Reply v
  cloned (ok x) = ok (value x)
  cloned (thrown e) = failing e

  abbrev pub prepend :
      List ℕ → Result (StorageError v.Failure) (List ℕ) → Result (StorageError v.Failure) (List ℕ)
  prepend b (ok r) = ok (b ++ r)
  prepend b (thrown e) = thrown e

  -- The bytes that some chunks make up, or what stops the first that is refused.
  abbrev pub joined : String → List v.Value → Result (StorageError v.Failure) (List ℕ)
  joined k [] = ok []
  joined k (x ∷ xs) =
      let rest = joined k xs in
      elim (v.as_bytes x) [
        | none ↦ thrown (invalid_chunk_type k)
        | some b ↦ elim (v.clone_bytes b) [
          | thrown e ↦ failing e
          | ok b' ↦ elim rest [ thrown e ↦ thrown e | ok r ↦ ok (b' ++ r) ]
        ]
      ]

  abbrev pub stream : String → Option (List ℕ) → Reply v
  stream k none = thrown (invalid_chunk_type k)
  stream k (some b) = elim (v.clone_bytes b) [ thrown e ↦ failing e | ok b' ↦ ok (bytes b') ]

  abbrev pub store : String → Result (StorageError v.Failure) (List ℕ) → Entries → Reply v × Entries
  store k (ok b) f = (ok done, update k (some (v.of_bytes b)) f)
  store k (thrown e) f = (thrown e, f)

  unfoldable pub promise : Call v → Entries → Reply v × Entries
  promise (write_call c x) f = elim (v.clone x) [
    | thrown e ↦ (failing e, f)
    | ok y ↦ (ok done, update c.key (some y) f)
  ]
  promise (read_call c) f = elim (f c.key) [
    | none ↦ (thrown (key_not_found c.key), f)
    | some x ↦ (cloned (v.clone x), f)
  ]
  promise (exists_call c) f = (ok (present (is_some (f c.key))), f)
  promise (delete_call c) f = elim (f c.key) [
    | none ↦ (thrown (key_not_found c.key), f)
    | some x ↦ (ok done, update c.key none f)
  ]
  promise (clear_call c) f = (ok done, λ k. none)
  promise (write_stream_call c xs) f = store c.key (joined c.key xs) f
  promise (read_stream_call c) f = elim (f c.key) [
    | none ↦ (thrown (key_not_found c.key), f)
    | some x ↦ (stream c.key (v.as_bytes x), f)
  ]

  -- What the plain map answers to a row of calls.
  unfoldable pub run_promise : List (Call v) → Entries → List (Reply v)
  run_promise [] f = []
  run_promise (call ∷ calls) f = (promise call f).0 ∷ run_promise calls (promise call f).1

-- ===== src/Storage/Memory/Calls.antt =====
-- Rows of calls of the memory storage, with what they answer.
use unikvs.Prelude.{ℕ, Bool, string_equality, List, [], ◌∷◌}
use unikvs.Prelude.Exec.{Result, ok, thrown}
use unikvs.Storage.{Values, Context, StorageError}
use unikvs.Storage.Memory.{
  Memory, write, read, exists, delete_key, clear, write_stream, read_stream,
}

module _ (v : Values) where
  pub data Call : Type 0 where
    write_call : Context → v.Value → Call
    read_call exists_call delete_call clear_call read_stream_call : Context → Call
    write_stream_call : Context → List v.Value → Call

  pub data Answer : Type 0 where
    done : Answer
    value : v.Value → Answer
    present : Bool → Answer
    bytes : List ℕ → Answer

  abbrev pub Reply : Type 0
  Reply = Result (StorageError v.Failure) Answer

  abbrev pub answer :
      {A S : Type 0} → (A → Answer) → Result (StorageError v.Failure) A × S → Reply × S
  answer f (ok a, s) = (ok (f a), s)
  answer f (thrown e, s) = (thrown e, s)

  -- A call of the storage.
  unfoldable pub step : Call → Memory v → Reply × Memory v
  step (write_call c x) m = answer (λ _. done) (write v c x m)
  step (read_call c) m = answer value (read v c m)
  step (exists_call c) m = answer present (exists v c m)
  step (delete_call c) m = answer (λ _. done) (delete_key v c m)
  step (clear_call c) m = answer (λ _. done) (clear v c m)
  step (write_stream_call c xs) m = answer (λ _. done) (write_stream v c xs m)
  step (read_stream_call c) m = answer bytes (read_stream v c m)

  -- A row of calls.
  unfoldable pub run : List Call → Memory v → List Reply
  run [] m = []
  run (call ∷ calls) m = (step call m).0 ∷ run calls (step call m).1

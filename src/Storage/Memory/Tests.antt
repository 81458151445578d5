-- ===== src/Storage/Memory/Tests.antt =====
-- The theorems about the memory storage at concrete calls.
use unikvs.Prelude.{ℕ, ◌≡◌, refl, some, none, List, [], ◌∷◌, Option, false, string_equality}
use unikvs.Prelude.Exec.{ok, thrown, Result}
use unikvs.JsMap.{get, set, has, delete}
use unikvs.Storage.{Values, Context, key_not_found, invalid_chunk_type, failed}
use unikvs.Storage.Bytes.{merge, fill, set_at, total_length}
use unikvs.Storage.Memory.{
  Memory, write, read, exists, delete_key, write_stream, write_all, write_chunk, close_writable,
  read_stream, get_readable, pull,
}
use unikvs.Storage.Memory.Calls.{
  Call, write_call, read_call, exists_call, delete_call, write_stream_call, read_stream_call, done,
  bytes, present, run, step,
}
use unikvs.Storage.Memory.Promise.{run_promise}
use unikvs.Storage.Memory.Refinement.{view, run-eq-run_promise}

data Value : Type 0 where
  number : ℕ → Value
  array : List ℕ → Value
  closure : Value

-- `structuredClone`, which refuses functions.
abbrev clone : Value → Result ℕ Value
clone (number n) = ok (number n)
clone (array b) = ok (array b)
clone closure = thrown 25

abbrev as_bytes : Value → Option (List ℕ)
as_bytes (number n) = none
as_bytes (array b) = some b
as_bytes closure = none

abbrev values : Values
values = record {
  Value = Value;
  Failure = ℕ;
  clone = clone;
  clone_bytes = λ b. ok b;
  as_bytes = as_bytes;
  of_bytes = array;
}

abbrev at_key : Context
at_key = record { key = "a"; aborted = false }

abbrev stored : Memory values
stored = ("b", number 4) ∷ []

abbrev calls : List (Call values)
calls =
    write_stream_call at_key (array (1 ∷ []) ∷ array (2 ∷ 3 ∷ []) ∷ [])
    ∷ read_stream_call at_key
    ∷ write_call at_key closure
    ∷ delete_call at_key
    ∷ exists_call at_key
    ∷ write_stream_call at_key (number 1 ∷ [])
    ∷ read_call at_key
    ∷ []

answers :
    run values calls stored
    ≡ ok done
      ∷ ok (bytes (1 ∷ 2 ∷ 3 ∷ []))
      ∷ thrown (failed 25)
      ∷ ok done
      ∷ ok (present false)
      ∷ thrown (invalid_chunk_type "a")
      ∷ thrown (key_not_found "a")
      ∷ []
unfolding run step write read exists delete_key write_stream write_all write_chunk close_writable
    read_stream get_readable pull get set has delete merge fill set_at total_length
answers = refl

run-eq-run_promise_example : run values calls stored ≡ run_promise values calls (view values stored)
run-eq-run_promise_example = run-eq-run_promise values calls stored

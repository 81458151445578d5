-- ===== src/Pipeline/Decode/Tests.antt =====
-- Middlewares that break the contract of `next()`, below one that swallows what it is told.
use unikvs.Prelude.{ℕ, ◌+◌, Bool, false, String, ◌≡◌, refl, [], ◌∷◌}
use unikvs.Prelude.Exec.{ok, thrown}
use unikvs.Pipeline.{Plugins}
use unikvs.Pipeline.Contract.{
  Script, finish, raise, assign, await_next, contract, other, next_called_multiple_times,
  run_middleware, play, next, first_next, settle, record_fault, set_destination, conclude,
  final_violation,
}
use unikvs.Pipeline.Decode.{Runtime, run, outcome}
use unikvs.Pipeline.Decode.Kept.{Kept}

-- The first swallows, the second calls `next()` twice, the third also ends by an error of its own; `fails`
-- only does that, and `adds` passes on what is below it.
data Handler : Type 0 where
  swallows twice twice_and_raises fails adds : Handler

abbrev handled : Plugins
handled = record {
  Middleware = Handler;
  Storage = String;
  middleware_name = λ m. "Handler";
  storage_name = λ s. s;
}

abbrev script : Handler → ℕ → Script Bool ℕ ℕ
script swallows x = assign x (λ a. await_next (λ b. finish))
script twice x = assign x (λ a. await_next (λ b. await_next (λ c. finish)))
script twice_and_raises x = assign x (λ a. await_next (λ b. await_next (λ c. raise (other 9))))
script fails x = raise (other 9)
script adds x = assign (x + 1) (λ a. await_next (λ b. finish))

abbrev handlers : Runtime handled
handlers = record {
  State = Bool;
  Value = ℕ;
  Failure = ℕ;
  aborted = λ s. s;
  reason = λ s. 0;
  encode = script;
  decode = script;
  map_key = λ m k s. (ok k, s);
}

-- A violation fails the operation although the handler above swallows it.
not_swallowed :
    run handlers (swallows ∷ twice ∷ []) 5 (false, tt)
    ≡ (thrown (contract next_called_multiple_times), (false, tt))
unfolding run run_middleware play next first_next settle record_fault set_destination conclude
    final_violation outcome
not_swallowed = refl

-- Not so when the handler that broke the contract ends by an error of its own.
lost : run handlers (swallows ∷ twice_and_raises ∷ []) 5 (false, tt) ≡ (ok 5, (false, tt))
unfolding run run_middleware play next first_next settle record_fault set_destination conclude
    final_violation outcome
lost = refl

-- ===== src/Core/Use/Tests.antt =====
-- Handlers of `use` that break the contract, below one that swallows what it is told.
use unikvs.Prelude.{ℕ, Bool, false, ◌≡◌, refl, List, [], ◌∷◌}
use unikvs.Prelude.Exec.{Result, thrown}
use unikvs.Pipeline.Contract.{other, next_called_multiple_times, final_violation, record_fault}
use unikvs.Core.Use.{UseFailure, UseScript, violated, await_next, finish, raise, use_middlewares}

abbrev swallows : UseScript Bool ℕ
swallows = await_next (λ a. finish)

abbrev fails : UseScript Bool ℕ
fails = raise (other 7)

abbrev twice_and_raises : UseScript Bool ℕ
twice_and_raises = await_next (λ a. await_next (λ b. raise (other 9)))

abbrev run : List (UseScript Bool ℕ) → Bool → Result (UseFailure ℕ) (Unit {0}) × Bool
run = use_middlewares (λ s. s) (λ s. 0)

-- A violation is not lost when the handler that broke the contract ends by an error of its own.
not_lost :
    run (swallows ∷ twice_and_raises ∷ []) false
    ≡ (thrown (violated next_called_multiple_times), false)
unfolding use_middlewares final_violation record_fault
not_lost = refl

-- ===== src/Core/Use/Kept.antt =====
-- What the middlewares' `use` have done when `#use` returns.
use unikvs.Prelude.{ℕ, suc, ◌≡◌, Bool, true, false, none, List, [], ◌∷◌, ◌⊎◌}
use unikvs.Prelude.Exec.{Result, ok, thrown}
use unikvs.Pipeline.Contract.{new_frame}
use unikvs.Core.Use.{UseFailure, stopped, UseScript, Ending, returned, UseFrame, play_use, dispatch}
use unikvs.Core.Use.Recorded.{first_call, OfCall}

module _ {S F : Type 0} (aborted : S → Bool) (reason : S → F) where
  -- The whole of the contract: the handler has returned after it called `next()` once, which settled in
  -- time.
  abbrev pub HasKept : Ending F × UseFrame F × S → Type 0
  HasKept (ending, f, s) =
      (ending ≡ returned)
      × (f.violation ≡ none)
      × (f.next_called ≡ true)
      × (f.next_settled ≡ true)
      × (f.called_multiple_times ≡ false)

  -- Where it did not return, it has at least recorded no violation.
  abbrev pub KeptFor : Result (UseFailure F) (Unit {0}) → Ending F × UseFrame F × S → Type 0
  KeptFor (ok u) played = HasKept played
  KeptFor (thrown e) played = played.1.violation ≡ none

  -- The run of the middlewares from an index on and from a state: the handler has kept the contract, and
  -- so has the run of the part below it from where the handler called it, or that ended by the signal.
  unfoldable pub IsKept : ℕ → List (UseScript S F) → S → Type 0
  unfolding dispatch first_call
  IsKept i [] s = Unit {0}
  IsKept i (script ∷ rest) s =
      let below = dispatch aborted reason (suc i) rest in
      KeptFor (dispatch aborted reason i (script ∷ rest) s).0
        (play_use aborted reason below script new_frame s)
      × OfCall (λ t. IsKept (suc i) rest t ⊎ ((e : F) × ((below t).0 ≡ thrown (stopped e))))
          (first_call aborted reason script s)

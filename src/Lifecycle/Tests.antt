-- ===== src/Lifecycle/Tests.antt =====
-- A plugin that counts its real calls, and the theorems at it.
use unikvs.Prelude.{ℕ, ◌+◌, refl, Bool, true, false, some, [], ◌∷◌, List, arith}
use unikvs.Prelude.Exec.{ok, thrown}
use unikvs.Lifecycle.{Plugin, Call, Event, opens, closes, retries, create, run}
use unikvs.Lifecycle.Ownership.{IsOwned, run-IsOwned}

record Counted : Type 0 where
  opened : Bool
  opens_made : ℕ
  closes_made : ℕ

-- A context tells whether the call throws.
abbrev counted : Plugin
counted = record { Context = Bool; Failure = Bool; State = Counted; is_open = λ s. s.opened }

abbrev open_counting : Call counted
open_counting c s = (ok tt, record s { opened = true; opens_made = s.opens_made + 1 })

abbrev close_counting : Call counted
close_counting true s = (ok tt, record s { opened = false; closes_made = s.closes_made + 1 })
close_counting false s = (thrown false, record s { closes_made = s.closes_made + 1 })

abbrev fresh : Counted
fresh = record { opened = false; opens_made = 0; closes_made = 0 }

abbrev once_opened : Counted
once_opened = record { opened = true; opens_made = 1; closes_made = 0 }

abbrev calls : List (Event counted)
calls = opens true ∷ retries true ∷ opens true ∷ closes true ∷ closes true ∷ []

run-IsOwned_example :
    IsOwned counted
      (run counted (some open_counting) (some close_counting) calls (create counted fresh))
unfolding create
run-IsOwned_example =
    run-IsOwned counted (some open_counting) (some close_counting) (λ c s h. refl) calls
      (create counted fresh)
      (record { open_while_held = λ h. ground arith; failed_alone = λ h. refl })

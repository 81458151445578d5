-- ===== src/Pipeline/Decode/Kept.antt =====
-- The contract over a whole path.
use unikvs.Prelude.{none, some, List, [], ◌∷◌, ◌≡◌}
use unikvs.Prelude.Exec.{ok, thrown}
use unikvs.Pipeline.{Plugins}
use unikvs.Pipeline.Contract.{Frame, other, run_middleware}
use unikvs.Pipeline.Decode.{Runtime, run}

module _ {p : Plugins} (w : Runtime p) where
  abbrev pub At : Type 0
  At = w.State × Unit {0}

  -- The frame that a middleware leaves, around those that are left and from a state.
  abbrev pub LeavesFrame :
      p.Middleware → List p.Middleware → w.Value → At → Frame w.Value w.Value → Type 0
  LeavesFrame m rest input s f =
      (run_middleware w.aborted w.reason (run w rest) (w.decode m input) s).0 ≡ ok f

  -- How a decoding that returns comes by its result. Each middleware runs on what the one above it has
  -- set as its destination and keeps the contract; it leaves what the part below it returned from its
  -- own destination, or that destination, where it swallowed a failure of the part below that was no
  -- contract error.
  pub data Kept : List p.Middleware → w.Value → At → w.Value → Type 0 where
    ended : {v : w.Value} {s : At} → Kept [] v s v
    through :
        {m : p.Middleware} {rest : List p.Middleware} {input d v : w.Value} {s : At}
        (f : Frame w.Value w.Value) (s₁ s₂ : At)
        → LeavesFrame m rest input s f
        → f.destination ≡ some d
        → f.result ≡ some v
        → run w rest d s₁ ≡ (ok v, s₂)
        → Kept rest d s₁ v
        → Kept (m ∷ rest) input s v
    swallowed :
        {m : p.Middleware} {rest : List p.Middleware} {input d : w.Value} {s : At}
        (f : Frame w.Value w.Value) (s₁ s₂ : At) (e : w.Failure)
        → LeavesFrame m rest input s f
        → f.destination ≡ some d
        → f.result ≡ none
        → run w rest d s₁ ≡ (thrown (other e), s₂)
        → Kept (m ∷ rest) input s d

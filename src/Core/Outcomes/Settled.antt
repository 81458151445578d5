-- ===== src/Core/Outcomes/Settled.antt =====
-- What the turns of one leaf make of its status, of the errors kept for it, and of what a storage shows
-- of it; the turns of other leaves make nothing of these.
use unikvs.Prelude.{
  ℕ, ◌≡◌, ◌≢◌, refl, Bool, true, nat_beq, nat_beq_iff, Option, none, some, List, [], ◌∷◌, ◌++◌, any,
  ◌⊎◌, arith, if◌then◌else◌,
}
use unikvs.JsMap.{JsMap}
use unikvs.Core.{PluginErrorRecord}
use unikvs.Core.Outcomes.{Status, TargetOutcome, set_status}

module _ {F : Type 0} where
  abbrev pub status_at : ℕ → JsMap ℕ (TargetOutcome F) → Option (Status F)
  status_at i [] = none
  status_at i ((j, o) ∷ m) = if nat_beq j i then some o.status else status_at i m

  -- The errors that are kept under an index.
  abbrev pub reasons : ℕ → List (PluginErrorRecord F) → List F
  reasons i [] = []
  reasons i (r ∷ rs) = if nat_beq r.index i then r.reason ∷ reasons i rs else reasons i rs

  pub set_status-here :
      (i : ℕ) (v w : Status F) (m : JsMap ℕ (TargetOutcome F))
      → status_at i m ≡ some w
      → status_at i (set_status i v m) ≡ some v
  unfolding set_status
  set_status-here i v w [] h = ground (arith, h)
  set_status-here i v w ((j, o) ∷ m) h = ground (arith, set_status-here i v w m)

  pub set_status-there :
      (i k : ℕ) (v : Status F) (m : JsMap ℕ (TargetOutcome F))
      → i ≢ k
      → status_at k (set_status i v m) ≡ status_at k m
  unfolding set_status
  set_status-there i k v [] h = refl
  set_status-there i k v ((j, o) ∷ m) h =
      ground (arith, set_status-there i k v m h, nat_beq_iff j i, nat_beq_iff j k)

  pub reasons-here :
      (r : PluginErrorRecord F) (rs : List (PluginErrorRecord F))
      → reasons r.index (rs ++ r ∷ []) ≡ reasons r.index rs ++ r.reason ∷ []
  reasons-here r [] = ground (arith, nat_beq_iff r.index r.index)
  reasons-here r (q ∷ rs) = ground (arith, reasons-here r rs)

  pub reasons-there :
      (k : ℕ) (r : PluginErrorRecord F) (rs : List (PluginErrorRecord F))
      → r.index ≢ k
      → reasons k (rs ++ r ∷ []) ≡ reasons k rs
  reasons-there k r [] h = ground (arith, nat_beq_iff r.index k)
  reasons-there k r (q ∷ rs) h = ground (arith, reasons-there k r rs h)

-- An index is in a list.
abbrev pub Contains : ℕ → List ℕ → Type 0
Contains i [] = ⊥
Contains i (j ∷ js) = (i ≡ j) ⊎ Contains i js

abbrev pub counted : ℕ → List ℕ → Bool
counted i = any (λ j. nat_beq j i)

pub counted-here : (i : ℕ) (js : List ℕ) → counted i (js ++ i ∷ []) ≡ true
counted-here i [] = ground (arith, nat_beq_iff i i)
counted-here i (j ∷ js) = ground (arith, counted-here i js)

pub counted-there : (i k : ℕ) (js : List ℕ) → i ≢ k → counted k (js ++ i ∷ []) ≡ counted k js
counted-there i k [] h = ground (arith, nat_beq_iff i k)
counted-there i k (j ∷ js) h = ground (arith, counted-there i k js h)

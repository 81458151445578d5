-- ===== src/Core/Remove/Emptied.antt =====
-- `clear`, from the connection to the storages.
use unikvs.Prelude.{
  ℕ, ◌≡◌, refl, sym, ap, ◌∙◌, String, Option, none, some, List, All, inl, inr, Equality, arith,
}
use unikvs.Prelude.Maybe.{◌>>=◌ as and_then}
use unikvs.Prelude.Exec.{ok}
use unikvs.Pipeline.{Plugins, Leaf, Destination}
use unikvs.Pipeline.Compile.{PipelineGraph, compile}
use unikvs.Pipeline.Decode.{Runtime}
use unikvs.Pipeline.Distinct.{compile-AreDistinct}
use unikvs.Core.{clears, clear_context}
use unikvs.Core.Backend.{Backend}
use unikvs.Core.Entry.{assert_open, with_instance, use_stage, throw_if_aborted}
use unikvs.Core.Entry.Returned.{then-returned, with_instance-returned, throw_if_aborted-returned}
use unikvs.Core.Laws.{AreStorages}
use unikvs.Core.Operation.{using_lock, ◌>>◌}
use unikvs.Core.Operation.Returned.{using_lock-returned}
use unikvs.Core.Outcomes.{Progress}
use unikvs.Core.Outcomes.Started.{All-map}
use unikvs.Core.Outcomes.Turns.{seen}
use unikvs.Core.Remove.{clear_all, clear_leaves, clear, finish}
use unikvs.Core.Remove.Cleared.{
  itself, under, IsCleared, clear_all-IsCleared, finish-lost, finish-KeepsAll,
}

module _ {p : Plugins} {w : Runtime p} (b : Backend w) ⦃e : Equality p.Middleware⦄
    (g : PipelineGraph p) (stored : Leaf p → String → w.State → Option w.Value)
    (laws : AreStorages b stored) (dests : List (Destination p)) (compiled : compile dests ≡ some g)
    (k : String) where
  abbrev IsEmptyAt : w.State → Leaf p → Type 0
  IsEmptyAt s l = stored l k s ≡ none

  cleared-IsEmptyAt :
      (s : Progress w.State w.Failure) (s' : w.State)
      → finish b g clears clear_context s ≡ some (ok tt, s')
      → (l : Leaf p) → IsCleared (seen itself (under stored k) l s)
      → IsEmptyAt s' l
  cleared-IsEmptyAt s s' h l (inl (status, errors, value)) =
      finish-KeepsAll b g stored laws clears clear_context s s' h l k ∙ value
  cleared-IsEmptyAt s s' h l (inr (x, status, errors)) =
      absurd (finish-lost b g clears clear_context s s' h l.index x errors)

  clear_leaves-IsEmptyAt :
      (schedule : List ℕ) (s s' : w.State)
      → clear_leaves b g schedule s ≡ some (ok tt, s')
      → All (IsEmptyAt s') g.leaves
  unfolding clear_leaves
  clear_leaves-IsEmptyAt schedule s s' h = go (clear_all b schedule g.leaves s) refl h
    where
      go :
          (o : Option (Progress w.State w.Failure))
          → clear_all b schedule g.leaves s ≡ o
          → and_then o (finish b g clears clear_context) ≡ some (ok tt, s')
          → All (IsEmptyAt s') g.leaves
      go none q r = absurd (ground (arith, r))
      go (some t) q r =
          All-map (λ l. IsCleared (seen itself (under stored k) l t)) (IsEmptyAt s')
            (cleared-IsEmptyAt t s' r) g.leaves
            (clear_all-IsCleared b k stored laws schedule g.leaves s t
              (compile-AreDistinct dests g compiled) q)

  -- When `clear` returns, no storage of the compiled destinations holds anything, under any key. It
  -- holds for storages with entries of their own and for any order of the calls' turns.
  pub clear-IsEmptyAt :
      (schedule : List ℕ) (s s' : w.State)
      → clear b g schedule s ≡ some (ok tt, s')
      → All (λ l. stored l k s' ≡ none) g.leaves
  unfolding clear
  clear-IsEmptyAt schedule s s' h =
      let last = throw_if_aborted b >> clear_leaves b g schedule in
      let block = use_stage b g clear_context >> last in
      let locked = using_lock (b.lock_keys none) (b.unlock_keys none) block in
      let (t₁, h₁) = then-returned b (assert_open b) (with_instance b locked) tt s s' h in
      let (t₂, t₃, h₂, freed) = with_instance-returned b locked tt t₁ s' h₁ in
      let (t₄, h₃, unlocked) =
        using_lock-returned (b.lock_keys none) (b.unlock_keys none) block tt t₂ t₃ h₂ in
      let (t₅, h₄) =
        then-returned b (use_stage b g clear_context) last tt (b.lock_keys none t₂).1 t₄ h₃ in
      let (running, h₅) = throw_if_aborted-returned b (clear_leaves b g schedule) tt t₅ t₄ h₄ in
      All-map (IsEmptyAt t₄) (IsEmptyAt s')
        (λ l q.
          ap (stored l k) (sym freed)
          ∙ laws.unlock_instance_keeps l k t₃
          ∙ ap (stored l k) (sym unlocked)
          ∙ laws.unlock_keys_keeps none l k t₄
          ∙ q)
        g.leaves (clear_leaves-IsEmptyAt schedule t₅ t₄ h₅)

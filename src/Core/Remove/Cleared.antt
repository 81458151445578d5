-- ===== src/Core/Remove/Cleared.antt =====
-- What `clear` leaves.
use unikvs.Prelude.{
  ℕ, ◌≡◌, refl, sym, ap, subst, ◌∙◌, false, String, Option, none, some, List, [], ◌∷◌, map, All,
  ◌⊎◌, inl, inr, Equality, arith,
}
use mathlib.Core.List.{map-id}
use unikvs.Prelude.Exec.{ok}
use unikvs.Prelude.Reorder.{AreDistinct}
use unikvs.Pipeline.{Plugins, Leaf}
use unikvs.Pipeline.Compile.{PipelineGraph}
use unikvs.Pipeline.Distinct.{leaf_index}
use unikvs.Pipeline.Decode.{Runtime}
use unikvs.Core.{PluginErrorRecord, Action, UseContext}
use unikvs.Core.AfterUse.{notify_after_use}
use unikvs.Core.AfterUse.Kept.{notify_after_use-KeepsAll}
use unikvs.Core.Backend.{Backend, signal_reason}
use unikvs.Core.Laws.{AreStorages}
use unikvs.Core.Outcomes.{
  Progress, committed, failed, skipped, start, create_use_outcome, aggregate_of,
}
use unikvs.Core.Outcomes.Settled.{Contains, reasons}
use unikvs.Core.Outcomes.Started.{label_indexes}
use unikvs.Core.Outcomes.Turns.{Seen, seen, LeafTriple, call_once-Triple, await_all-start}
use unikvs.Tasks.{await_all}
use unikvs.Core.Remove.{clear_task, clear_all, finish, ended}

module _ {p : Plugins} {w : Runtime p} (b : Backend w) ⦃e : Equality p.Middleware⦄
    (g : PipelineGraph p) where
  -- `delete` and `clear` return only when there is no error, and then the world is the one that the
  -- middlewares were told of.
  pub finish-returned :
      (action : Action) (c : UseContext) (s : Progress w.State w.Failure) (s' : w.State)
      → finish b g action c s ≡ some (ok tt, s')
      → (s.errors ≡ [])
        × (notify_after_use b g c
              (create_use_outcome
                (signal_reason w s.world)
                s.outcomes
                (aggregate_of action s.errors))
              s.world
            ≡ s')
  unfolding finish
  finish-returned action c s s' h = go s.errors h
    where
      go :
          (errors : List (PluginErrorRecord w.Failure))
          → ended b g (aggregate_of action errors) (
              notify_after_use b g c
                (create_use_outcome
                  (signal_reason w s.world)
                  s.outcomes
                  (aggregate_of action s.errors))
                s.world)
            ≡ some (ok tt, s')
          → (errors ≡ [])
            × (notify_after_use b g c
                  (create_use_outcome
                    (signal_reason w s.world)
                    s.outcomes
                    (aggregate_of action s.errors))
                  s.world
                ≡ s')
      go [] q = (refl, ground (arith, q))
      go (r ∷ rs) q = absurd (ground (arith, q))

  -- They do not return when a leaf has an error.
  pub finish-lost :
      (action : Action) (c : UseContext) (s : Progress w.State w.Failure) (s' : w.State)
      → finish b g action c s ≡ some (ok tt, s')
      → (i : ℕ) (x : w.Failure) → reasons i s.errors ≡ x ∷ []
      → ⊥
  finish-lost action c s s' h i x errors =
      let both : [] ≡ x ∷ [] = sym (ap (reasons i) (finish-returned action c s s' h).0) ∙ errors in
      ground (arith, both)

  pub finish-KeepsAll :
      (stored : Leaf p → String → w.State → Option w.Value) (laws : AreStorages b stored)
      (action : Action) (c : UseContext) (s : Progress w.State w.Failure) (s' : w.State)
      → finish b g action c s ≡ some (ok tt, s')
      → (l : Leaf p) (k : String) → stored l k s' ≡ stored l k s.world
  finish-KeepsAll stored laws action c s s' h l k =
      ap (stored l k) (sym (finish-returned action c s s' h).1)
      ∙ notify_after_use-KeepsAll b stored laws g c
          (create_use_outcome (signal_reason w s.world) s.outcomes (aggregate_of action s.errors)) l
          k s.world

abbrev pub itself : {p : Plugins} → Leaf p → Leaf p
itself l = l

module _ {F V : Type 0} where
  -- Committed without an error, and nothing is there; or failed with one error.
  abbrev pub IsCleared : Seen F (Option V) → Type 0
  IsCleared (status, errors, rejected, counted, value) =
      ((status ≡ some committed) × (errors ≡ []) × (value ≡ none))
      ⊎ ((e : F) × (status ≡ some (failed e)) × (errors ≡ e ∷ []))

abbrev pub under :
    {p : Plugins} {S V : Type 0} → (Leaf p → String → S → Option V) → String → Leaf p → S → Option V
under stored k l = stored l k

module _ {p : Plugins} {w : Runtime p} (b : Backend w) (k : String)
    (stored : Leaf p → String → w.State → Option w.Value) (laws : AreStorages b stored) where
  clear_task-Triple :
      (indexes : List ℕ) (l : Leaf p) (x : Option w.Value)
      → Contains l.index indexes
      → LeafTriple itself
          (under stored k)
          indexes
          l
          IsCleared
          (clear_task b l)
          (some skipped, [], [], false, x)
  unfolding clear_task
  clear_task-Triple indexes l x own =
      call_once-Triple itself (under stored k) indexes l IsCleared (b.clear l) skipped false x own
        (λ s here done. inl (refl, refl, laws.clear_removes l k s done))
        (λ s e lost. inr (e, refl, refl)) (λ s other apart. laws.clear_others l other k s apart)

  -- However the calls of `clear` are interleaved, when all have ended each leaf is committed without an
  -- error, and its storage holds nothing, or it has failed with exactly one error.
  pub clear_all-IsCleared :
      (schedule : List ℕ) (leaves : List (Leaf p)) (s : w.State) (s' : Progress w.State w.Failure)
      → AreDistinct leaf_index leaves
      → clear_all b schedule leaves s ≡ some s'
      → All (λ l. IsCleared (seen itself (under stored k) l s')) leaves
  unfolding clear_all
  clear_all-IsCleared schedule leaves s s' apart h =
      (await_all-start itself (under stored k) (label_indexes itself leaves) (λ l. IsCleared)
        (clear_task b) leaves schedule s s' refl apart
        (λ l own. clear_task-Triple (label_indexes itself leaves) l (under stored k l s) own)
        (subst (λ ls. await_all schedule (map (clear_task b) leaves) (start ls s) ≡ some s')
          (sym (map-id leaves)) h)).0

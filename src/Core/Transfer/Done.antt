-- ===== src/Core/Transfer/Done.antt =====
-- What `copy` and `move` have found when they return.
use unikvs.Prelude.{
  ℕ, ◌≡◌, ◌≢◌, refl, sym, ap, ◌∙◌, Bool, true, false, Bool-cases, Option-cases, String, Option,
  none, some, List, [], ◌∷◌, map, All, ◌⊎◌, inl, inr, Equality, arith,
}
use unikvs.Prelude.Exec.{ok, thrown}
use unikvs.Pipeline.{Plugins, Leaf}
use unikvs.Pipeline.Compile.{PipelineGraph}
use unikvs.Pipeline.Decode.{Runtime}
use unikvs.Pipeline.Distinct.{leaf_index}
use unikvs.Core.{Action, UniKvsError, PluginErrorRecord, UseContext}
use unikvs.Core.AfterUse.{notify_each, notify_after_use, outcome_for}
use unikvs.Core.AfterUse.Kept.{notify_after_use-KeepsAll}
use unikvs.Core.Backend.{Backend, signal_reason}
use unikvs.Core.Laws.{AreStorages}
use unikvs.JsMap.Laws.{is_some}
use unikvs.Core.Entry.Returned.{throw_if_aborted-returned, throw_if_aborted-passed}
use unikvs.Core.Outcomes.{Progress, UseOutcome, create_use_outcome, committed, not_found}
use unikvs.Core.Outcomes.Settled.{reasons, Contains, status_at, counted}
use unikvs.Core.Outcomes.Started.{IsIn}
use unikvs.Core.Remove.Called.{Called}
use unikvs.Core.Transfer.Settled.{IsTransferred, both_held}
use unikvs.Core.Transfer.{
  Transfer, Keys, Prepared, reason_of, abort_failure, failure_of, failure, told, conclude_transfer,
  finish_transfer, action_of, context_of, is_empty,
}

-- The leaf of an index.
pub pick :
    {p : Plugins} (P : Leaf p → Type 0) (i : ℕ) (ls : List (Leaf p))
    → Contains i (map leaf_index ls)
    → All P ls
    → (l : Leaf p) × IsIn l ls × (i ≡ l.index) × P l
pick P i [] there h = absurd there
pick P i (l ∷ ls) (inl same) h = (l, inl refl, same, h.0)
pick P i (l ∷ ls) (inr later) h =
    let (m, there, same, q) = pick P i ls later h.1 in (m, inr there, same, q)

module _ {p : Plugins} {w : Runtime p} (b : Backend w) where
  -- No handler was rejected: no reason stands under the index of a leaf that was prepared.
  reason_of-none :
      (i : ℕ) (rejected : List (PluginErrorRecord w.Failure))
      → reason_of b i rejected ≡ none
      → reasons i rejected ≡ []
  reason_of-none i [] h = refl
  reason_of-none i (r ∷ rs) h = ground (arith, h, reason_of-none i rs)

  pub abort_failure-none :
      (prepared : Prepared b) (rejected : List (PluginErrorRecord w.Failure)) (l : Leaf p)
      (k : Keys)
      → abort_failure b prepared rejected ≡ none
      → IsIn (l, k) prepared
      → reasons l.index rejected ≡ []
  abort_failure-none [] rejected l k h there = absurd there
  abort_failure-none (q ∷ rest) rejected l k h there =
      elim (Option-cases (reason_of b q.0.index rejected)) [
        | inr (x, e) ↦ absurd (ground (arith, h, e))
        | inl e ↦ elim there [
          | inl same ↦
              reason_of-none l.index rejected (ap (λ z. reason_of b z.0.index rejected) same ∙ e)
          | inr later ↦ abort_failure-none rest rejected l k (ground (arith, h, e)) later
        ]
      ]

  pub failure_of-none :
      (unprepared : Bool) (action : Action) (key : String) (found : List ℕ)
      (errors : List (PluginErrorRecord w.Failure))
      → failure_of b unprepared action key found errors ≡ none
      → (found ≢ []) × (errors ≡ [])
  unfolding failure_of
  failure_of-none unprepared action key [] errors h = absurd (ground (arith, h))
  failure_of-none unprepared action key (i ∷ found) [] h = (λ q. ground (arith, q), refl)
  failure_of-none unprepared action key (i ∷ found) (r ∷ rs) h = absurd (ground (arith, h))

  pub conclude_transfer-ok :
      (stopped : Option w.Failure) (x : Option (UniKvsError w.Failure)) (s s' : w.State)
      → conclude_transfer b stopped x s ≡ some (ok tt, s')
      → (stopped ≡ none) × (x ≡ none) × (w.aborted s ≡ false) × (s ≡ s')
  unfolding conclude_transfer
  conclude_transfer-ok (some f) x s s' h = absurd (ground (arith, h))
  conclude_transfer-ok none (some f) s s' h =
      let last = (throw_if_aborted-returned b (λ t. some (thrown f, t)) tt s s' h).1 in
      absurd (ground (arith, last))
  conclude_transfer-ok none none s s' h =
      let (running, same) = throw_if_aborted-passed b s s' h in (refl, refl, running, same)

  no_error :
      (s : Progress w.State w.Failure)
      → s.errors ≡ []
      → (i : ℕ) (x : w.Failure) → reasons i s.errors ≡ x ∷ []
      → ⊥
  no_error s empty i x errors =
      let both : [] ≡ x ∷ [] = sym (ap (reasons i) empty) ∙ errors in ground (arith, both)

  module _ (stored : Leaf p → String → w.State → Option w.Value)
      (before : Leaf p × Keys → Option w.Value) (prepared : Prepared b)
      (s : Progress w.State w.Failure) (empty : s.errors ≡ [])
      (not_rejected : abort_failure b prepared s.rejected ≡ none) where
    abbrev pub CalledWith : Leaf p → Type 0
    CalledWith = Called (both_held stored) (λ q. IsTransferred (before q)) ("", "") prepared s

    -- With the keys of the leaf, its value was there and has been transferred, or was not there.
    abbrev pub CarriedWith : Leaf p → Keys → Type 0
    CarriedWith l (from, to) =
        ((status_at l.index s.outcomes ≡ some committed)
          × (counted l.index s.found ≡ true)
          × (stored l to s.world ≡ before (l, (from, to)))
          × (true ≡ is_some (before (l, (from, to)))))
        ⊎ ((status_at l.index s.outcomes ≡ some not_found)
            × (counted l.index s.found ≡ false)
            × (false ≡ is_some (before (l, (from, to)))))

    pub Called-CarriedWith :
        (l : Leaf p) → CalledWith l → (k : Keys) × IsIn (l, k) prepared × CarriedWith l k
    Called-CarriedWith l (inl (k, there, inl (status, errors, rejected, there_too, value, was))) =
        (k, there, inl (status, there_too, value, was))
    Called-CarriedWith l (inl (k, there, inr (inl (status, errors, rejected, uncounted, was)))) =
        (k, there, inr (status, uncounted, was))
    Called-CarriedWith l (inl (k, there, inr (inr (x, status, inl (errors, rejected))))) =
        absurd (no_error s empty l.index x errors)
    Called-CarriedWith l (inl (k, there, inr (inr (x, status, inr (errors, rejected))))) =
        let both : [] ≡ x ∷ [] =
          sym (abort_failure-none prepared s.rejected l k not_rejected there) ∙ rejected in
        absurd (ground (arith, both))
    Called-CarriedWith l (inr (x, status, errors, rejected, uncounted)) =
        absurd (no_error s empty l.index x errors)

  module _
      (stays : (s : w.State) (m : p.Middleware) (c : UseContext)
          (o : UseOutcome (UniKvsError w.Failure) w.Failure)
        → w.aborted s ≡ true
        → w.aborted (b.after_use m c o s).1 ≡ true)
      ⦃e : Equality p.Middleware⦄ (g : PipelineGraph p) where
    notify_each-aborted :
        (ms : List p.Middleware) (c : UseContext) (o : UseOutcome (UniKvsError w.Failure) w.Failure)
        (s : w.State)
        → w.aborted s ≡ true
        → w.aborted (notify_each b g ms c o s) ≡ true
    unfolding notify_each
    notify_each-aborted [] c o s h = h
    notify_each-aborted (m ∷ ms) c o s h =
        notify_each-aborted ms c o (b.after_use m c (outcome_for b g m o) s).1
          (stays s m c (outcome_for b g m o) h)

    -- `copy` and `move` return only without an error, with a leaf found and no handler rejected.
    pub finish_transfer-ok :
        (kind : Transfer) (key destination : String) (prepared : Prepared b)
        (s : Progress w.State w.Failure) (s' : w.State)
        → finish_transfer b g kind key destination prepared s ≡ some (ok tt, s')
        → (s.errors ≡ []) × (s.found ≢ []) × (abort_failure b prepared s.rejected ≡ none)
    unfolding finish_transfer notify_after_use
    finish_transfer-ok kind key destination prepared s s' h =
        let stopped = abort_failure b prepared s.rejected in
        let x = failure b kind key prepared s in
        let c = context_of kind key destination in
        let o =
          create_use_outcome (signal_reason w s.world) s.outcomes
            (told b (w.aborted s.world) (w.reason s.world) stopped x) in
        let (not_stopped, no_failure, running, same) =
          conclude_transfer-ok stopped x (notify_each b g g.middlewares c o s.world) s' h in
        elim (Bool-cases (w.aborted s.world)) [
          | inl aborted ↦
              let both = sym (notify_each-aborted g.middlewares c o s.world aborted) ∙ running in
              absurd (ground (arith, both))
          | inr going ↦
              let none_left : failure_of b (is_empty b prepared) (action_of kind) key s.found
                    s.errors
                  ≡ none =
                ground (arith, no_failure, going) in
              let (found, empty) =
                failure_of-none (is_empty b prepared) (action_of kind) key s.found s.errors
                  none_left in
              (empty, found, not_stopped)
        ]

    -- What follows the handlers leaves the storages as they are.
    pub finish_transfer-KeepsAll :
        (stored : Leaf p → String → w.State → Option w.Value) (laws : AreStorages b stored)
        (kind : Transfer) (key destination : String) (prepared : Prepared b)
        (s : Progress w.State w.Failure) (s' : w.State)
        → finish_transfer b g kind key destination prepared s ≡ some (ok tt, s')
        → (l : Leaf p) (k : String) → stored l k s' ≡ stored l k s.world
    unfolding finish_transfer
    finish_transfer-KeepsAll stored laws kind key destination prepared s s' h l k =
        let stopped = abort_failure b prepared s.rejected in
        let x = failure b kind key prepared s in
        let c = context_of kind key destination in
        let o =
          create_use_outcome (signal_reason w s.world) s.outcomes
            (told b (w.aborted s.world) (w.reason s.world) stopped x) in
        ap (stored l k)
          (sym (conclude_transfer-ok stopped x (notify_after_use b g c o s.world) s' h).3)
        ∙ notify_after_use-KeepsAll b stored laws g c o l k s.world

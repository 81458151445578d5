-- ===== src/Core/Write/Done.antt =====
-- What `set` leaves when it returns.
use unikvs.Prelude.{
  ℕ, ◌≡◌, refl, sym, ap, subst, ◌∙◌, String, Option, none, some, List, [], ◌∷◌, map, All, inl, inr,
  arith, Equality,
}
use unikvs.Prelude.Maybe.{◌>>=◌ as and_then}
use unikvs.Prelude.Exec.{Result, ok, thrown}
use unikvs.Prelude.Reorder.{AreDistinct}
use unikvs.Pipeline.{Plugins, Leaf}
use unikvs.Pipeline.Compile.{PipelineGraph}
use unikvs.Pipeline.Decode.{Runtime}
use unikvs.Pipeline.Encode.{EncodeTarget}
use unikvs.Core.{PluginErrorRecord, UniKvsError, set_context, writes, aggregate}
use unikvs.Core.Backend.{Backend, signal_reason}
use unikvs.Core.Laws.{AreStorages}
use unikvs.Core.Outcomes.{Progress, create_use_outcome, aggregate_of, start}
use unikvs.Core.Outcomes.Settled.{reasons}
use unikvs.Core.Outcomes.Started.{All-map}
use unikvs.Core.Outcomes.Turns.{seen, label_index}
use unikvs.Core.AfterUse.{notify_after_use}
use unikvs.Core.AfterUse.Kept.{notify_after_use-KeepsAll}
use unikvs.Core.Write.{write_targets, notice_task, finish_writes, finish_set, set_targets}
use unikvs.Core.Write.Settled.{leaf_at, shown, IsWritten, write_targets-IsWritten}
use unikvs.Tasks.{await_all}

module _ {p : Plugins} {w : Runtime p} (b : Backend w) where
  abbrev pub ended_by :
      UniKvsError w.Failure
      → Progress w.State w.Failure
      → Option (Result (UniKvsError w.Failure) (Unit {0}) × w.State)
  ended_by x s = some (thrown x, s.world)

  thrown_only :
      (x : UniKvsError w.Failure) (o : Option (Progress w.State w.Failure)) (s : w.State)
      → and_then o (λ s'. ended_by x s') ≡ some (ok tt, s)
      → ⊥
  thrown_only x none s h = ground (arith, h)
  thrown_only x (some s') s h = ground (arith, h)

  -- `#finishWrites` returns only when there is no error.
  finish_writes-ok :
      (notices : List ℕ) (targets : List (EncodeTarget w))
      (errors : List (PluginErrorRecord w.Failure)) (s s' : w.State)
      → finish_writes b notices targets errors s ≡ some (ok tt, s')
      → (errors ≡ []) × (s ≡ s')
  unfolding finish_writes
  finish_writes-ok notices targets [] s s' h = (refl, ground (arith, h))
  finish_writes-ok notices targets (r ∷ rs) s s' h = absurd (
      thrown_only (aggregate writes (r ∷ rs))
        (await_all notices (map (notice_task b (r ∷ rs)) targets) (start {p = p} [] s)) s' h)

  module _ (stored : Leaf p → String → w.State → Option w.Value) (laws : AreStorages b stored)
      ⦃e : Equality p.Middleware⦄ (g : PipelineGraph p) where
    abbrev pub Holds : w.State → EncodeTarget w → Type 0
    Holds s t = stored t.leaf t.key s ≡ some t.encoded

    -- Without an error, what was written stays when the middlewares are told.
    written-Holds :
        (key : String) (s : Progress w.State w.Failure)
        → s.errors ≡ []
        → (t : EncodeTarget w) → IsWritten t (seen leaf_at (shown stored) t s)
        → Holds
            (notify_after_use b g
              (set_context key)
              (create_use_outcome
                (signal_reason w s.world)
                s.outcomes
                (aggregate_of writes s.errors))
              s.world)
            t
    written-Holds key s empty t (inl (status, errors, value)) =
        notify_after_use-KeepsAll b stored laws g (set_context key)
          (create_use_outcome (signal_reason w s.world) s.outcomes (aggregate_of writes s.errors))
          t.leaf t.key s.world
        ∙ value
    written-Holds key s empty t (inr (x, status, errors)) =
        let both : [] ≡ x ∷ [] = sym (ap (reasons t.leaf.index) empty) ∙ errors in
        absurd (ground (arith, both))

    finish_set-Holds :
        (schedule notices : List ℕ) (key : String) (targets : List (EncodeTarget w))
        (s s'' : w.State) (o : Option (Progress w.State w.Failure))
        → AreDistinct (label_index leaf_at) targets
        → write_targets b schedule targets s ≡ o
        → and_then o (finish_set b g notices key targets) ≡ some (ok tt, s'')
        → All (Holds s'') targets
    unfolding finish_set
    finish_set-Holds schedule notices key targets s s'' none apart q h = ground (arith, h)
    finish_set-Holds schedule notices key targets s s'' (some s') apart q h =
        let (empty, same) =
          finish_writes-ok notices targets s'.errors
            (notify_after_use b g (set_context key)
              (create_use_outcome (signal_reason w s'.world) s'.outcomes
                (aggregate_of writes s'.errors))
              s'.world)
            s'' h in
        let written = write_targets-IsWritten b stored laws schedule targets s s' apart q in
        subst (λ x. All (Holds x) targets) same
          (All-map (λ t. IsWritten t (seen leaf_at (shown stored) t s')) (Holds _)
            (written-Holds key s' empty) targets written.0)

    -- Once `#setPlain` has returned from its writes, every storage holds what was encoded for it.
    pub set_targets-Holds :
        (schedule notices : List ℕ) (key : String) (targets : List (EncodeTarget w))
        (s s' : w.State)
        → AreDistinct (label_index leaf_at) targets
        → set_targets b g schedule notices key targets s ≡ some (ok tt, s')
        → All (Holds s') targets
    unfolding set_targets
    set_targets-Holds schedule notices key targets s s' apart h =
        finish_set-Holds schedule notices key targets s s' (write_targets b schedule targets s)
          apart refl h

-- ===== src/Core/Write/Ends.antt =====
-- `set` can always end, and what it throws when a storage has failed.
use unikvs.Prelude.{
  ℕ, ◌≡◌, ◌≢◌, refl, String, Option, none, some, List, [], ◌∷◌, ◌++◌, map, All, Equality, arith,
}
use unikvs.Prelude.Maybe.{◌>>=◌ as and_then}
use unikvs.Prelude.Exec.{Result, ok, thrown}
use unikvs.Prelude.Reorder.{AreDistinct}
use unikvs.Pipeline.{Plugins, Leaf}
use unikvs.Pipeline.Compile.{PipelineGraph}
use unikvs.Pipeline.Decode.{Runtime}
use unikvs.Pipeline.Encode.{EncodeTarget}
use unikvs.Core.{PluginErrorRecord, UniKvsError, aggregate, writes, set_context}
use unikvs.Core.Backend.{Backend, signal_reason}
use unikvs.Core.Laws.{AreStorages}
use unikvs.Core.Outcomes.{Progress, start, create_use_outcome, aggregate_of}
use unikvs.Core.Outcomes.Started.{label_indexes}
use unikvs.Core.Outcomes.Turns.{seen, label_index, AreKnown}
use unikvs.Core.AfterUse.{notify_after_use}
use unikvs.Core.Write.{
  write_task, write_targets, notice_task, finish_writes, finish_set, set_targets, leaves_of,
}
use unikvs.Core.Write.Done.{ended_by}
use unikvs.Core.Write.Settled.{leaf_at, shown, IsWritten, write_targets-IsWritten}
use unikvs.Tasks.{await_all}
use unikvs.Tasks.Liveness.{await_all_extends}

-- The result that is due: a return where no error was kept, else the errors are thrown.
abbrev pub due : {F : Type 0} → List (PluginErrorRecord F) → Result (UniKvsError F) (Unit {0})
due [] = ok tt
due (r ∷ rs) = thrown (aggregate writes (r ∷ rs))

module _ {p : Plugins} {w : Runtime p} (b : Backend w) ⦃e : Equality p.Middleware⦄
    (g : PipelineGraph p) where
  thrown_by :
      (y x : UniKvsError w.Failure) (o : Option (Progress w.State w.Failure)) (s : w.State)
      → and_then o (λ t. ended_by b y t) ≡ some (thrown x, s)
      → x ≡ y
  thrown_by y x none s h = absurd (ground (arith, h))
  thrown_by y x (some t) s h = ground (arith, h)

  finish_writes-thrown :
      (notices : List ℕ) (targets : List (EncodeTarget w))
      (errors : List (PluginErrorRecord w.Failure)) (s s' : w.State) (x : UniKvsError w.Failure)
      → finish_writes b notices targets errors s ≡ some (thrown x, s')
      → (errors ≢ []) × (x ≡ aggregate writes errors)
  unfolding finish_writes
  finish_writes-thrown notices targets [] s s' x h = absurd (ground (arith, h))
  finish_writes-thrown notices targets (r ∷ rs) s s' x h = (
    λ q. ground (arith, q),
    thrown_by (aggregate writes (r ∷ rs)) x
        (await_all notices (map (notice_task b (r ∷ rs)) targets) (start {p = p} [] s)) s' h,
  )

  module _ (stored : Leaf p → String → w.State → Option w.Value) (laws : AreStorages b stored)
      (schedule notices : List ℕ) (key : String) (targets : List (EncodeTarget w)) (s s' : w.State)
      (x : UniKvsError w.Failure) (apart : AreDistinct (label_index leaf_at) targets) where
    -- The writes have ended with errors, which are what is thrown.
    abbrev pub FailsWith : Progress w.State w.Failure → Type 0
    FailsWith books =
        (write_targets b schedule targets s ≡ some books)
        × (x ≡ aggregate writes books.errors)
        × (books.errors ≢ [])
        × AreKnown (label_indexes leaf_at targets) books
        × All (λ t. IsWritten t (seen leaf_at (shown stored) t books)) targets

    finish_set-thrown :
        (o : Option (Progress w.State w.Failure))
        → write_targets b schedule targets s ≡ o
        → and_then o (finish_set b g notices key targets) ≡ some (thrown x, s')
        → (books : Progress w.State w.Failure) × FailsWith books
    unfolding finish_set
    finish_set-thrown none q h = absurd (ground (arith, h))
    finish_set-thrown (some books) q h =
        let (lost, same) =
          finish_writes-thrown notices targets books.errors
            (notify_after_use b g (set_context key)
              (create_use_outcome (signal_reason w books.world) books.outcomes
                (aggregate_of writes books.errors))
              books.world)
            s' x h in
        let (written, known) =
          write_targets-IsWritten b stored laws schedule targets s books apart q in
        (books, (q, same, lost, known, written))

    -- When `#setPlain` throws from its writes, it throws the collected errors, which are not none: each is
    -- that of a target, and each target has exactly the error with which it failed, or none and its
    -- storage held the value when the writes were over.
    pub set_targets-thrown :
        set_targets b g schedule notices key targets s ≡ some (thrown x, s')
        → (books : Progress w.State w.Failure) × FailsWith books
    unfolding set_targets
    set_targets-thrown h = finish_set-thrown (write_targets b schedule targets s) refl h

  module _ (stored : Leaf p → String → w.State → Option w.Value) (laws : AreStorages b stored)
      (targets : List (EncodeTarget w)) (apart : AreDistinct (label_index leaf_at) targets) where
    finish_writes-due :
        (errors : List (PluginErrorRecord w.Failure)) (s : w.State)
        → (notices : List ℕ) × (s' : w.State) × (finish_writes b notices targets errors s
            ≡ some (due errors, s'))
    unfolding finish_writes
    finish_writes-due [] s = ([], s, refl)
    finish_writes-due (r ∷ rs) s =
        let (notices, s', done) =
          await_all_extends [] (map (notice_task b (r ∷ rs)) targets) (start {p = p} [] s) in
        (notices, s'.world, rw done refl)

    -- Whatever turns the writes have already taken, they and the notices can go on so that `#setPlain`
    -- ends; then every target is written, its storage holding the value and no error kept for it, or has
    -- failed with exactly one error; and it returns if no error was kept, else throws the errors that
    -- were. It holds for storages with entries of their own and targets with distinct leaves.
    pub set_targets_ends :
        (taken : List ℕ) (key : String) (s : w.State)
        → (further notices : List ℕ) × (books : Progress w.State w.Failure) × (s' : w.State)
          × (write_targets b (taken ++ further) targets s ≡ some books)
          × (set_targets b g (taken ++ further) notices key targets s ≡ some (due books.errors, s'))
          × All (λ t. IsWritten t (seen leaf_at (shown stored) t books)) targets
    unfolding set_targets write_targets finish_set
    set_targets_ends taken key s =
        let (further, books, done) =
          await_all_extends taken (map (write_task b) targets) (start (leaves_of b targets) s) in
        let (notices, s', ended) = finish_writes-due books.errors (
          notify_after_use b g (set_context key)
            (create_use_outcome (signal_reason w books.world) books.outcomes
              (aggregate_of writes books.errors))
            books.world) in
        let (written, known) =
          write_targets-IsWritten b stored laws (taken ++ further) targets s books apart done in
        (further, notices, books, s', done, rw done ended, written)

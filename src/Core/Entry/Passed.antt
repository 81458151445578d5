-- ===== src/Core/Entry/Passed.antt =====
-- An open client, with middlewares whose `use` only passes on, comes to the operation itself.
use unikvs.Prelude.{
  ℕ, suc, ◌≡◌, refl, ap, ◌∙◌, true, false, String, Option, none, some, List, [], ◌∷◌, map,
}
use unikvs.Prelude.Exec.{ok}
use unikvs.Pipeline.{Plugins, Leaf}
use unikvs.Pipeline.Compile.{PipelineGraph}
use unikvs.Pipeline.Contract.{final_violation, new_frame}
use unikvs.Pipeline.Decode.{Runtime}
use unikvs.Core.{UseContext}
use unikvs.Core.Backend.{Backend}
use unikvs.Core.Entry.{assert_open, throw_if_aborted, checked, with_instance, use_stage, used}
use unikvs.Core.Laws.{IsServing, pass_through}
use unikvs.Core.Operation.{Method, released, ◌>>◌}
use unikvs.Core.Use.{
  UseScript, UseBelow, finish, rethrow, conclude_use, play_use, next_use, settle_use, dispatch,
  use_middlewares,
}

module _ {p : Plugins} {w : Runtime p} (b : Backend w) where
  passed_result :
      (i : ℕ) (below : UseBelow w.State w.Failure) (s : w.State)
      → below s ≡ (ok tt, s)
      → w.aborted s ≡ false
      → conclude_use w.aborted w.reason i
          (play_use w.aborted w.reason below pass_through new_frame s)
        ≡ (ok tt, s)
  unfolding play_use next_use settle_use conclude_use final_violation
  passed_result i below s ran running =
      ap
        (λ r. conclude_use w.aborted w.reason i (
          let (a, f, t) = settle_use true r (record new_frame { next_called = true }) in
          play_use w.aborted w.reason below (elim a [ none ↦ finish | some e ↦ rethrow ]) f t))
        ran
      ∙ rw running refl

  dispatch-passed :
      (i : ℕ) (scripts : p.Middleware → UseScript w.State w.Failure) (ms : List p.Middleware)
      (s : w.State)
      → ((m : p.Middleware) → scripts m ≡ pass_through)
      → w.aborted s ≡ false
      → dispatch w.aborted w.reason i (map scripts ms) s ≡ (ok tt, s)
  unfolding dispatch
  dispatch-passed i scripts [] s passes running = refl
  dispatch-passed i scripts (m ∷ ms) s passes running =
      let below = dispatch w.aborted w.reason (suc i) (map scripts ms) in
      ap (λ x. conclude_use w.aborted w.reason i (play_use w.aborted w.reason below x new_frame s))
        (passes m)
      ∙ passed_result i below s (dispatch-passed (suc i) scripts ms s passes running) running

  module _ (stored : Leaf p → String → w.State → Option w.Value) (serving : IsServing b stored)
      (g : PipelineGraph p) (c : UseContext) where
    use_stage-passed : (s : w.State) → w.aborted s ≡ false → use_stage b g c s ≡ some (ok tt, s)
    unfolding use_stage use_middlewares
    use_stage-passed s running = rw running (
        ap (used b)
          (dispatch-passed 0 (b.use_script c) g.middlewares s (serving.use_passes c) running))

    -- What an operation does between the lock of the instance and its release.
    pub with_instance-passed :
        {A : Type 0} (body : Method w.State w.Failure A) (s : w.State)
        → b.is_open s ≡ true
        → w.aborted s ≡ false
        → with_instance b (use_stage b g c >> (throw_if_aborted b >> body)) s
          ≡ released b.unlock_instance (body (b.lock_instance s).1)
    unfolding with_instance assert_open throw_if_aborted
    with_instance-passed body s here running =
        let t = (b.lock_instance s).1 in
        let running' : w.aborted t ≡ false = serving.lock_instance_signal s ∙ running in
        let here' : b.is_open t ≡ true = serving.lock_instance_connection s ∙ here in
        rw (serving.lock_instance_opens s, here', use_stage-passed t running', running') refl

    -- From the look at the connection and the check of the key on.
    pub entry-passed :
        {A : Type 0} (key : String) (body : Method w.State w.Failure A) (s : w.State)
        → b.is_open s ≡ true
        → w.aborted s ≡ false
        → b.check_key key ≡ ok tt
        → (assert_open b
              >> (checked b (b.check_key key)
                  >> with_instance b (use_stage b g c >> (throw_if_aborted b >> body))))
            s
          ≡ released b.unlock_instance (body (b.lock_instance s).1)
    unfolding assert_open
    entry-passed key body s here running valid =
        rw (here, valid) (with_instance-passed body s here running)

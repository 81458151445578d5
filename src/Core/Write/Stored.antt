-- ===== src/Core/Write/Stored.antt =====
-- `set`, from the connection to the storages.
use unikvs.Prelude.{
  ℕ, ◌≡◌, sym, subst, ◌∙◌, false, String, Option, some, List, All, Equality, arith,
}
use unikvs.Prelude.Exec.{ok}
use unikvs.Pipeline.{Plugins, Leaf, Destination}
use unikvs.Pipeline.Compile.{PipelineGraph, compile}
use unikvs.Pipeline.Decode.{Runtime}
use unikvs.Pipeline.Delivery.{encode_compile-targets, targets_from, targets-AreDistinct}
use unikvs.Pipeline.Encode.{EncodeTarget, encode}
use unikvs.Pipeline.Plain.{IsPlain}
use unikvs.Core.{set_context}
use unikvs.Core.Backend.{Backend}
use unikvs.Core.Entry.{assert_open, checked, throw_if_aborted, with_instance, use_stage}
use unikvs.Core.Entry.Returned.{
  then-returned, with_instance-returned, checked-returned, throw_if_aborted-returned,
}
use unikvs.Core.Laws.{AreStorages, KeepsAll}
use unikvs.Core.Operation.{Method, as_thrown, awaited, using_lock, ◌>>◌}
use unikvs.Core.Operation.Returned.{awaited-returned, using_lock-returned}
use unikvs.Core.Outcomes.Started.{All-map}
use unikvs.Core.Write.{set, set_plain, set_targets}
use unikvs.Core.Write.Done.{set_targets-Holds, Holds}

module _ {p : Plugins} {w : Runtime p} (b : Backend w) where
  -- A `set` that returned has passed the check of its key.
  pub set-valid :
      ⦃e : Equality p.Middleware⦄ (g : PipelineGraph p) (schedule notices : List ℕ) (key : String)
      (value : w.Value) (s s' : w.State)
      → set b g schedule notices key value s ≡ some (ok tt, s')
      → b.check_key key ≡ ok tt
  unfolding set
  set-valid g schedule notices key value s s' h =
      let checks = checked b (b.check_key key) >> checked b (b.check_input key value) in
      let block : w.Value → Method w.State w.Failure (Unit {0}) = λ valid.
        use_stage b g (set_context key)
        >> (throw_if_aborted b >> set_plain b g schedule notices key valid) in
      let (x, t₁, entered, h₁) =
        awaited-returned (λ valid. with_instance b (block valid)) ((assert_open b >> checks) s) tt
          s' h in
      let (t₂, h₂) = then-returned b (assert_open b) checks x s t₁ entered in
      let (u, t₃, first, rest) =
        awaited-returned (λ v. checked b (b.check_input key value)) (checked b (b.check_key key) t₂)
          x t₁ h₂ in
      checked-returned b (b.check_key key) u t₂ t₃ first

  module _ (stored : Leaf p → String → w.State → Option w.Value) (laws : AreStorages b stored)
      ⦃e : Equality p.Middleware⦄ (g : PipelineGraph p) where
    All-kept :
        (change : w.State → w.State)
        → KeepsAll b stored change
        → (s s' : w.State) → change s ≡ s'
        → (ts : List (EncodeTarget w)) → All (Holds b stored laws g s) ts
        → All (Holds b stored laws g s') ts
    All-kept change keeps s s' same ts h =
        subst (λ x. All (Holds b stored laws g x) ts) same
          (All-map (Holds b stored laws g s) (Holds b stored laws g (change s))
            (λ t q. keeps t.leaf t.key s ∙ q) ts h)

    module _ (plain : IsPlain w) (dests : List (Destination p))
        (compiled : compile dests ≡ some g) where
      encode-compiled :
          (key : String) (x : w.Value) (s : w.State)
          → w.aborted s ≡ false
          → encode w g.entries key x s ≡ (ok (targets_from w plain key x 0 dests), s)
      encode-compiled key x s running =
          let (g', here, encoded) = encode_compile-targets w plain key x dests s running in
          let both : some g' ≡ some g = sym here ∙ compiled in
          let same : g' ≡ g = ground (arith, both) in
          subst (λ h. encode w h.entries key x s ≡ (ok (targets_from w plain key x 0 dests), s))
            same encoded

      pub set_plain-Holds :
          (schedule notices : List ℕ) (key : String) (x : w.Value) (s s' : w.State)
          → w.aborted s ≡ false
          → set_plain b g schedule notices key x s ≡ some (ok tt, s')
          → All (Holds b stored laws g s') (targets_from w plain key x 0 dests)
      unfolding set_plain
      set_plain-Holds schedule notices key x s s' running h =
          let ts = targets_from w plain key x 0 dests in
          let body = set_targets b g schedule notices key ts in
          let locked : using_lock (b.lock_keys (some key)) (b.unlock_keys (some key)) body s
              ≡ some (ok tt, s') =
            subst
              (λ r.
                awaited
                  (λ us.
                    using_lock (b.lock_keys (some key)) (b.unlock_keys (some key))
                      (set_targets b g schedule notices key us))
                  (some (as_thrown r.0, r.1))
                ≡ some (ok tt, s'))
              (encode-compiled key x s running) h in
          let (t, written, unlocked) =
            using_lock-returned (b.lock_keys (some key)) (b.unlock_keys (some key)) body tt s s'
              locked in
          All-kept (b.unlock_keys (some key)) (laws.unlock_keys_keeps (some key)) t s' unlocked ts (
            set_targets-Holds b stored laws g schedule notices key ts (b.lock_keys (some key) s).1 t
              (targets-AreDistinct w plain key x 0 dests) written)

      -- When `set` returns, the value has met its schema, and every destination's storage holds, under
      -- the key that the destination's middlewares make of the key, what they make of the value. It
      -- holds for plain middlewares, storages with entries of their own, and any order of the writes'
      -- turns.
      pub set-Holds :
          (schedule notices : List ℕ) (key : String) (value : w.Value) (s s' : w.State)
          → set b g schedule notices key value s ≡ some (ok tt, s')
          → (x : w.Value) × (b.check_input key value ≡ ok x)
            × All (Holds b stored laws g s') (targets_from w plain key x 0 dests)
      unfolding set
      set-Holds schedule notices key value s s' h =
          let checks = checked b (b.check_key key) >> checked b (b.check_input key value) in
          let rest : w.Value → Method w.State w.Failure (Unit {0}) =
            λ valid. throw_if_aborted b >> set_plain b g schedule notices key valid in
          let block : w.Value → Method w.State w.Failure (Unit {0}) =
            λ valid. use_stage b g (set_context key) >> rest valid in
          let (x, t₁, entered, h₁) =
            awaited-returned (λ valid. with_instance b (block valid)) ((assert_open b >> checks) s)
              tt s' h in
          let (t₂, h₂) = then-returned b (assert_open b) checks x s t₁ entered in
          let (t₃, h₃) =
            then-returned b (checked b (b.check_key key)) (checked b (b.check_input key value)) x t₂
              t₁ h₂ in
          let (t₄, t₅, h₄, unlocked) = with_instance-returned b (block x) tt t₁ s' h₁ in
          let (t₆, h₅) = then-returned b (use_stage b g (set_context key)) (rest x) tt t₄ t₅ h₄ in
          let (running, h₆) =
            throw_if_aborted-returned b (set_plain b g schedule notices key x) tt t₆ t₅ h₅ in
          (
            x,
            checked-returned b (b.check_input key value) x t₃ t₁ h₃,
            All-kept b.unlock_instance laws.unlock_instance_keeps t₅ s' unlocked
                (targets_from w plain key x 0 dests)
                (set_plain-Holds schedule notices key x t₆ t₅ running h₆),
          )

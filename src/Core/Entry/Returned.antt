-- ===== src/Core/Entry/Returned.antt =====
-- An operation that returned has passed the steps with which it begins.
use unikvs.Prelude.{◌≡◌, sym, subst, false, Bool-cases, inl, inr, some, arith}
use unikvs.Prelude.Exec.{Result, ok}
use unikvs.Pipeline.{Plugins}
use unikvs.Pipeline.Decode.{Runtime}
use unikvs.Core.Backend.{Backend}
use unikvs.Core.Entry.{assert_open, checked, throw_if_aborted, with_instance}
use unikvs.Core.Operation.{Method, ◌>>◌}
use unikvs.Core.Operation.Returned.{awaited-returned, call-returned, using_lock-returned}

module _ {p : Plugins} {w : Runtime p} (b : Backend w) where
  pub throw_if_aborted-passed :
      (s t : w.State) → throw_if_aborted b s ≡ some (ok tt, t) → (w.aborted s ≡ false) × (s ≡ t)
  unfolding throw_if_aborted
  throw_if_aborted-passed s t h = elim (Bool-cases (w.aborted s)) [
    | inl stopped ↦ absurd (ground (arith, h, stopped))
    | inr running ↦ (running, ground (arith, h, running))
  ]

  module _ {A B : Type 0} where
    pub then-returned :
        (m : Method w.State w.Failure A) (n : Method w.State w.Failure B) (y : B) (s s' : w.State)
        → (m >> n) s ≡ some (ok y, s')
        → (t : w.State) × (n t ≡ some (ok y, s'))
    then-returned m n y s s' h =
        let (a, t, first, rest) = awaited-returned (λ v. n) (m s) y s' h in (t, rest)

  module _ {A : Type 0} where
    pub with_instance-returned :
        (body : Method w.State w.Failure A) (a : A) (s s' : w.State)
        → with_instance b body s ≡ some (ok a, s')
        → (t t' : w.State) × (body t ≡ some (ok a, t')) × (b.unlock_instance t' ≡ s')
    unfolding with_instance
    with_instance-returned body a s s' h =
        let (t', under, unlocked) =
          using_lock-returned b.lock_instance b.unlock_instance (assert_open b >> body) a s s' h in
        let (t, rest) = then-returned (assert_open b) body a (b.lock_instance s).1 t' under in
        (t, t', rest, unlocked)

    pub checked-returned :
        (r : Result w.Failure A) (a : A) (s s' : w.State)
        → checked b r s ≡ some (ok a, s')
        → r ≡ ok a
    checked-returned r a s s' h = (call-returned (λ t. (r, t)) a s s' h).0

    -- After the look at the signal, the rest runs while it is not aborted.
    pub throw_if_aborted-returned :
        (rest : Method w.State w.Failure A) (a : A) (s s' : w.State)
        → (throw_if_aborted b >> rest) s ≡ some (ok a, s')
        → (w.aborted s ≡ false) × (rest s ≡ some (ok a, s'))
    throw_if_aborted-returned rest a s s' h =
        let (u, t, passed, last) = awaited-returned (λ v. rest) (throw_if_aborted b s) a s' h in
        let (running, same) = throw_if_aborted-passed s t passed in
        (running, subst (λ r. rest r ≡ some (ok a, s')) (sym same) last)

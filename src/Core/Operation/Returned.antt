-- ===== src/Core/Operation/Returned.antt =====
-- A method that returned has returned from each of its steps.
use unikvs.Prelude.{◌≡◌, refl, ap, sym, subst, Option, none, some, arith}
use unikvs.Prelude.Exec.{Result, ok, thrown, Exec}
use unikvs.Core.{UniKvsError}
use unikvs.Core.Operation.{Method, awaited, call, from_result, released, using_lock}

module _ {S F A B : Type 0} where
  -- The step that came first, and what it left.
  abbrev pub Step : (A → Method S F B) → Option (Result (UniKvsError F) A × S) → B → S → Type 0
  Step f o y s = (a : A) × (t : S) × (o ≡ some (ok a, t)) × (f a t ≡ some (ok y, s))

  pub awaited-returned :
      (f : A → Method S F B) (o : Option (Result (UniKvsError F) A × S)) (y : B) (s : S)
      → awaited f o ≡ some (ok y, s)
      → Step f o y s
  awaited-returned f none y s h = absurd (ground (arith, h))
  awaited-returned f (some (ok a, t)) y s h = (a, t, refl, h)
  awaited-returned f (some (thrown e, t)) y s h = absurd (ground (arith, h))

module _ {S F A : Type 0} where
  pub released-returned :
      (release : S → S) (o : Option (Result (UniKvsError F) A × S)) (a : A) (s : S)
      → released release o ≡ some (ok a, s)
      → (t : S) × (o ≡ some (ok a, t)) × (release t ≡ s)
  released-returned release none a s h = absurd (ground (arith, h))
  released-returned release (some (ok x, t)) a s h =
      let value : x ≡ a = ground (arith, h) in
      (t, ap (λ y. some (ok y, t)) value, ground (arith, h))
  released-returned release (some (thrown e, t)) a s h = absurd (ground (arith, h))

  -- A call that returned leaves what it left.
  pub call-returned :
      (m : Exec S F A) (a : A) (s t : S)
      → call m s ≡ some (ok a, t)
      → ((m s).0 ≡ ok a) × ((m s).1 ≡ t)
  call-returned m a s t h = go (m s).0 (m s).1 h
    where
      go :
          (r : Result F A) (u : S)
          → Path (Option (Result (UniKvsError F) A × S)) (some (from_result r, u)) (some (ok a, t))
          → (r ≡ ok a) × (u ≡ t)
      go (ok x) u q = (ground (arith, q), ground (arith, q))
      go (thrown e) u q = absurd (ground (arith, q))

module _ {S F A : Type 0} where
  -- A block under a lock.
  pub using_lock-returned :
      (lock : Exec S F (Unit {0})) (release : S → S) (body : Method S F A) (a : A) (s s' : S)
      → using_lock lock release body s ≡ some (ok a, s')
      → (t : S) × (body (lock s).1 ≡ some (ok a, t)) × (release t ≡ s')
  using_lock-returned lock release body a s s' h =
      let (u, t, locked, rest) =
        awaited-returned (λ _ r. released release (body r)) (call lock s) a s' h in
      let here = (call-returned lock u s t locked).1 in
      released-returned release (body (lock s).1) a s'
        (subst (λ r. released release (body r) ≡ some (ok a, s')) (sym here) rest)

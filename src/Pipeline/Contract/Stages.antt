-- ===== src/Pipeline/Contract/Stages.antt =====
-- Where a middleware stands with the contract while its handler runs.
use unikvs.Prelude.{subst, if◌then◌else◌, Bool, true, false, Option, none, some, ◌≡◌, refl, arith}
use unikvs.Prelude.Exec.{Result, ok, thrown}
use unikvs.Pipeline.Contract.{
  ContractError, Fault, Answered, record_in, next_called_multiple_times, destination_missing,
  destination_frozen, contract, other, Script, finish, raise, assign, await_next, start_next,
  consult, Frame, new_frame, record_fault, final_violation, Below, settle, next, first_next,
  set_destination, play, judged, conclude, run_middleware,
}

module _ {S T V F R : Type 0} (below : Below S T V F R) where
  -- The part below has run once, from the destination, and returned or failed with no violation; or
  -- it has not run, or not settled; or a violation is recorded.
  pub data Stage (f : Frame V R) : Type 0 where
    fresh :
        f.next_called ≡ false
        → f.frozen ≡ false
        → f.result ≡ none
        → f.next_settled ≡ false
        → Stage f
    pending : f.next_called ≡ true → f.next_settled ≡ false → Stage f
    broken : {x : ContractError} → f.violation ≡ some x → Stage f
    returned :
        {d : V} {s s' : S × T} {r : R}
        → below d s ≡ (ok r, s')
        → f.destination ≡ some d
        → f.frozen ≡ true
        → f.next_called ≡ true
        → f.result ≡ some r
        → Stage f
    swallowed :
        {d : V} {s s' : S × T} {e : F}
        → below d s ≡ (thrown (other e), s')
        → f.destination ≡ some d
        → f.frozen ≡ true
        → f.next_called ≡ true
        → f.result ≡ none
        → Stage f

  recorded :
      (x : ContractError) (o : Option ContractError)
      → (y : ContractError) × (record_fault {F = F} (contract x) o ≡ some y)
  unfolding record_fault
  recorded x none = (x, refl)
  recorded x (some y) = (y, refl)

  still :
      (e : Fault F) (x : ContractError) (o : Option ContractError)
      → o ≡ some x
      → record_fault e o ≡ some x
  unfolding record_fault
  still (contract y) x none h = absurd (ground (arith, h))
  still (contract y) x (some z) h = h
  still (other e) x o h = h

  settle-Stage :
      (in_time : Bool) (f : Frame V R) (d : V) (s : S × T)
      → f.destination ≡ some d
      → f.result ≡ none
      → f.next_settled ≡ false
      → f.next_called ≡ true
      → f.frozen ≡ true
      → (o : Result (Fault F) R × (S × T)) → below d s ≡ o
      → Stage (settle in_time o f).1
  unfolding settle
  settle-Stage false f d s h r n c z (o, s') p = pending c n
  settle-Stage true f d s h r n c z (ok v, s') p = returned p h z c refl
  settle-Stage true f d s h r n c z (thrown (contract x), s') p = broken (recorded x f.violation).1
  settle-Stage true f d s h r n c z (thrown (other e), s') p = swallowed p h z c r

  settle_broken :
      {x : ContractError} (in_time : Bool) (f : Frame V R) (o : Result (Fault F) R × (S × T))
      → f.violation ≡ some x
      → Stage (settle in_time o f).1
  unfolding settle
  settle_broken false f o v = broken v
  settle_broken true f (ok r, s) v = broken v
  settle_broken {x} true f (thrown e, s) v = broken (still e x f.violation v)

  set_destination-Stage : (d : V) (f : Frame V R) → Stage f → Stage (set_destination {F = F} d f).1
  unfolding set_destination
  set_destination-Stage d f st = go f.frozen refl st
    where
      go :
          (b : Bool)
          → f.frozen ≡ b
          → Stage f
          → Stage
              (let x : Option (Fault F) × Frame V R =
                  if b
                  then (some (contract destination_frozen), f)
                  else (none, record f { destination = some d }) in
                x).1
      go true t st = st
      go false t (fresh a b c n) = fresh a b c n
      go false t (pending a b) = pending a b
      go false t (broken a) = broken a
      go false t (returned p h z c r) = absurd (ground (arith, t, z))
      go false t (swallowed p h z c r) = absurd (ground (arith, t, z))

  first_next-Stage :
      (in_time : Bool) (f : Frame V R) (s : S × T) (o : Option V)
      → f.destination ≡ o
      → f.next_called ≡ false
      → Stage f
      → Stage (first_next in_time below f s o).1
  unfolding first_next
  first_next-Stage in_time f s none h c st = broken (recorded destination_missing f.violation).1
  first_next-Stage in_time f s (some d) h c (fresh a b r n) =
      settle-Stage in_time (record f { next_called = true; frozen = true }) d s h r n refl refl
        (below d s) refl
  first_next-Stage in_time f s (some d) h c (pending a b) = absurd (ground (arith, a, c))
  first_next-Stage in_time f s (some d) h c (broken v) =
      settle_broken in_time (record f { next_called = true; frozen = true }) (below d s) v
  first_next-Stage in_time f s (some d) h c (returned p q z a r) = absurd (ground (arith, a, c))
  first_next-Stage in_time f s (some d) h c (swallowed p q z a r) = absurd (ground (arith, a, c))

  next-Stage :
      (in_time : Bool) (f : Frame V R) (s : S × T) → Stage f → Stage (next in_time below f s).1
  unfolding next
  next-Stage in_time f s st = go f.next_called refl st
    where
      go :
          (b : Bool)
          → f.next_called ≡ b
          → Stage f
          → Stage
              (let x : Answered S T V F R =
                  if b
                  then (let e : Fault F = contract next_called_multiple_times in
                      (some e, record_in e (record f { called_multiple_times = true }), s))
                  else first_next in_time below f s f.destination in
                x).1
      go true t st = broken (recorded next_called_multiple_times f.violation).1
      go false t st = first_next-Stage in_time f s f.destination refl t st

  play-Stage :
      (script : Script S V F) (f : Frame V R) (s : S × T)
      → Stage f
      → Stage (play below script f s).1
  unfolding play
  play-Stage finish f s st = st
  play-Stage (raise e) f s st = st
  play-Stage (assign d k) f s st =
      let (a, f') = set_destination {F = F} d f in
      play-Stage (k a) f' s (set_destination-Stage d f st)
  play-Stage (await_next k) f s st =
      let (a, f', s') = next true below f s in play-Stage (k a) f' s' (next-Stage true f s st)
  play-Stage (start_next in_time k) f s st =
      let (a, f', s') = next in_time below f s in play-Stage k f' s' (next-Stage in_time f s st)
  play-Stage (consult change k) f (s, t) st = play-Stage (k (change s)) f (change s, t) st

  -- What is left of that when the contract is kept to the end.
  pub data Ran (f : Frame V R) : Type 0 where
    ran :
        {d : V} {s s' : S × T} {r : R}
        → below d s ≡ (ok r, s')
        → f.destination ≡ some d
        → f.result ≡ some r
        → Ran f
    ran_failed :
        {d : V} {s s' : S × T} {e : F}
        → below d s ≡ (thrown (other e), s')
        → f.destination ≡ some d
        → f.result ≡ none
        → Ran f

  Stage-Ran : (f : Frame V R) → final_violation f ≡ none → Stage f → Ran f
  unfolding final_violation
  Stage-Ran f h (fresh a b c n) = absurd (ground (arith, h, a))
  Stage-Ran f h (pending a b) = absurd (ground (arith, h, a, b))
  Stage-Ran f h (broken v) = absurd (ground (arith, h, v))
  Stage-Ran f h (returned p q z a r) = ran p q r
  Stage-Ran f h (swallowed p q z a r) = ran_failed p q r

  module _ (aborted : S → Bool) (reason : S → F) where
    conclude-Ran :
        (o : Result (Fault F) (Unit {0}) × Frame V R × (S × T)) (f : Frame V R)
        → Stage o.1
        → (conclude aborted reason o).0 ≡ ok f
        → Ran f
    unfolding conclude
    conclude-Ran (thrown e, g, s') f st h = absurd (ground (arith, h))
    conclude-Ran (ok u, g, (s', t)) f st h = go (aborted s') (final_violation g) refl h
      where
        go :
            (b : Bool) (o : Option ContractError)
            → final_violation g ≡ o
            → (let x : Result (Fault F) (Frame V R) × (S × T) =
                  if b then (thrown (other (reason s')), (s', t)) else judged o g (s', t) in
                x).0
              ≡ ok f
            → Ran f
        go true o p h = absurd (ground (arith, h))
        go false (some x) p h = absurd (ground (arith, h))
        go false none p h =
            let same : g ≡ f = ground (arith, h) in subst Ran same (Stage-Ran g p st)

    -- A middleware that the operation goes on with has run the part below it.
    pub run_middleware-Ran :
        (script : Script S V F) (s : S × T) (f : Frame V R)
        → (run_middleware aborted reason below script s).0 ≡ ok f
        → Ran f
    unfolding run_middleware
    run_middleware-Ran script s f h =
        conclude-Ran (play below script new_frame s) f
          (play-Stage script new_frame s (fresh refl refl refl refl)) h

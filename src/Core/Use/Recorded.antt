-- ===== src/Core/Use/Recorded.antt =====
-- A violation of the contract of `next()` that is recorded in a handler of `use` stays recorded, and one
-- that comes from the part below is recorded.
use unikvs.Prelude.{◌≡◌, refl, Bool, true, false, Option, none, some, arith, if◌then◌else◌}
use unikvs.Prelude.Exec.{Result, ok, thrown}
use unikvs.Pipeline.Contract.{
  ContractError, Fault, contract, other, record_fault, next_called_multiple_times,
}
use unikvs.Core.Use.{
  UseFailure, violated, stopped, aggregated, UseScript, finish, raise, rethrow, throw_if_aborted,
  await_next, start_next, consult, Ending, reason_thrown, UseFrame, UseBelow, settle_use, next_use,
  play_use,
}

-- A return, or the failure of a middleware: neither a violation of the contract nor the end by the signal.
abbrev pub IsClean : {F : Type 0} → Result (UseFailure F) (Unit {0}) → Type 0
IsClean (ok u) = Unit {0}
IsClean (thrown (violated x)) = ⊥
IsClean (thrown (stopped e)) = ⊥
IsClean (thrown (aggregated i e)) = Unit {0}

abbrev pub IsNoViolation : {F : Type 0} → Result (UseFailure F) (Unit {0}) → Type 0
IsNoViolation (ok u) = Unit {0}
IsNoViolation (thrown (violated x)) = ⊥
IsNoViolation (thrown (stopped e)) = Unit {0}
IsNoViolation (thrown (aggregated i e)) = Unit {0}

recorded :
    (F : Type 0) (e : Fault F) (v : Option ContractError) → record_fault e v ≡ none → v ≡ none
unfolding record_fault
recorded F (contract x) none q = refl
recorded F (contract x) (some y) q = q
recorded F (other e) v q = q

not_recorded :
    (F : Type 0) (x : ContractError) (v : Option ContractError)
    → record_fault {F = F} (contract x) v ≡ none
    → ⊥
unfolding record_fault
not_recorded F x none q = ground (arith, q)
not_recorded F x (some y) q = ground (arith, q)

module _ {S : Type 0} where
  -- What the part below came to where it settled in time.
  abbrev pub OfCall : (S → Type 0) → Option (Bool × S) → Type 0
  OfCall P none = Unit {0}
  OfCall P (some (false, s)) = Unit {0}
  OfCall P (some (true, s)) = P s

  pub OfCall-map :
      (P Q : S → Type 0) (o : Option (Bool × S)) → ((t : S) → P t → Q t) → OfCall P o → OfCall Q o
  OfCall-map P Q none f h = tt
  OfCall-map P Q (some (false, s)) f h = tt
  OfCall-map P Q (some (true, s)) f h = f s h

module _ {S F : Type 0} where
  settle_use-violation :
      (in_time : Bool) (r : Result (UseFailure F) (Unit {0}) × S) (f : UseFrame F)
      → (settle_use in_time r f).1.violation ≡ none
      → f.violation ≡ none
  unfolding settle_use
  settle_use-violation false (r, s) f h = h
  settle_use-violation true (ok u, s) f h = h
  settle_use-violation true (thrown (violated x), s) f h = recorded F (contract x) f.violation h
  settle_use-violation true (thrown (stopped e), s) f h = recorded F (other e) f.violation h
  settle_use-violation true (thrown (aggregated i e), s) f h = recorded F (other e) f.violation h

  settle_use-IsNoViolation :
      (r : Result (UseFailure F) (Unit {0})) (s : S) (f : UseFrame F)
      → (settle_use true (r, s) f).1.violation ≡ none
      → IsNoViolation r
  unfolding settle_use
  settle_use-IsNoViolation (ok u) s f h = tt
  settle_use-IsNoViolation (thrown (violated x)) s f h = not_recorded F x f.violation h
  settle_use-IsNoViolation (thrown (stopped e)) s f h = tt
  settle_use-IsNoViolation (thrown (aggregated i e)) s f h = tt

  next_use-violation :
      (below : UseBelow S F) (in_time : Bool) (f : UseFrame F) (s : S)
      → (next_use in_time below f s).1.violation ≡ none
      → f.violation ≡ none
  unfolding next_use
  next_use-violation below in_time f s = go f.next_called
    where
      go :
          (c : Bool)
          → (if c
              then (
                some (violated next_called_multiple_times),
                record f {
                  called_multiple_times = true;
                  violation =
                      record_fault {F = F} (contract next_called_multiple_times) f.violation;
                },
                s,
              )
              else settle_use in_time (below s) (record f { next_called = true })).1.violation
            ≡ none
          → f.violation ≡ none
      go true h = absurd (not_recorded F next_called_multiple_times f.violation h)
      go false h = settle_use-violation in_time (below s) (record f { next_called = true }) h

  first_next-IsNoViolation :
      (below : UseBelow S F) (f : UseFrame F) (s : S)
      → f.next_called ≡ false
      → (next_use true below f s).1.violation ≡ none
      → IsNoViolation (below s).0
  unfolding next_use
  first_next-IsNoViolation below f s first = go f.next_called first
    where
      go :
          (c : Bool)
          → c ≡ false
          → (if c
              then (
                some (violated next_called_multiple_times),
                record f {
                  called_multiple_times = true;
                  violation =
                      record_fault {F = F} (contract next_called_multiple_times) f.violation;
                },
                s,
              )
              else settle_use true (below s) (record f { next_called = true })).1.violation
            ≡ none
          → IsNoViolation (below s).0
      go true q h = absurd (ground (arith, q))
      go false q h =
          settle_use-IsNoViolation (below s).0 (below s).1 (record f { next_called = true }) h

  stopped_or :
      (c : Bool) (f : UseFrame F) (s : S) (later : Ending F × UseFrame F × S)
      → (later.1.violation ≡ none → f.violation ≡ none)
      → (if c then (reason_thrown, f, s) else later).1.violation ≡ none
      → f.violation ≡ none
  stopped_or true f s later go h = h
  stopped_or false f s later go h = go h

  module _ (aborted : S → Bool) (reason : S → F) where
    -- A violation stays recorded.
    play_use-violation :
        (below : UseBelow S F) (script : UseScript S F) (f : UseFrame F) (s : S)
        → (play_use aborted reason below script f s).1.violation ≡ none
        → f.violation ≡ none
    unfolding play_use
    play_use-violation below finish f s h = h
    play_use-violation below (raise e) f s h = h
    play_use-violation below rethrow f s h = h
    play_use-violation below (throw_if_aborted k) f s h =
        stopped_or (aborted s) f s (play_use aborted reason below k f s)
          (play_use-violation below k f s) h
    play_use-violation below (await_next k) f s h =
        let (a, f', s') = next_use true below f s in
        next_use-violation below true f s (play_use-violation below (k a) f' s' h)
    play_use-violation below (start_next in_time k) f s h =
        let (a, f', s') = next_use in_time below f s in
        next_use-violation below in_time f s (play_use-violation below k f' s' h)
    play_use-violation below (consult change k) f s h =
        play_use-violation below (k (change s)) f (change s) h

    -- Where a handler calls `next()` first: whether that settles in time, and the state it is called in.
    unfoldable pub first_call : UseScript S F → S → Option (Bool × S)
    first_call finish s = none
    first_call (raise e) s = none
    first_call rethrow s = none
    first_call (throw_if_aborted k) s =
        let later = first_call k s in if aborted s then none else later
    first_call (await_next k) s = some (true, s)
    first_call (start_next in_time k) s = some (in_time, s)
    first_call (consult change k) s = first_call (k (change s)) (change s)

    stopped_call :
        (P : S → Type 0) (c : Bool) (o : Option (Bool × S)) (f : UseFrame F) (s : S)
        (later : Ending F × UseFrame F × S)
        → (later.1.violation ≡ none → OfCall P o)
        → (if c then (reason_thrown, f, s) else later).1.violation ≡ none
        → OfCall P (if c then none else o)
    stopped_call P true o f s later go h = tt
    stopped_call P false o f s later go h = go h

    pub first_call-OfCall :
        (below : UseBelow S F) (script : UseScript S F) (f : UseFrame F) (s : S)
        → f.next_called ≡ false
        → (play_use aborted reason below script f s).1.violation ≡ none
        → OfCall (λ t. IsNoViolation (below t).0) (first_call script s)
    unfolding play_use first_call
    first_call-OfCall below finish f s c h = tt
    first_call-OfCall below (raise e) f s c h = tt
    first_call-OfCall below rethrow f s c h = tt
    first_call-OfCall below (throw_if_aborted k) f s c h =
        stopped_call (λ t. IsNoViolation (below t).0) (aborted s) (first_call k s) f s
          (play_use aborted reason below k f s) (first_call-OfCall below k f s c) h
    first_call-OfCall below (await_next k) f s c h =
        let (a, f', s') = next_use true below f s in
        first_next-IsNoViolation below f s c (play_use-violation below (k a) f' s' h)
    first_call-OfCall below (start_next false k) f s c h = tt
    first_call-OfCall below (start_next true k) f s c h =
        let (a, f', s') = next_use true below f s in
        first_next-IsNoViolation below f s c (play_use-violation below k f' s' h)
    first_call-OfCall below (consult change k) f s c h =
        first_call-OfCall below (k (change s)) f (change s) c h

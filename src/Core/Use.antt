-- ===== src/Core/Use.antt =====
-- `#use`: the middlewares' `use` before an operation, each around the ones that follow, under the contract
-- of `next()`. Which error a handler throws is told by where it comes from, as the source compares
-- errors by identity: its own, the one that `next()` was rejected with, or the reason of the signal.
pub mod Recorded
pub mod Kept
mod Tests
use unikvs.Prelude.{ℕ, suc, Bool, true, false, Option, none, some, List, [], ◌∷◌, if◌then◌else◌}
use unikvs.Prelude.Exec.{Result, ok, thrown}
use unikvs.Pipeline.Contract.{
  ContractError, Fault, contract, other, Frame, new_frame, next_called_multiple_times, record_fault,
  final_violation,
}

-- What `dispatch` is rejected with: a violation of the contract, the reason of the signal, or the error
-- of the middleware at an index, which is aggregated.
pub data UseFailure (F : Type 0) : Type 0 where
  violated : ContractError → UseFailure F
  stopped : F → UseFailure F
  aggregated : ℕ → F → UseFailure F

-- A `use` handler. `rethrow` throws what `next()` was rejected with, `throw_if_aborted` the reason of the
-- signal if it is aborted; with nothing to rethrow the handler returns. `start_next` does not await
-- `next()`.
pub data UseScript (S F : Type 0) : Type 0 where
  finish : UseScript S F
  raise : Fault F → UseScript S F
  rethrow : UseScript S F
  throw_if_aborted : UseScript S F → UseScript S F
  await_next : (Option (UseFailure F) → UseScript S F) → UseScript S F
  start_next : Bool → UseScript S F → UseScript S F
  consult : (S → S) → (S → UseScript S F) → UseScript S F

pub data Ending (F : Type 0) : Type 0 where
  returned reason_thrown : Ending F
  raised : Fault F → Ending F
  rethrown : UseFailure F → Ending F

-- There is no destination here; the frame's `result` is `downstreamError`.
abbrev pub UseFrame : Type 0 → Type 0
UseFrame F = Frame (Unit {0}) (UseFailure F)

abbrev pub UseBelow : Type 0 → Type 0 → Type 0
UseBelow S F = S → Result (UseFailure F) (Unit {0}) × S

abbrev pub UseAnswered : Type 0 → Type 0 → Type 0
UseAnswered S F = Option (UseFailure F) × UseFrame F × S

module _ {F : Type 0} where
  abbrev pub fault_of : UseFailure F → Fault F
  fault_of (violated x) = contract x
  fault_of (stopped e) = other e
  fault_of (aggregated i e) = other e

  abbrev pub violation_or :
      Option ContractError → Result (UseFailure F) (Unit {0}) → Result (UseFailure F) (Unit {0})
  violation_or (some x) r = thrown (violated x)
  violation_or none r = r

  -- What came from below is thrown again, whether the signal is aborted or not.
  abbrev pub passed_on :
      Bool → Option ContractError → UseFailure F → Result (UseFailure F) (Unit {0})
  passed_on true v (stopped e) = thrown (stopped e)
  passed_on true v (violated x) = violation_or v (thrown (violated x))
  passed_on true v (aggregated i e) = violation_or v (thrown (aggregated i e))
  passed_on false v e = violation_or v (thrown e)

  abbrev pub rethrow_of : Option (UseFailure F) → Ending F
  rethrow_of none = returned
  rethrow_of (some e) = rethrown e

module _ {S F : Type 0} where
  unfoldable pub settle_use :
      Bool → Result (UseFailure F) (Unit {0}) × S → UseFrame F → UseAnswered S F
  settle_use false (r, s) f = (none, f, s)
  settle_use true (ok u, s) f = (none, record f { next_settled = true }, s)
  settle_use true (thrown e, s) f = (
    some e,
    record f {
      result = some e;
      violation = record_fault (fault_of e) f.violation;
      next_settled = true;
    },
    s,
  )

  -- `next`
  unfoldable pub next_use : Bool → UseBelow S F → UseFrame F → S → UseAnswered S F
  unfolding settle_use
  next_use in_time below f s =
      let again : Fault F = contract next_called_multiple_times in
      if f.next_called
      then (
        some (violated next_called_multiple_times),
        record f { called_multiple_times = true; violation = record_fault again f.violation },
        s,
      )
      else settle_use in_time (below s) (record f { next_called = true })

  module _ (aborted : S → Bool) (reason : S → F) where
    -- The handler.
    unfoldable pub play_use :
        UseBelow S F → UseScript S F → UseFrame F → S → Ending F × UseFrame F × S
    unfolding next_use
    play_use below finish f s = (returned, f, s)
    play_use below (raise e) f s = (raised e, f, s)
    play_use below rethrow f s = (rethrow_of f.result, f, s)
    play_use below (throw_if_aborted k) f s =
        let later = play_use below k f s in if aborted s then (reason_thrown, f, s) else later
    play_use below (await_next k) f s =
        let (a, f', s') = next_use true below f s in play_use below (k a) f' s'
    play_use below (start_next in_time k) f s =
        let (a, f', s') = next_use in_time below f s in play_use below k f' s'
    play_use below (consult change k) f s = play_use below (k (change s)) f (change s)

    -- What follows the handler, and the `catch` around both.
    unfoldable pub conclude_use :
        ℕ → Ending F × UseFrame F × S → Result (UseFailure F) (Unit {0}) × S
    conclude_use i (returned, f, s) =
        if aborted s
        then (thrown (stopped (reason s)), s)
        else (violation_or (final_violation f) (ok tt), s)
    conclude_use i (reason_thrown, f, s) = (thrown (stopped (reason s)), s)
    conclude_use i (rethrown e, f, s) = (passed_on (aborted s) f.violation e, s)
    conclude_use i (raised (contract x), f, s) =
        let e : Fault F = contract x in
        (violation_or (record_fault e f.violation) (thrown (violated x)), s)
    conclude_use i (raised (other e), f, s) =
        (violation_or f.violation (thrown (aggregated i e)), s)

    -- `dispatch`
    unfoldable pub dispatch : ℕ → List (UseScript S F) → UseBelow S F
    unfolding play_use conclude_use
    dispatch i [] s = (ok tt, s)
    dispatch i (script ∷ rest) s =
        conclude_use i (play_use (dispatch (suc i) rest) script new_frame s)

    -- `#use`
    unfoldable pub use_middlewares : List (UseScript S F) → UseBelow S F
    unfolding dispatch
    use_middlewares scripts s =
        if aborted s then (thrown (stopped (reason s)), s) else dispatch 0 scripts s

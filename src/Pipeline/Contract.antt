-- ===== src/Pipeline/Contract.antt =====
-- unikvs/src/_pipeline-graph.ts, what `decode` and `encode` do around one middleware, with
-- `MiddlewareContractTracker`, `requireDestination` and `freezeDestination` of
-- _pipeline-graph.helpers.ts: the contract of `next()` and of `destination`.
--
-- A middleware's handler is any asynchronous function of its context and of `next`: a script of what
-- it does to them, whose continuations take what it is answered. `S` is the shared store and the
-- signal, `T` what the operation gathers, `R` the result of the part below the middleware. An error
-- leaves out the middleware's name and the operation.
pub mod Stages
pub mod Convey
use unikvs.Prelude.{Bool, true, false, not, Option, none, some, if◌then◌else◌}
use unikvs.Prelude.Exec.{Result, ok, thrown}

-- `MiddlewareContractError`
pub data ContractError : Type 0 where
  next_called_multiple_times next_not_awaited next_not_called : ContractError
  destination_missing destination_frozen : ContractError

-- What can be thrown; `isMiddlewareContractError` tells the two apart.
pub data Fault (F : Type 0) : Type 0 where
  contract : ContractError → Fault F
  other : F → Fault F

-- `assign` sets `c.destination`, which may throw; `await_next` awaits `next()`, `start_next` does not,
-- and tells whether the part below has settled when the handler does; `consult` changes the store and
-- reads it.
pub data Script (S V F : Type 0) : Type 0 where
  finish : Script S V F
  raise : Fault F → Script S V F
  assign : V → (Option (Fault F) → Script S V F) → Script S V F
  await_next : (Option (Fault F) → Script S V F) → Script S V F
  start_next : Bool → Script S V F → Script S V F
  consult : (S → S) → (S → Script S V F) → Script S V F

-- The context's `destination` and the variables that `next` and its caller share; `violation` is the
-- tracker's `#error`, `result` is `downstreamResult` with `hasDownstream`.
pub record Frame (V R : Type 0) : Type 0 where
  pub destination : Option V
  pub frozen : Bool
  pub next_called : Bool
  pub next_settled : Bool
  pub called_multiple_times : Bool
  pub violation : Option ContractError
  pub result : Option R

-- `MiddlewareContractTracker.record`: the first violation stays.
unfoldable pub record_fault : {F : Type 0} → Fault F → Option ContractError → Option ContractError
record_fault (contract x) none = some x
record_fault (contract x) (some y) = some y
record_fault (other e) first = first

module _ {V R : Type 0} where
  abbrev pub new_frame : Frame V R
  new_frame = record {
    destination = none;
    frozen = false;
    next_called = false;
    next_settled = false;
    called_multiple_times = false;
    violation = none;
    result = none;
  }

  abbrev pub record_in : {F : Type 0} → Fault F → Frame V R → Frame V R
  record_in e f = record f { violation = record_fault e f.violation }

  -- The violations that are recorded after the handler has returned.
  unfoldable pub final_violation : Frame V R → Option ContractError
  final_violation f = elim f.violation [
    | some x ↦ some x
    | none ↦
        if f.called_multiple_times
        then some next_called_multiple_times
        else if not f.next_called
        then some next_not_called
        else if not f.next_settled
        then some next_not_awaited
        else none
  ]

abbrev pub Below : Type 0 → Type 0 → Type 0 → Type 0 → Type 0 → Type 0
Below S T V F R = V → S × T → Result (Fault F) R × (S × T)

abbrev pub Answered : Type 0 → Type 0 → Type 0 → Type 0 → Type 0 → Type 0
Answered S T V F R = Option (Fault F) × Frame V R × (S × T)

module _ {V F R : Type 0} where
  -- The setter of `destination`, which `freezeDestination` replaces.
  unfoldable pub set_destination : V → Frame V R → Option (Fault F) × Frame V R
  set_destination d f =
      if f.frozen
      then (some (contract destination_frozen), f)
      else (none, record f { destination = some d })

module _ {S T V F R : Type 0} where
  -- The `try` of `next`, once the part below has run; when that does not settle in time, nothing is
  -- seen of it but what it did to the store and to what the operation gathers.
  unfoldable pub settle : Bool → Result (Fault F) R × (S × T) → Frame V R → Answered S T V F R
  settle false (r, s) f = (none, f, s)
  settle true (ok r, s) f = (none, record f { result = some r; next_settled = true }, s)
  settle true (thrown e, s) f =
      (some e, record f { violation = record_fault e f.violation; next_settled = true }, s)

  -- The first call of `next`, on the destination that the context has.
  unfoldable pub first_next :
      Bool → Below S T V F R → Frame V R → S × T → Option V → Answered S T V F R
  unfolding settle
  first_next in_time below f s none =
      let e : Fault F = contract destination_missing in
      (some e, record_in e (record f { next_called = true }), s)
  first_next in_time below f s (some d) =
      settle in_time (below d s) (record f { next_called = true; frozen = true })

  -- `next`
  unfoldable pub next : Bool → Below S T V F R → Frame V R → S × T → Answered S T V F R
  unfolding first_next
  next in_time below f s =
      if f.next_called
      then (let e : Fault F = contract next_called_multiple_times in
          (some e, record_in e (record f { called_multiple_times = true }), s))
      else first_next in_time below f s f.destination

  -- The handler.
  unfoldable pub play :
      Below S T V F R
      → Script S V F
      → Frame V R
      → S × T
      → Result (Fault F) (Unit {0}) × Frame V R × (S × T)
  play below finish f s = (ok tt, f, s)
  play below (raise e) f s = (thrown e, f, s)
  play below (assign d k) f s = let (a, f') = set_destination d f in play below (k a) f' s
  play below (await_next k) f s = let (a, f', s') = next true below f s in play below (k a) f' s'
  play below (start_next in_time k) f s =
      let (a, f', s') = next in_time below f s in play below k f' s'
  play below (consult change k) f (s, t) = play below (k (change s)) f (change s, t)

  -- `contract.throwIfViolated()`
  abbrev pub judged :
      Option ContractError → Frame V R → S × T → Result (Fault F) (Frame V R) × (S × T)
  judged (some x) f s = (thrown (contract x), s)
  judged none f s = (ok f, s)

  module _ (aborted : S → Bool) (reason : S → F) where
    -- What follows the handler: the signal, then the contract.
    unfoldable pub conclude :
        Result (Fault F) (Unit {0}) × Frame V R × (S × T) → Result (Fault F) (Frame V R) × (S × T)
    conclude (thrown e, f, s) = (thrown e, s)
    conclude (ok u, f, (s, t)) =
        if aborted s
        then (thrown (other (reason s)), (s, t))
        else judged (final_violation f) f (s, t)

    -- One middleware around the part below it.
    unfoldable pub run_middleware :
        Below S T V F R → Script S V F → S × T → Result (Fault F) (Frame V R) × (S × T)
    unfolding play next set_destination conclude
    run_middleware below script s = conclude (play below script new_frame s)

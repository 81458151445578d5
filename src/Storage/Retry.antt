-- ===== src/Storage/Retry.antt =====
-- packages/retry/src/retry.ts: a storage that tries the calls of another storage again.
--
-- The storage below, the abort signal, the timer, `Math.random` and the user's two functions are
-- parameters over one state of the world, which any of them may change. Delays and the growth factor
-- are whole numbers of milliseconds, where the source also takes fractions; the jitter makes fractions,
-- so a delay counts in ticks, `2 * resolution` to the millisecond.
pub mod Backoff
pub mod Rounds
pub mod Transfer
mod Tests
use unikvs.Prelude.{
  ℕ, zero, suc, ◌+◌, ◌*◌, ◌^◌, ◌-◌, ◌<◌, ◌≡◌, min, Bool, true, false, not, ◌&&◌, ◌||◌, String,
  string_equality, Option, none, some, ltb, leb, if◌then◌else◌, ◌==◌,
}
use unikvs.Prelude.Exec.{Result, ok, thrown, Exec, continue, pure, throw, ◌>>=◌, ◌>>◌}

-- The storage below and the platform. `random` gives a numerator below `resolution`; `timer` tells
-- whether the signal was aborted before the time was over.
pub record World : Type 1 where
  pub State : Type 0
  pub Value : Type 0
  pub Failure : Type 0
  pub aborted : State → Bool
  pub reason : State → Failure
  pub read : String → Exec State Failure Value
  pub write : String → Value → Exec State Failure (Unit {0})
  pub delete : String → Exec State Failure (Unit {0})
  pub resolution : ℕ
  pub random : State → ℕ × State
  pub timer : ℕ → State → Bool × State

-- `RetryAttemptInfo`, without the name of the operation.
pub record AttemptInfo (w : World) : Type 0 where
  pub attempt : ℕ
  pub error : w.Failure
  pub next_delay : ℕ

pub record Retry (w : World) : Type 0 where
  pub max_retries : ℕ
  pub initial_delay : ℕ
  pub max_delay : ℕ
  pub factor : ℕ
  pub jitter : Bool
  pub retryable : w.Failure → Bool
  pub on_retry : AttemptInfo w → Exec w.State w.Failure (Unit {0})

-- `exhausted` is `RetryExhaustedError`, with its cause and the number of attempts.
pub data RetryError (E : Type 0) : Type 0 where
  raised : E → RetryError E
  exhausted : E → ℕ → RetryError E

module _ (w : World) where
  -- `throwIfAborted(signal)`
  abbrev pub throw_if_aborted : Exec w.State w.Failure (Unit {0})
  throw_if_aborted s = if w.aborted s then (thrown (w.reason s), s) else (ok tt, s)

  abbrev pub ticks : ℕ → ℕ
  ticks ms = ms * (2 * w.resolution)

  abbrev interrupted : Bool × w.State → Result w.Failure (Unit {0}) × w.State
  interrupted (true, s) = (thrown (w.reason s), s)
  interrupted (false, s) = (ok tt, s)

  -- `sleep`
  unfoldable pub sleep : ℕ → Exec w.State w.Failure (Unit {0})
  sleep delay s =
      if not (ltb 0 delay)
      then throw_if_aborted s
      else if w.aborted s
      then (thrown (w.reason s), s)
      else interrupted (w.timer delay s)

  -- `#transferFallback`
  unfoldable pub transfer_fallback : String → String → Bool → Exec w.State w.Failure (Unit {0})
  transfer_fallback key destination_key move = do
    value ← w.read key
    throw_if_aborted
    if key == destination_key then pure tt else (do
      w.write destination_key value
      throw_if_aborted
      if move then w.delete key else pure tt)

  module _ (r : Retry w) where
    -- `Math.min(grown, this.maxDelayMs)`
    unfoldable pub capped : ℕ → ℕ
    capped failed_attempt = min (r.initial_delay * r.factor ^ (failed_attempt - 1)) r.max_delay

    -- `#delayMs`, in ticks: half of the capped delay and a random part of the other half.
    unfoldable pub delay : ℕ → w.State → ℕ × w.State
    delay failed_attempt s =
        let c = capped failed_attempt in
        if r.jitter && ltb 0 c
        then (let (n, s') = w.random s in (c * w.resolution + n * c, s'))
        else (ticks c, s)

    module _ {A : Type 0} (fn : Exec w.State w.Failure A) where
      -- What follows a failed attempt that is tried again: the delay, `onRetry`, `sleep`.
      unfoldable pub pause : ℕ → w.Failure → Exec w.State w.Failure (Unit {0})
      pause attempt error s =
          let (d, s') = delay attempt s in
          continue (r.on_retry (record { attempt = attempt; error = error; next_delay = d }) s')
            (λ _. sleep d)

      -- Whether an attempt that failed ends the loop, and with what.
      unfoldable pub give_up : ℕ → w.Failure → w.State → Option (RetryError w.Failure)
      give_up attempt error s =
          if w.aborted s || not (r.retryable error)
          then some (raised error)
          else if leb (r.max_retries + 1) attempt
          then some (exhausted error attempt)
          else none

      abbrev pub Final : Type 0
      Final = Option (Result (RetryError w.Failure) A × w.State)

      abbrev pub after_pause : Result w.Failure (Unit {0}) × w.State → (w.State → Final) → Final
      after_pause (ok _, s) again = again s
      after_pause (thrown e, s) again = some (thrown (raised e), s)

      abbrev pub after_attempt : ℕ → Result w.Failure A × w.State → (w.State → Final) → Final
      after_attempt attempt (ok a, s) again = some (ok a, s)
      after_attempt attempt (thrown e, s) again = elim (give_up attempt e s) [
        | some error ↦ some (thrown error, s)
        | none ↦ after_pause (pause attempt e s) again
      ]

      -- A round of the loop of `#run`, and the loop; `none`: the fuel ran out.
      abbrev pub round : ℕ → w.State → (w.State → Final) → Final
      round attempt s again =
          if w.aborted s
          then some (thrown (raised (w.reason s)), s)
          else after_attempt attempt (fn s) again

      unfoldable pub run_from : ℕ → ℕ → w.State → Final
      run_from zero attempt s = none
      run_from (suc fuel) attempt s = round (attempt + 1) s (run_from fuel (attempt + 1))

      -- `#run`
      unfoldable pub run : w.State → Final
      run = run_from (r.max_retries + 1) 0

-- ===== src/Storage/Retry/Backoff.antt =====
-- How long the loop waits between two attempts.
use unikvs.Prelude.{ℕ, ◌+◌, ◌*◌, ◌≤◌, ◌<◌, arith, ◌&&◌, ltb, inl, inr, Bool-cases}
use native.Mathlib.Nat.{le_refl, le_trans}
use unikvs.Storage.Retry.{World, Retry, ticks, capped, delay}

module _ (w : World) (r : Retry w) where
  pub capped-le : (n : ℕ) → capped w r n ≤ r.max_delay
  unfolding capped
  capped-le n = omega arith

  jitter_bounds : (c d n : ℕ) → n < d → (c * d ≤ c * d + n * c) × (c * d + n * c ≤ c * (2 * d))
  jitter_bounds c d n h = (omega arith, grind arith)

  -- Whatever `Math.random` gives below 1, the delay is at most the capped one, which is at most
  -- `maxDelayMs`, and at least half of the capped one.
  pub delay_bounds :
      (n : ℕ) (s : w.State)
      → (w.random s).0 < w.resolution
      → (capped w r n * w.resolution ≤ (delay w r n s).0)
        × ((delay w r n s).0 ≤ ticks w (capped w r n))
        × ((delay w r n s).0 ≤ ticks w r.max_delay)
  unfolding delay
  delay_bounds n s h = elim (Bool-cases (r.jitter && ltb 0 c)) [
    | inl jittered ↦
        rw (jittered, delay)
          (
            (jitter_bounds c d (w.random s).0 h).0,
            (jitter_bounds c d (w.random s).0 h).1,
            le_trans (jitter_bounds c d (w.random s).0 h).1 (scaled (capped-le n)),
          )
    | inr plain ↦ rw (plain, delay) (grind arith, le_refl (c * (2 * d)), scaled (capped-le n))
  ]
    where
      c : ℕ
      c = capped w r n

      d : ℕ
      d = w.resolution

      scaled : {a b : ℕ} → a ≤ b → a * (2 * d) ≤ b * (2 * d)
      scaled k = grind arith

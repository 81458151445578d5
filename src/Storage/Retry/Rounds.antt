-- ===== src/Storage/Retry/Rounds.antt =====
-- The loop of `#run` as rows of failed rounds with an end.
use unikvs.Prelude.{ℕ, zero, suc, ◌+◌, ◌≤◌, ◌<◌, ◌≡◌, true, false, not, ◌||◌, some}
use unikvs.Prelude.Exec.{Result, ok, thrown, Exec}
use unikvs.Storage.Retry.{World, Retry, RetryError, raised, exhausted, pause, Final}

module _ (w : World) (r : Retry w) {A : Type 0} (fn : Exec w.State w.Failure A) where
  -- Rounds that failed and are followed by another, from an attempt count on.
  pub data Retried : ℕ → ℕ → w.State → w.State → Type 0 where
    no_round : {n : ℕ} {s : w.State} → Retried n zero s s
    again :
        {n k : ℕ} {s s₁ s₂ s₃ : w.State} {e : w.Failure}
        → w.aborted s ≡ false
        → fn s ≡ (thrown e, s₁)
        → w.aborted s₁ ≡ false
        → r.retryable e ≡ true
        → n < r.max_retries
        → pause w r fn (n + 1) e s₁ ≡ (ok tt, s₂)
        → Retried (n + 1) k s₂ s₃
        → Retried n (suc k) s s₃

  -- The round that ends the loop, after `n` others.
  pub data Ends (n : ℕ) (s : w.State) : Result (RetryError w.Failure) A × w.State → Type 0 where
    aborted_before : w.aborted s ≡ true → Ends n s (thrown (raised (w.reason s)), s)
    returned :
        {a : A} {s₁ : w.State} → w.aborted s ≡ false → fn s ≡ (ok a, s₁) → Ends n s (ok a, s₁)
    refused :
        {e : w.Failure} {s₁ : w.State}
        → fn s ≡ (thrown e, s₁)
        → (w.aborted s₁ || not (r.retryable e)) ≡ true
        → Ends n s (thrown (raised e), s₁)
    used_up :
        {e : w.Failure} {s₁ : w.State}
        → fn s ≡ (thrown e, s₁)
        → n ≡ r.max_retries
        → Ends n s (thrown (exhausted e (r.max_retries + 1)), s₁)
    pause_threw :
        {e e' : w.Failure} {s₁ s₂ : w.State}
        → fn s ≡ (thrown e, s₁)
        → pause w r fn (n + 1) e s₁ ≡ (thrown e', s₂)
        → Ends n s (thrown (raised e'), s₂)

  -- What a run comes to: some rounds that are tried again, and a last one.
  pub record Course (n : ℕ) (s : w.State) (o : Result (RetryError w.Failure) A × w.State)
      : Type 0 where
    pub rounds : ℕ
    pub last : w.State
    pub retried : Retried n rounds s last
    pub ends : Ends (n + rounds) last o
    pub few : n + rounds ≤ r.max_retries

  abbrev Finishes : ℕ → w.State → Final w r fn → Type 0
  Finishes n s final =
      (o : Result (RetryError w.Failure) A × w.State) × (final ≡ some o) × Course n s o

-- ===== src/Storage/LruCache/Calls.antt =====
-- Rows of calls of `LruCache`: what holds after them, whoever makes them.
use unikvs.Prelude.{
  ℕ, ◌≡◌, refl, sym, ◌∙◌, Bool, true, false, string_equality, List, [], ◌∷◌, arith, inl,
}
use unikvs.Prelude.Exec.{Result, ok, thrown}
use unikvs.Storage.{Values, Context}
use unikvs.Storage.Bytes.{merge}
use unikvs.Storage.LruCache.State.{LruCache, SizeOf}
use unikvs.Storage.LruCache.{
  open_storage, close_storage, clear, read, exists, delete_key, get_readable, write, get_writable,
  close_writable, write_chunk, pull,
}
use unikvs.Storage.LruCache.Written.{IsValid}
use unikvs.Storage.LruCache.Validity.{remove_entry-IsValid, touch-IsValid, has-nil}
use unikvs.Storage.LruCache.Outcomes.{
  Outcome, open_storage_cases, close_storage_cases, exists_cases, get_writable_cases, pull_cases,
  write_chunk_cases, read_cases, get_readable_cases, delete_key_cases, commit_cases, write_cases,
}

pub ok-injective : {E A : Type 0} {a b : A} → ◌≡◌ {A = Result E A} (ok a) (ok b) → a ≡ b
ok-injective h = cc

-- The calls of the users of a cache, and of the streams that they hold.
pub data Operation (v : Values) : Type 0 where
  opens closes clears reads checks deletes opens_writable opens_readable : Context → Operation v
  writes : Context → v.Value → Operation v
  pulls : Context → v.Value → Operation v
  writes_chunk : Context → List (List ℕ) → v.Value → Operation v
  ends : Context → List (List ℕ) → Operation v

abbrev forget : {v : Values} {A : Type 0} → Outcome v A → Outcome v (Unit {0})
forget (ok a, l) = (ok tt, l)
forget (thrown e, l) = (thrown e, l)

-- A call that returns leaves a valid cache, and one that throws leaves the cache as it was.
abbrev pub Safe : {v : Values} {A : Type 0} → LruCache v → Outcome v A → Type 0
Safe l (ok a, r) = IsValid r
Safe l (thrown e, r) = r ≡ l

Safe-forget :
    {v : Values} {A : Type 0} (l : LruCache v) (o : Outcome v A) → Safe l o → Safe l (forget o)
Safe-forget l (ok a, r) h = h
Safe-forget l (thrown e, r) h = h

module _ {v : Values} (size_of : SizeOf v) where
  unfoldable pub step : Operation v → LruCache v → Outcome v (Unit {0})
  step (opens c) l = open_storage v c l
  step (closes c) l = close_storage v c l
  step (clears c) l = clear v c l
  step (reads c) l = forget (read v c l)
  step (checks c) l = forget (exists v c l)
  step (deletes c) l = delete_key v c l
  step (opens_writable c) l = forget (get_writable v c l)
  step (opens_readable c) l = forget (get_readable v c l)
  step (writes c x) l = write v size_of c x l
  step (pulls c x) l = forget (pull v c x l)
  step (writes_chunk c chunks x) l = forget (write_chunk v c chunks x l)
  step (ends c chunks) l = close_writable v size_of c chunks l

  unfoldable pub run : List (Operation v) → LruCache v → LruCache v
  unfolding step
  run [] l = l
  run (o ∷ os) l = run os (step o l).1

module _ (v : Values) where
  pub emptied-IsValid :
      (l : LruCache v) (opened : Bool)
      → IsValid (record l { entries = []; sizes = []; total_bytes = 0; opened = opened })
  emptied-IsValid l opened = record {
    tracked = record {
      unique_entries = tt;
      unique_sizes = tt;
      summed = refl;
      measured = λ b k j. has-nil ℕ j ∙ sym (has-nil v.Value j);
      unmeasured = λ k. refl;
    };
    few = λ n k. omega arith;
    small = λ b k. inl (omega arith);
  }

  opened-IsValid : (l : LruCache v) → IsValid l → IsValid (record l { opened = true })
  opened-IsValid l h = record {
    tracked = record {
      unique_entries = h.tracked.unique_entries;
      unique_sizes = h.tracked.unique_sizes;
      summed = h.tracked.summed;
      measured = h.tracked.measured;
      unmeasured = h.tracked.unmeasured;
    };
    few = h.few;
    small = h.small;
  }

module _ (v : Values) (size_of : SizeOf v) where
  -- Every call of a valid cache either returns and leaves it valid, or throws and leaves it as it was.
  pub step-Safe : (o : Operation v) (l : LruCache v) → IsValid l → Safe l (step size_of o l)
  unfolding step clear close_writable
  step-Safe (opens c) l h = open_storage_cases v c l (Safe l) (λ e. refl) h (opened-IsValid v l h)
  step-Safe (closes c) l h =
      close_storage_cases v c l (Safe l) (λ e. refl) (emptied-IsValid v l false)
  step-Safe (clears c) l h = emptied-IsValid v l l.opened
  step-Safe (reads c) l h = Safe-forget l (read v c l) (
      read_cases v c l (Safe l) (λ e. refl)
        (λ value cloned found. touch-IsValid c.key value l found h))
  step-Safe (checks c) l h =
      Safe-forget l (exists v c l) (exists_cases v c l (Safe l) (λ e. refl) h)
  step-Safe (deletes c) l h =
      delete_key_cases v c l (Safe l) (λ e. refl) (remove_entry-IsValid c.key l h)
  step-Safe (opens_writable c) l h =
      Safe-forget l (get_writable v c l) (get_writable_cases v c l (Safe l) (λ e. refl) h)
  step-Safe (opens_readable c) l h = Safe-forget l (get_readable v c l) (
      get_readable_cases v c l (Safe l) (λ e. refl)
        (λ value found. touch-IsValid c.key value l found h))
  step-Safe (writes c x) l h =
      write_cases v size_of l h (Safe l) c x (λ e. refl) (λ stored r m done. done.valid)
  step-Safe (pulls c x) l h =
      Safe-forget l (pull v c x l) (pull_cases v c l (Safe l) x (λ e. refl) (λ bytes. h))
  step-Safe (writes_chunk c chunks x) l h =
      Safe-forget l (write_chunk v c chunks x l)
        (write_chunk_cases v c l (Safe l) chunks x (λ e. refl) (λ bytes. h))
  step-Safe (ends c chunks) l h =
      commit_cases v size_of l h (Safe l) c.key (v.of_bytes (merge chunks)) (λ e. refl)
        (λ r done. done.valid)

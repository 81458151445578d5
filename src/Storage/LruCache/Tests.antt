-- ===== src/Storage/LruCache/Tests.antt =====
-- A cache of two entries over numbers, and the theorems at it.
use unikvs.Prelude.{ℕ, ◌≡◌, refl, arith, true, false, none, some, List, [], ◌∷◌, String}
use unikvs.Prelude.Exec.{ok}
use unikvs.JsMap.{get, has, set, delete, first_key}
use unikvs.Storage.{Values, Context}
use unikvs.Storage.LruCache.{write, read, commit, open_storage}
use unikvs.Storage.LruCache.State.{
  LruCache, SizeOf, touch, store_measured, remove_entry, evict_if_needed, empty, remove_oldest,
  evict_entries, evict_bytes, limit_entries, limit_bytes,
}
use unikvs.Storage.LruCache.Written.{IsValid}
use unikvs.Storage.LruCache.Calls.{
  Operation, emptied-IsValid, opens, reads, writes, deletes, Safe, step, step-Safe, run,
}
use unikvs.Storage.LruCache.Recency.{Newest, write-Newest}

-- Values are numbers, which are cloned as they are and are no byte arrays.
abbrev numbers : Values
numbers = record {
  Value = ℕ;
  Failure = ℕ;
  clone = λ n. ok n;
  clone_bytes = λ bytes. ok bytes;
  as_bytes = λ n. none;
  of_bytes = λ bytes. 0;
}

abbrev own_size : SizeOf numbers
own_size n key = ok (some n)

abbrev at : String → Context
at key = record { key = key; aborted = false }

abbrev small : LruCache numbers
small = record (empty numbers (some 2) (some 10)) { opened = true }

abbrev calls : List (Operation numbers)
calls =
    opens (at "a") ∷ writes (at "a") 3 ∷ writes (at "b") 4 ∷ reads (at "a") ∷ writes (at "c") 5 ∷ []

-- `a` was read, so `b` is the oldest entry when `c` is one too many.
evicts_b :
    (run own_size calls (empty numbers (some 2) (some 10))).entries ≡ ("a", 3) ∷ ("c", 5) ∷ []
unfolding run commit write read open_storage touch store_measured evict_if_needed limit_entries
    limit_bytes evict_entries evict_bytes remove_oldest remove_entry get has set delete first_key
evicts_b = refl

small-IsValid : IsValid small
small-IsValid = emptied-IsValid numbers (empty numbers (some 2) (some 10)) true

step-Safe_example : Safe small (step own_size (deletes (at "a")) small)
step-Safe_example = step-Safe numbers own_size (deletes (at "a")) small small-IsValid

write-Newest_example :
    (r : LruCache numbers) × (write numbers own_size (at "a") 12 small ≡ (ok tt, r))
    × Newest "a" 12 small r
write-Newest_example =
    write-Newest numbers own_size (at "a") 12 12 12 small small-IsValid (λ h. ground arith) refl
      refl refl refl

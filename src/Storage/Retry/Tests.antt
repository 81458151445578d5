-- ===== src/Storage/Retry/Tests.antt =====
-- The theorems about the retry storage over a map whose next writes fail.
use unikvs.Prelude.{
  ℕ, zero, suc, ◌≤◌, ◌*◌, ◌≡◌, ◌≢◌, refl, true, false, String, string_equality, Option, none, some,
  [], ◌∷◌, arith, nat_beq, ◌==◌, eq_iff, ◌⊎◌,
}
use unikvs.Prelude.Exec.{Result, ok, thrown}
use unikvs.JsMap.{JsMap, get, set, delete}
use unikvs.JsMap.Laws.{get-set, get-delete}
use unikvs.Storage.Retry.{
  World, Retry, exhausted, run_from, give_up, pause, sleep, run, delay, ticks, capped,
  transfer_fallback,
}
use unikvs.Storage.Retry.Backoff.{delay_bounds}
use unikvs.Storage.Retry.Transfer.{IsMap, transfer_keeps, transfer_done}

-- The entries, and how many writes fail before one succeeds.
record Disk : Type 0 where
  entries : JsMap String ℕ
  faults : ℕ

abbrev entry : Disk → String → Option ℕ
entry s k = get k s.entries

abbrev found : Option ℕ → Disk → Result ℕ ℕ × Disk
found none s = (thrown 404, s)
found (some x) s = (ok x, s)

abbrev put : String → ℕ → ℕ → JsMap String ℕ → Result ℕ (Unit {0}) × Disk
put k x zero m = (ok tt, record { entries = set k x m; faults = 0 })
put k x (suc n) m = (thrown 503, record { entries = m; faults = n })

abbrev disk : World
disk = record {
  State = Disk;
  Value = ℕ;
  Failure = ℕ;
  aborted = λ s. false;
  reason = λ s. 0;
  read = λ k s. found (entry s k) s;
  write = λ k x s. put k x s.faults s.entries;
  delete = λ k s. (ok tt, record { entries = delete k s.entries; faults = s.faults });
  resolution = 8;
  random = λ s. (3, s);
  timer = λ d s. (false, s);
}

abbrev retry : Retry disk
retry = record {
  max_retries = 2;
  initial_delay = 10;
  max_delay = 15;
  factor = 2;
  jitter = true;
  retryable = λ e. nat_beq e 503;
  on_retry = λ info s. (ok tt, s);
}

abbrev faulty : ℕ → Disk
faulty n = record { entries = ("a", 7) ∷ []; faults = n }

disk-IsMap : IsMap disk entry
disk-IsMap = record {
  read_entry = λ k s x. found_lem (entry s k) s x;
  read_same = λ k j s. found_same (entry s k) s j;
  write_entry = λ k x s. put_lem k x s.faults s.entries;
  write_other = λ k j x s. put_other k j x s.faults s.entries;
  delete_entry = λ k s h. ground (arith, get-delete k k s.entries, eq_iff k k);
  delete_other = λ k j s h. ground (arith, get-delete k j s.entries, eq_iff k j);
}
  where
    found_lem : (o : Option ℕ) (s : Disk) (x : ℕ) → (found o s).0 ≡ ok x → o ≡ some x
    found_lem none s x h = absurd (ground arith)
    found_lem (some y) s x h = ground arith

    found_same : (o : Option ℕ) (s : Disk) (j : String) → entry (found o s).1 j ≡ entry s j
    found_same none s j = refl
    found_same (some y) s j = refl

    put_lem :
        (k : String) (x n : ℕ) (m : JsMap String ℕ)
        → (put k x n m).0 ≡ ok tt
        → entry (put k x n m).1 k ≡ some x
    put_lem k x zero m h = ground (arith, get-set k k x m, eq_iff k k)
    put_lem k x (suc n) m h = absurd (ground arith)

    put_other :
        (k j : String) (x n : ℕ) (m : JsMap String ℕ) → k ≢ j → entry (put k x n m).1 j ≡ get j m
    put_other k j x zero m h = ground (arith, get-set k j x m, eq_iff k j)
    put_other k j x (suc n) m h = refl

-- Two writes fail and the third succeeds; three that fail use the attempts up.
third_attempt :
    run disk retry (disk.write "b" 1) (faulty 2)
    ≡ some (ok tt, record { entries = ("a", 7) ∷ ("b", 1) ∷ []; faults = 0 })
unfolding run run_from give_up pause delay capped sleep set
third_attempt = refl

used_up_attempts :
    run disk retry (disk.write "b" 1) (faulty 3) ≡ some (thrown (exhausted 503 3), faulty 0)
unfolding run run_from give_up pause delay capped sleep
used_up_attempts = refl

delay_bounds_example :
    (capped disk retry 2 * 8 ≤ (delay disk retry 2 (faulty 1)).0)
    × ((delay disk retry 2 (faulty 1)).0 ≤ ticks disk (capped disk retry 2))
    × ((delay disk retry 2 (faulty 1)).0 ≤ ticks disk 15)
delay_bounds_example = delay_bounds disk retry 2 (faulty 1) (omega arith)

a_is : (n : ℕ) → entry (faulty n) "a" ≡ some 7
unfolding get
a_is n = refl

abbrev source_key : String
source_key = "a"

apart : source_key ≢ "b"
apart h =
    let same : (source_key == "b") ≡ true = (eq_iff source_key "b").1 h in ground (arith, same)

transfer_keeps_example :
    (entry (transfer_fallback disk "a" "b" true (faulty 1)).1 "a" ≡ some 7)
    ⊎ (entry (transfer_fallback disk "a" "b" true (faulty 1)).1 "b" ≡ some 7)
transfer_keeps_example =
    transfer_keeps disk entry disk-IsMap "a" "b" true (faulty 1) 7 apart (a_is 1)

moved : (transfer_fallback disk "a" "b" true (faulty 0)).0 ≡ ok tt
unfolding transfer_fallback get
moved = refl

transfer_done_example :
    (entry (transfer_fallback disk "a" "b" true (faulty 0)).1 "b" ≡ some 7)
    × (entry (transfer_fallback disk "a" "b" true (faulty 0)).1 "a" ≡ none)
transfer_done_example =
    transfer_done disk entry disk-IsMap "a" "b" true (faulty 0) 7 apart (a_is 0) moved

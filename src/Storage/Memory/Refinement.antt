-- ===== src/Storage/Memory/Refinement.antt =====
-- The memory storage keeps its promise.
use unikvs.Prelude.{
  ℕ, true, false, String, string_equality, none, some, List, [], ◌∷◌, ◌≡◌, refl, ap, ◌∙◌, arith,
  flatten, Option-cases, inl, inr,
}
use unikvs.Prelude.Exec.{Result, Result-cases, ok, thrown, continue}
use unikvs.JsMap.{get, has, set, delete}
use unikvs.JsMap.Laws.{is_some, has-eq-is_some, get-set, get-delete}
use unikvs.Storage.{Values, Context, StorageError}
use unikvs.Storage.Bytes.{merge, merge-eq-flatten}
use unikvs.Storage.Memory.{
  Memory, write, read, exists, delete_key, clear, write_stream, read_stream, write_all,
  close_writable, get_readable, pull,
}
use unikvs.Storage.Memory.Calls.{
  Call, write_call, read_call, exists_call, delete_call, clear_call, read_stream_call,
  write_stream_call, done, present, Reply, answer, step, run,
}
use unikvs.Storage.Memory.Promise.{Entries, update, promise, run_promise, stream, store, joined}
use unikvs.Storage.Memory.Chunks.{collected, flattened, write_all_lem}

module _ (v : Values) where
  -- The storage's map as a function: its order is forgotten.
  abbrev pub view : Memory v → Entries v
  view m k = get k m

  abbrev seen : Reply v × Memory v → Reply v × Entries v
  seen (r, m) = (r, view m)

  view-set :
      (k : String) (x : v.Value) (m : Memory v) → view (set k x m) ≡ update v k (some x) (view m)
  view-set k x m i j = get-set k j x m i

  view-delete : (k : String) (m : Memory v) → view (delete k m) ≡ update v k none (view m)
  view-delete k m i j = get-delete k j m i

  Refines : Call v → Memory v → Type 0
  Refines call m = seen (step v call m) ≡ promise v call (view m)

  write-Refines : (c : Context) (x : v.Value) (m : Memory v) → Refines (write_call c x) m
  unfolding step promise write Refines
  write-Refines c x m = elim (Result-cases (v.clone x)) [
    | inl (e, p) ↦ rw (p, step, promise, write) refl
    | inr (y, p) ↦ rw (p, step, promise, write) (ap (λ f. (ok done, f)) (view-set c.key y m))
  ]

  read-Refines : (c : Context) (m : Memory v) → Refines (read_call c) m
  unfolding step promise read Refines
  read-Refines c m = elim (Option-cases (get c.key m)) [
    | inl p ↦ rw (p, step, promise, read) refl
    | inr (x, p) ↦ elim (Result-cases (v.clone x)) [
      | inl (e, q) ↦ rw (p, q, step, promise, read) refl
      | inr (y, q) ↦ rw (p, q, step, promise, read) refl
    ]
  ]

  exists-Refines : (c : Context) (m : Memory v) → Refines (exists_call c) m
  unfolding step promise exists Refines
  exists-Refines c m = ap (λ b. (ok (present b), view m)) (has-eq-is_some c.key m)

  delete-Refines : (c : Context) (m : Memory v) → Refines (delete_call c) m
  unfolding step promise delete_key Refines
  delete-Refines c m = elim (Option-cases (get c.key m)) [
    | inl p ↦
        let absent : has c.key m ≡ false = has-eq-is_some c.key m ∙ ap is_some p in
        rw (p, absent, step, promise, delete_key) refl
    | inr (x, p) ↦
        let there : has c.key m ≡ true = has-eq-is_some c.key m ∙ ap is_some p in
        rw (p, there, step, promise, delete_key) (ap (λ f. (ok done, f)) (view-delete c.key m))
  ]

  read_stream-Refines : (c : Context) (m : Memory v) → Refines (read_stream_call c) m
  unfolding step promise read_stream get_readable pull Refines
  read_stream-Refines c m = elim (Option-cases (get c.key m)) [
    | inl p ↦ rw (p, step, promise, read_stream, get_readable) refl
    | inr (x, p) ↦ elim (Option-cases (v.as_bytes x)) [
      | inl q ↦ rw (p, q, step, promise, read_stream, get_readable, pull) refl
      | inr (b, q) ↦ elim (Result-cases (v.clone_bytes b)) [
        | inl (e, t) ↦ rw (p, q, t, step, promise, read_stream, get_readable, pull, stream) refl
        | inr (y, t) ↦ rw (p, q, t, step, promise, read_stream, get_readable, pull, stream) refl
      ]
    ]
  ]

  close_lem :
      (c : Context) (m : Memory v) (o : Result (StorageError v.Failure) (List (List ℕ)) × Memory v)
      (j : Result (StorageError v.Failure) (List ℕ))
      → flattened v o ≡ (collected v [] j, m)
      → seen (answer v (λ _. done) (continue o (close_writable v c))) ≡ store v c.key j (view m)
  unfolding close_writable
  close_lem c m (ok chunks, m') (ok b) h =
      let same : flatten chunks ≡ b = ground (arith, h) in
      let kept : m' ≡ m = ap (λ r. r.1) h in
      ap (λ f. (ok done, f))
        (view-set c.key (v.of_bytes (merge chunks)) m'
          ∙ ap (λ t. update v c.key (some (v.of_bytes t)) (view m'))
              (merge-eq-flatten chunks ∙ same)
          ∙ ap (λ t. update v c.key (some (v.of_bytes b)) (view t)) kept)
  close_lem c m (thrown e, m') (thrown e') h =
      let same : e ≡ e' = ground (arith, h) in
      let kept : m' ≡ m = ap (λ r. r.1) h in
      ap (λ x. (thrown x, view m')) same ∙ ap (λ t. (thrown e', view t)) kept
  close_lem c m (ok chunks, m') (thrown e') h = absurd (ground (arith, h))
  close_lem c m (thrown e, m') (ok b) h = absurd (ground (arith, h))

  write_stream-Refines :
      (c : Context) (xs : List v.Value) (m : Memory v) → Refines (write_stream_call c xs) m
  unfolding step promise write_stream Refines
  write_stream-Refines c xs m =
      close_lem c m (write_all v c [] xs m) (joined v c.key xs) (write_all_lem v c xs [] m)

  -- Every call answers as a plain map from keys to clones would, errors included, and leaves the
  -- entries of that map; a written stream is the concatenation of its chunks.
  pub step-Refines : (call : Call v) (m : Memory v) → seen (step v call m) ≡ promise v call (view m)
  unfolding step promise clear get Refines
  step-Refines (write_call c x) m = write-Refines c x m
  step-Refines (read_call c) m = read-Refines c m
  step-Refines (exists_call c) m = exists-Refines c m
  step-Refines (delete_call c) m = delete-Refines c m
  step-Refines (clear_call c) m = refl
  step-Refines (write_stream_call c xs) m = write_stream-Refines c xs m
  step-Refines (read_stream_call c) m = read_stream-Refines c m

  -- A memory storage answers any row of calls as a plain map from keys to clones does, errors
  -- included: the order of its entries is never seen.
  pub run-eq-run_promise :
      (calls : List (Call v)) (m : Memory v) → run v calls m ≡ run_promise v calls (view m)
  unfolding run run_promise
  run-eq-run_promise [] m = refl
  run-eq-run_promise (call ∷ calls) m =
      ap (λ r. r ∷ run v calls (step v call m).1) (ap (λ o. o.0) (step-Refines call m))
      ∙ ap (λ t. (promise v call (view m)).0 ∷ t)
          (run-eq-run_promise calls (step v call m).1
            ∙ ap (run_promise v calls) (ap (λ o. o.1) (step-Refines call m)))

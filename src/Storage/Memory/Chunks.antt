-- ===== src/Storage/Memory/Chunks.antt =====
-- What a writable stream of the memory storage collects.
use unikvs.Prelude.{
  ℕ, string_equality, List, [], ◌∷◌, ◌++◌, ◌≡◌, refl, sym, ap, ◌∙◌, flatten, append_assoc,
  flatten-append, append-nil, Option-cases, inl, inr,
}
use unikvs.Prelude.Exec.{Result, Result-cases, ok, thrown}
use unikvs.Storage.{Values, Context, StorageError}
use unikvs.Storage.Memory.{Memory, write_chunk, write_all}
use unikvs.Storage.Memory.Promise.{joined, prepend}

module _ (v : Values) where
  -- The chunks that a stream has taken, joined after those it had.
  abbrev pub collected :
      List (List ℕ)
      → Result (StorageError v.Failure) (List ℕ)
      → Result (StorageError v.Failure) (List ℕ)
  collected chunks (ok b) = ok (flatten chunks ++ b)
  collected chunks (thrown e) = thrown e

  abbrev pub flattened :
      Result (StorageError v.Failure) (List (List ℕ)) × Memory v
      → Result (StorageError v.Failure) (List ℕ) × Memory v
  flattened (ok chunks, m) = (ok (flatten chunks), m)
  flattened (thrown e, m) = (thrown e, m)

  collected_snoc :
      (chunks : List (List ℕ)) (y : List ℕ) (r : Result (StorageError v.Failure) (List ℕ))
      → collected (chunks ++ y ∷ []) r ≡ collected chunks (prepend v y r)
  collected_snoc chunks y (thrown e) = refl
  collected_snoc chunks y (ok b) = ap ok (
      ap (λ t. t ++ b)
        (flatten-append chunks (y ∷ []) ∙ ap (λ t. flatten chunks ++ t) (append-nil y))
      ∙ append_assoc (flatten chunks) y b)

  pub write_all_lem :
      (c : Context) (xs : List v.Value) (chunks : List (List ℕ)) (m : Memory v)
      → flattened (write_all v c chunks xs m) ≡ (collected chunks (joined v c.key xs), m)
  unfolding write_all write_chunk
  write_all_lem c [] chunks m = ap (λ b. (ok b, m)) (sym (append-nil (flatten chunks)))
  write_all_lem c (x ∷ xs) chunks m = elim (Option-cases (v.as_bytes x)) [
    | inl q ↦ rw (q, write_chunk, joined) refl
    | inr (b, q) ↦ elim (Result-cases (v.clone_bytes b)) [
      | inl (e, t) ↦ rw (q, t, write_chunk, joined) refl
      | inr (y, t) ↦
          rw (q, t, write_chunk, joined)
            (write_all_lem c xs (chunks ++ y ∷ []) m
              ∙ ap (λ r. (r, m)) (collected_snoc chunks y (joined v c.key xs)))
    ]
  ]

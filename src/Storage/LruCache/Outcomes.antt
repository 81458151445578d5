-- ===== src/Storage/LruCache/Outcomes.antt =====
-- How the methods of `LruCache` that change its maps can end.
use unikvs.Prelude.{
  ℕ, ◌≡◌, Bool, true, false, String, string_equality, none, some, List, [], ◌∷◌, ◌++◌, arith, inl,
  inr, Option-cases,
}
use unikvs.Prelude.Exec.{Result, ok, thrown, Result-cases}
use unikvs.JsMap.{get, has}
use unikvs.Storage.{
  Values, Context, StorageError, aborted, not_open, key_not_found, failed, invalid_size_of_result,
  invalid_chunk_type,
}
use unikvs.Storage.LruCache.State.{
  LruCache, SizeOf, touch, remove_entry, store_measured, store_plain, evict_if_needed,
}
use unikvs.Storage.LruCache.{
  open_storage, close_storage, read, exists, delete_key, get_readable, commit, write, get_writable,
  write_chunk, pull,
}
use unikvs.Storage.LruCache.Written.{IsValid}
use unikvs.Storage.LruCache.Committed.{Committed, store_plain-Committed, store_measured-Committed}

module _ (v : Values) where
  abbrev pub Outcome : Type 0 → Type 0
  Outcome A = Result (StorageError v.Failure) A × LruCache v

  module _ (c : Context) (l : LruCache v) where
    pub read_cases :
        (P : Outcome v.Value → Type 0)
        → ((e : StorageError v.Failure) → P (thrown e, l))
        → ((value cloned : v.Value)
            → get c.key l.entries ≡ some value
            → P (ok cloned, touch c.key value l))
        → P (read v c l)
    unfolding read
    read_cases P bad found = elim (Option-cases (get c.key l.entries)) [
      | inl missing ↦ ground (arith, bad aborted, bad not_open, bad (key_not_found c.key))
      | inr (value, there) ↦ elim (Result-cases (v.clone value)) [
        | inl (e, h) ↦ ground (arith, bad aborted, bad not_open, bad (failed e))
        | inr (cloned, h) ↦ ground (arith, bad aborted, bad not_open, found value cloned there)
      ]
    ]

    pub get_readable_cases :
        (P : Outcome v.Value → Type 0)
        → ((e : StorageError v.Failure) → P (thrown e, l))
        → ((value : v.Value) → get c.key l.entries ≡ some value → P (ok value, touch c.key value l))
        → P (get_readable v c l)
    unfolding get_readable
    get_readable_cases P bad found = elim (Option-cases (get c.key l.entries)) [
      | inl missing ↦ ground (arith, bad aborted, bad not_open, bad (key_not_found c.key))
      | inr (value, there) ↦ ground (arith, bad aborted, bad not_open, found value there)
    ]

    pub delete_key_cases :
        (P : Outcome (Unit {0}) → Type 0)
        → ((e : StorageError v.Failure) → P (thrown e, l))
        → P (ok tt, remove_entry c.key l)
        → P (delete_key v c l)
    unfolding delete_key
    delete_key_cases P bad gone =
        ground (arith, bad aborted, bad not_open, bad (key_not_found c.key))

    pub open_storage_cases :
        (P : Outcome (Unit {0}) → Type 0)
        → ((e : StorageError v.Failure) → P (thrown e, l))
        → P (ok tt, l)
        → P (ok tt, record l { opened = true })
        → P (open_storage v c l)
    unfolding open_storage
    open_storage_cases P bad same opened = ground (arith, bad aborted)

    pub close_storage_cases :
        (P : Outcome (Unit {0}) → Type 0)
        → ((e : StorageError v.Failure) → P (thrown e, l))
        → P (ok tt, record l { entries = []; sizes = []; total_bytes = 0; opened = false })
        → P (close_storage v c l)
    unfolding close_storage
    close_storage_cases P bad closed = ground (arith, bad aborted)

    pub exists_cases :
        (P : Outcome Bool → Type 0)
        → ((e : StorageError v.Failure) → P (thrown e, l))
        → P (ok (has c.key l.entries), l)
        → P (exists v c l)
    unfolding exists
    exists_cases P bad done = ground (arith, bad aborted, bad not_open)

    pub get_writable_cases :
        (P : Outcome (List (List ℕ)) → Type 0)
        → ((e : StorageError v.Failure) → P (thrown e, l))
        → P (ok [], l)
        → P (get_writable v c l)
    unfolding get_writable
    get_writable_cases P bad done = ground (arith, bad aborted, bad not_open)

    pub pull_cases :
        (P : Outcome (List ℕ) → Type 0) (value : v.Value)
        → ((e : StorageError v.Failure) → P (thrown e, l))
        → ((bytes : List ℕ) → P (ok bytes, l))
        → P (pull v c value l)
    unfolding pull
    pull_cases P value bad done = elim (Option-cases (v.as_bytes value)) [
      | inl other ↦ ground (arith, bad (invalid_chunk_type c.key))
      | inr (bytes, is_bytes) ↦ elim (Result-cases (v.clone_bytes bytes)) [
        | inl (e, h) ↦ ground (arith, bad (failed e))
        | inr (cloned, h) ↦ ground (arith, done cloned)
      ]
    ]

    pub write_chunk_cases :
        (P : Outcome (List (List ℕ)) → Type 0) (chunks : List (List ℕ)) (value : v.Value)
        → ((e : StorageError v.Failure) → P (thrown e, l))
        → ((bytes : List (List ℕ)) → P (ok bytes, l))
        → P (write_chunk v c chunks value l)
    unfolding write_chunk
    write_chunk_cases P chunks value bad done = elim (Option-cases (v.as_bytes value)) [
      | inl other ↦ ground (arith, bad (invalid_chunk_type c.key))
      | inr (bytes, is_bytes) ↦ elim (Result-cases (v.clone_bytes bytes)) [
        | inl (e, h) ↦ ground (arith, bad (failed e))
        | inr (cloned, h) ↦ ground (arith, done (chunks ++ cloned ∷ []))
      ]
    ]

  module _ (size_of : SizeOf v) (l : LruCache v) (h : IsValid l) where
    pub commit_cases :
        (P : Outcome (Unit {0}) → Type 0) (key : String) (value : v.Value)
        → ((e : StorageError v.Failure) → P (thrown e, l))
        → ((r : LruCache v) → Committed key value l r → P (ok tt, r))
        → P (commit v size_of key value l)
    unfolding commit
    commit_cases P key value bad done = elim (Option-cases l.max_bytes) [
      | inl free ↦ ground (
        arith,
        bad not_open,
        done (evict_if_needed key (store_plain key value l))
            (store_plain-Committed key value l free h),
      )
      | inr (b, limited) ↦ elim (Result-cases (size_of value key)) [
        | inl (e, m) ↦ ground (arith, bad not_open, bad (failed e))
        | inr (none, m) ↦ ground (arith, bad not_open, bad (invalid_size_of_result key))
        | inr (some size, m) ↦ ground (
          arith,
          bad not_open,
          done (evict_if_needed key (store_measured key value size l))
              (store_measured-Committed key value size l b limited h),
        )
      ]
    ]

    pub write_cases :
        (P : Outcome (Unit {0}) → Type 0) (c : Context) (value : v.Value)
        → ((e : StorageError v.Failure) → P (thrown e, l))
        → ((stored : v.Value) (r : LruCache v)
            → v.clone value ≡ ok stored
            → Committed c.key stored l r
            → P (ok tt, r))
        → P (write v size_of c value l)
    unfolding write
    write_cases P c value bad done = elim (Result-cases (v.clone value)) [
      | inl (e, m) ↦ ground (arith, bad aborted, bad not_open, bad (failed e))
      | inr (stored, m) ↦
          ground (
            arith,
            bad aborted,
            bad not_open,
            commit_cases P c.key stored bad (λ r. done stored r m),
          )
    ]

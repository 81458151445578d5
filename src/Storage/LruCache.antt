-- ===== src/Storage/LruCache.antt =====
-- packages/lru-cache/src/lru-cache.ts: a storage in memory with a limit on its entries and on the sum
-- of their sizes. A `Map` keeps its keys in order of insertion, so the oldest entry is its first.
--
-- Sizes and limits are whole numbers; `sizeOf` may also give what is no size (`none`), or throw.
pub mod State
pub mod Tracking
pub mod Eviction
pub mod Oversize
pub mod Written
pub mod Validity
pub mod Committed
pub mod Outcomes
pub mod Calls
pub mod Recency
mod Tests
use unikvs.Prelude.{
  ℕ, zero, suc, ◌+◌, Bool, true, false, not, String, string_equality, Option, none, some, List, [],
  ◌∷◌, ◌++◌, if◌then◌else◌,
}
use unikvs.Prelude.Exec.{Result, ok, thrown, Exec, continue, pure, throw, gets, modify, ◌>>=◌, ◌>>◌}
use unikvs.JsMap.{get, has, set, delete}
use unikvs.Storage.{
  Values, Context, StorageError, aborted, not_open, key_not_found, invalid_chunk_type,
  invalid_size_of_result, invalid_max_entries, invalid_max_bytes, require, lift,
}
use unikvs.Storage.Bytes.{merge}
use State.{
  LruCache, SizeOf, touch, store_measured, store_plain, remove_entry, evict_if_needed, empty,
}

-- An option of the constructor: a whole number, or what its test refuses.
pub data Given : Type 0 where
  whole : ℕ → Given
  refused : Given

module _ (v : Values) where
  abbrev pub Method : Type 0 → Type 0
  Method A = Exec (LruCache v) (StorageError v.Failure) A

  -- The constructor.
  unfoldable pub create : Option Given → Option Given → Result (StorageError v.Failure) (LruCache v)
  create (some refused) b = thrown invalid_max_entries
  create none (some refused) = thrown invalid_max_bytes
  create (some (whole n)) (some refused) = thrown invalid_max_bytes
  create none none = ok (empty v none none)
  create none (some (whole b)) = ok (empty v none (some b))
  create (some (whole n)) none = ok (empty v (some n) none)
  create (some (whole n)) (some (whole b)) = ok (empty v (some n) (some b))

  -- `c.signal.throwIfAborted()`
  abbrev throw_if_aborted : Context → Method (Unit {0})
  throw_if_aborted c = require (not c.aborted) aborted

  abbrev assert_open : Method (Unit {0})
  assert_open l = require l.opened not_open l

  unfoldable pub open_storage : Context → Method (Unit {0})
  open_storage c = do
    throw_if_aborted c
    modify (λ l. if l.opened then l else record l { opened = true })

  abbrev pub cleared : LruCache v → LruCache v
  cleared l = record l { entries = []; sizes = []; total_bytes = 0 }

  unfoldable pub close_storage : Context → Method (Unit {0})
  close_storage c = do
    throw_if_aborted c
    modify (λ l. record l { entries = []; sizes = []; total_bytes = 0; opened = false })

  unfoldable pub clear : Context → Method (Unit {0})
  clear c = modify cleared

  unfoldable pub read : Context → Method v.Value
  read c = do
    throw_if_aborted c
    assert_open
    found ← gets (λ l. get c.key l.entries)
    elim found [
      | none ↦ throw (key_not_found c.key)
      | some value ↦ do cloned ← lift (v.clone value); modify (touch c.key value); pure cloned
    ]

  unfoldable pub exists : Context → Method Bool
  exists c = do throw_if_aborted c; assert_open; gets (λ l. has c.key l.entries)

  unfoldable pub delete_key : Context → Method (Unit {0})
  delete_key c = do
    throw_if_aborted c
    assert_open
    present ← gets (λ l. has c.key l.entries)
    require present (key_not_found c.key)
    modify (remove_entry c.key)

  -- What `getReadable` hands to the stream: the entry becomes the newest at once, and the value is
  -- read when the stream is.
  unfoldable pub get_readable : Context → Method v.Value
  get_readable c = do
    throw_if_aborted c
    assert_open
    found ← gets (λ l. get c.key l.entries)
    elim found [
      | none ↦ throw (key_not_found c.key)
      | some value ↦ do modify (touch c.key value); pure value
    ]

  -- The stream's `pull`.
  unfoldable pub pull : Context → v.Value → Method (List ℕ)
  pull c value = elim (v.as_bytes value) [
    | none ↦ throw (invalid_chunk_type c.key)
    | some bytes ↦ do cloned ← lift (v.clone_bytes bytes); pure cloned
  ]

  -- `getWritable`: the checks of the call, then the chunks that the stream holds.
  unfoldable pub get_writable : Context → Method (List (List ℕ))
  get_writable c = do throw_if_aborted c; assert_open; pure []

  -- The stream's `write`.
  unfoldable pub write_chunk : Context → List (List ℕ) → v.Value → Method (List (List ℕ))
  write_chunk c chunks chunk = elim (v.as_bytes chunk) [
    | none ↦ throw (invalid_chunk_type c.key)
    | some bytes ↦ do cloned ← lift (v.clone_bytes bytes); pure (chunks ++ cloned ∷ [])
  ]

module _ (v : Values) (size_of : SizeOf v) where
  unfoldable pub commit : String → v.Value → Method v (Unit {0})
  commit key value = do
    assert_open v
    limit ← gets (λ l. l.max_bytes)
    elim limit [
      | none ↦ modify (λ l. evict_if_needed key (store_plain key value l))
      | some b ↦ do
        measured ← lift (size_of value key)
        elim measured [
          | none ↦ throw (invalid_size_of_result key)
          | some size ↦ modify (λ l. evict_if_needed key (store_measured key value size l))
        ]
    ]

  unfoldable pub write : Context → v.Value → Method v (Unit {0})
  write c value = do
    throw_if_aborted v c
    assert_open v
    stored ← lift (v.clone value)
    commit c.key stored

  -- The stream's `close`.
  unfoldable pub close_writable : Context → List (List ℕ) → Method v (Unit {0})
  close_writable c chunks = commit c.key (v.of_bytes (merge chunks))

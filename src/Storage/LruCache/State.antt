-- ===== src/Storage/LruCache/State.antt =====
-- The private state of `LruCache` and the private methods that change it: `#touch`, `#removeEntry`, the
-- two halves of `#commit`, and `#evictIfNeeded`.
use unikvs.Prelude.{
  ℕ, zero, suc, ◌+◌, ◌-◌, Bool, false, String, string_equality, Option, none, some, [], ltb,
  if◌then◌else◌, length, ◌==◌,
}
use unikvs.Prelude.Exec.{Result}
use unikvs.JsMap.{JsMap, get, has, set, delete, first_key}
use unikvs.Storage.{Values}

-- `maxEntries`, `maxBytes`, `#map`, `#sizes`, `#totalBytes`, `#opened`.
pub record LruCache (v : Values) : Type 0 where
  pub max_entries : Option ℕ
  pub max_bytes : Option ℕ
  pub entries : JsMap String v.Value
  pub sizes : JsMap String ℕ
  pub total_bytes : ℕ
  pub opened : Bool

abbrev pub SizeOf : Values → Type 0
SizeOf v = v.Value → String → Result v.Failure (Option ℕ)

abbrev pub empty : (v : Values) → Option ℕ → Option ℕ → LruCache v
empty v n b = record {
  max_entries = n;
  max_bytes = b;
  entries = [];
  sizes = [];
  total_bytes = 0;
  opened = false;
}

module _ {v : Values} where
  -- `#touch`, of the value that the map holds.
  unfoldable pub touch : String → v.Value → LruCache v → LruCache v
  touch key value l = record l { entries = set key value (delete key l.entries) }

  -- `#removeEntry`
  unfoldable pub remove_entry : String → LruCache v → LruCache v
  remove_entry key l = elim (get key l.sizes) [
    | none ↦ record l { entries = delete key l.entries }
    | some size ↦ record l {
      entries = delete key l.entries;
      sizes = delete key l.sizes;
      total_bytes = l.total_bytes - size;
    }
  ]

  -- `#commit` under a limit on the bytes, up to the eviction.
  unfoldable pub store_measured : String → v.Value → ℕ → LruCache v → LruCache v
  unfolding remove_entry
  store_measured key value size l =
      let l' = if has key l.entries then remove_entry key l else l in
      record l' {
        entries = set key value l'.entries;
        sizes = set key size l'.sizes;
        total_bytes = l'.total_bytes + size;
      }

  -- `#commit` without it.
  unfoldable pub store_plain : String → v.Value → LruCache v → LruCache v
  store_plain key value l =
      let entries' = if has key l.entries then delete key l.entries else l.entries in
      record l { entries = set key value entries' }

  -- One round of a loop of `#evictIfNeeded`; `keys().next()` of an empty map gives no key.
  unfoldable pub remove_oldest : LruCache v → LruCache v
  unfolding remove_entry
  remove_oldest l = elim (first_key l.entries) [ none ↦ l | some oldest ↦ remove_entry oldest l ]

  -- `while (this.#map.size > this.maxEntries)`
  unfoldable pub evict_entries : ℕ → ℕ → LruCache v → LruCache v
  evict_entries zero limit l = l
  evict_entries (suc fuel) limit l =
      let rest = evict_entries fuel limit (remove_oldest l) in
      if ltb limit (length l.entries) then rest else l

  abbrev pub is_oldest : String → LruCache v → Bool
  is_oldest key l = elim (first_key l.entries) [ none ↦ false | some oldest ↦ oldest == key ]

  -- `while (this.#totalBytes > this.maxBytes)`, with its `break`.
  unfoldable pub evict_bytes : ℕ → ℕ → String → LruCache v → LruCache v
  evict_bytes zero limit just_written l = l
  evict_bytes (suc fuel) limit just_written l =
      let rest = evict_bytes fuel limit just_written (remove_oldest l) in
      if ltb limit l.total_bytes then (if is_oldest just_written l then l else rest) else l

  unfoldable pub limit_entries : String → LruCache v → LruCache v
  limit_entries just_written l = elim l.max_entries [
    | none ↦ l
    | some zero ↦ remove_entry just_written l
    | some (suc n) ↦ evict_entries (length l.entries) (suc n) l
  ]

  unfoldable pub limit_bytes : String → LruCache v → LruCache v
  limit_bytes just_written l = elim l.max_bytes [
    | none ↦ l
    | some b ↦ evict_bytes (length l.entries) b just_written l
  ]

  -- `#evictIfNeeded`
  unfoldable pub evict_if_needed : String → LruCache v → LruCache v
  evict_if_needed just_written l = limit_bytes just_written (limit_entries just_written l)

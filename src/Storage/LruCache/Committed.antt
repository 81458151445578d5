-- ===== src/Storage/LruCache/Committed.antt =====
-- `#commit`, after its checks: the value becomes the newest entry, and the limits are kept.
use unikvs.Prelude.{
  ℕ, zero, suc, ◌≡◌, ◌⊎◌, refl, sym, ap, subst, ◌∙◌, String, string_equality, Option, none, some,
  [], ◌∷◌, length, arith, inl, inr, Option-cases,
}
use unikvs.JsMap.{delete, IsUnique}
use unikvs.JsMap.Order.{delete_first}
use unikvs.Storage.{Values}
use unikvs.Storage.LruCache.State.{
  LruCache, remove_entry, evict_bytes, limit_bytes, evict_if_needed,
}
use unikvs.Storage.LruCache.Tracking.{IsTracked, remove_entry-eq-without}
use unikvs.Prelude.{◌≢◌}
use unikvs.Storage.LruCache.Tracking.{remove_entry-IsTracked}
use unikvs.Storage.LruCache.Eviction.{SameOptions, SameOptions-trans, remove_entry-SameOptions}
use unikvs.JsMap.Order.{length-delete-le}
use unikvs.Storage.LruCache.State.{store_measured, store_plain}
use unikvs.Storage.LruCache.Tracking.{
  stored, appended, store_measured-eq-stored, stored-IsTracked, store_plain-eq-appended,
  appended-IsTracked,
}
use unikvs.Storage.LruCache.Written.{
  IsValid, newest, Kept, evict_if_needed-IsValid, limit_entries-zero,
}
use unikvs.Storage.LruCache.Written.{limit_bytes-none, limit_bytes-some}
use unikvs.Storage.LruCache.Validity.{IsTracked-empty, entries_nil}

zero-or-ne : (o : Option ℕ) → (o ≡ some 0) ⊎ (o ≢ some 0)
zero-or-ne none = inr (λ h. cc)
zero-or-ne (some zero) = inl refl
zero-or-ne (some (suc n)) = inr (λ h. ground arith)

module _ {v : Values} (key : String) (value : v.Value) where
  limit_bytes-empty : (l : LruCache v) → l.entries ≡ [] → limit_bytes key l ≡ l
  unfolding evict_bytes
  limit_bytes-empty l e = elim (Option-cases l.max_bytes) [
    | inl free ↦ limit_bytes-none key l free
    | inr (b, limited) ↦
        limit_bytes-some key l b limited ∙ ap (λ n. evict_bytes n b key l) (ap length e)
  ]

  -- With `maxEntries` 0 the entry that was just written goes again.
  evict_if_needed-zero :
      (l : LruCache v)
      → l.max_entries ≡ some 0
      → l.entries ≡ (key, value) ∷ []
      → IsTracked l
      → ((evict_if_needed key l).entries ≡ [])
        × IsTracked (evict_if_needed key l)
        × SameOptions l (evict_if_needed key l)
  unfolding evict_if_needed
  evict_if_needed-zero l z e t =
      let l' = remove_entry key l in
      let u = subst IsUnique e t.unique_entries in
      let gone : l'.entries ≡ [] =
        rw (remove_entry-eq-without key l t) (ap (delete key) e ∙ delete_first key value [] u) in
      rw (limit_entries-zero key l z, limit_bytes-empty l' gone)
        (gone, remove_entry-IsTracked key l t, remove_entry-SameOptions key l)

  -- What `#commit` leaves of a valid cache.
  pub record Committed (l r : LruCache v) : Type 0 where
    pub valid : IsValid r
    pub same : SameOptions l r
    pub kept : l.max_entries ≢ some 0 → Kept key value (delete key l.entries) r
    pub nothing : l.max_entries ≡ some 0 → r.entries ≡ []

  evict_if_needed-Committed :
      (l s : LruCache v)
      → IsValid l
      → SameOptions l s
      → s.entries ≡ newest key value (delete key l.entries)
      → IsTracked s
      → Committed l (evict_if_needed key s)
  evict_if_needed-Committed l s h same e t = elim (zero-or-ne l.max_entries) [
    | inl z ↦
        let none_left : delete key l.entries ≡ [] =
          let n = h.few 0 z in
          let d = length-delete-le key l.entries in
          entries_nil (delete key l.entries) (omega arith) in
        let (gone, tracked, same') =
          evict_if_needed-zero s (same.same_entries ∙ z) (e ∙ ap (newest key value) none_left) t in
        record {
          valid = record {
            tracked = tracked;
            few = λ n k. rw gone (omega arith);
            small = λ b k.
                inl (rw (IsTracked-empty (evict_if_needed key s) tracked gone) (omega arith));
          };
          same = SameOptions-trans same same';
          kept = λ nonzero. absurd (nonzero z);
          nothing = λ k. gone;
        }
    | inr nonzero ↦
        let (kept, valid, same') =
          evict_if_needed-IsValid key value (delete key l.entries) s
            (λ k. nonzero (sym same.same_entries ∙ k)) e t in
        record {
          valid = valid;
          same = SameOptions-trans same same';
          kept = λ n. kept;
          nothing = λ k. absurd (nonzero k);
        }
  ]

  pub store_plain-Committed :
      (l : LruCache v)
      → l.max_bytes ≡ none
      → IsValid l
      → Committed l (evict_if_needed key (store_plain key value l))
  store_plain-Committed l free h = rw (store_plain-eq-appended key value l) (
      evict_if_needed-Committed l (appended key value l) h
        (record { same_entries = refl; same_bytes = refl; same_opened = refl }) refl
        (appended-IsTracked key value l free h.tracked))

  pub store_measured-Committed :
      (size : ℕ) (l : LruCache v) (b : ℕ)
      → l.max_bytes ≡ some b
      → IsValid l
      → Committed l (evict_if_needed key (store_measured key value size l))
  store_measured-Committed size l b limited h =
      rw (store_measured-eq-stored key value size l b limited h.tracked) (
        evict_if_needed-Committed l (stored key value size l) h
          (record { same_entries = refl; same_bytes = refl; same_opened = refl }) refl
          (stored-IsTracked key value size l b limited h.tracked))

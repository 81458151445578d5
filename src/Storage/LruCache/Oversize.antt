-- ===== src/Storage/LruCache/Oversize.antt =====
-- The loop of `#evictIfNeeded` over the bytes, which stops at the entry that was just written.
use unikvs.Prelude.{
  ℕ, zero, suc, ◌≤◌, ◌≡◌, ◌⊎◌, ap, subst, ◌∙◌, true, false, String, string_equality, none, [], ◌∷◌,
  ◌++◌, length, arith, inl, inr, Bool-cases, eq_iff, ◌==◌, ltb, beq_refl, length-append,
}
use unikvs.JsMap.{JsMap, get, IsUnique, first_key}
use unikvs.Storage.{Values}
use unikvs.Storage.LruCache.State.{LruCache, remove_oldest, is_oldest, evict_bytes}
use unikvs.Storage.LruCache.Tracking.{IsTracked, remove_oldest-IsTracked}
use unikvs.Storage.LruCache.Eviction.{
  drop, SameOptions, SameOptions-refl, SameOptions-trans, remove_oldest-SameOptions,
  remove_oldest-entries,
}
use unikvs.JsMap.Order.{get-append_last-ne-none}

module _ {v : Values} where
  is_oldest-last :
      (key : String) (value : v.Value) (l : LruCache v)
      → l.entries ≡ (key, value) ∷ []
      → is_oldest key l ≡ true
  unfolding first_key
  is_oldest-last key value l e = rw (ap first_key e, is_oldest) (beq_refl key)

  is_oldest-front :
      (key k : String) (value w : v.Value) (front : JsMap String v.Value) (l : LruCache v)
      → l.entries ≡ (k, w) ∷ (front ++ (key, value) ∷ [])
      → IsTracked l
      → is_oldest key l ≡ false
  unfolding first_key
  is_oldest-front key k value w front l e t = elim (Bool-cases (k == key)) [
    | inl same ↦
        let u = (subst IsUnique e t.unique_entries).0 in
        let h : get key (front ++ (key, value) ∷ []) ≡ none = rw ((eq_iff k key).0 same) at u in
        absurd (get-append_last-ne-none key value front h)
    | inr other ↦ rw (ap first_key e, is_oldest) other
  ]

  -- Where the loop over the bytes stops: the newest entry is kept, and either the rest fits or that
  -- entry is alone.
  abbrev pub Stopped :
      ℕ → String → v.Value → JsMap String v.Value → LruCache v → LruCache v → Type 0
  Stopped limit key value front l r =
      ((j : ℕ) × (r.entries ≡ drop j front ++ (key, value) ∷ []))
      × IsTracked r
      × SameOptions l r
      × ((r.total_bytes ≤ limit) ⊎ (r.entries ≡ (key, value) ∷ []))

  pub evict_bytes-Stopped :
      (fuel limit : ℕ) (key : String) (value : v.Value) (front : JsMap String v.Value)
      (l : LruCache v)
      → l.entries ≡ front ++ (key, value) ∷ []
      → length l.entries ≤ fuel
      → IsTracked l
      → Stopped limit key value front l (evict_bytes fuel limit key l)
  unfolding evict_bytes
  evict_bytes-Stopped zero limit key value front l e h t =
      absurd (omega (arith, ap length e, length-append front ((key, value) ∷ [])))
  evict_bytes-Stopped (suc fuel) limit key value [] l e h t =
      elim (Bool-cases (ltb limit l.total_bytes)) [
        | inr fits ↦ rw fits ((0, e), t, SameOptions-refl l, inl (ground arith))
        | inl over ↦ rw (over, is_oldest-last key value l e) ((0, e), t, SameOptions-refl l, inr e)
      ]
  evict_bytes-Stopped (suc fuel) limit key value ((k, w) ∷ front) l e h t =
      elim (Bool-cases (ltb limit l.total_bytes)) [
        | inr fits ↦ rw fits ((0, e), t, SameOptions-refl l, inl (ground arith))
        | inl over ↦
            let e' = remove_oldest-entries l t ∙ ap (drop 1) e in
            let shorter : length (remove_oldest l).entries ≤ fuel =
              omega (arith, ap length e', ap length e) in
            let ((j, kept), tracked, same, stop) =
              evict_bytes-Stopped fuel limit key value front (remove_oldest l) e' shorter
                (remove_oldest-IsTracked l t) in
            rw (over, is_oldest-front key k value w front l e t)
              ((suc j, kept), tracked, SameOptions-trans (remove_oldest-SameOptions l) same, stop)
      ]

-- ===== src/Storage/LruCache/Written.antt =====
-- What `#evictIfNeeded` leaves of a map whose newest entry was just written.
use unikvs.Prelude.{
  ℕ, zero, suc, ◌+◌, ◌-◌, ◌≤◌, ◌≡◌, ◌⊎◌, refl, sym, ap, ◌∙◌, String, string_equality, Option, none,
  some, [], ◌∷◌, ◌++◌, length, arith, inl, inr, length-append,
}
use unikvs.JsMap.{JsMap}
use unikvs.Storage.{Values}
use unikvs.Storage.LruCache.State.{
  LruCache, remove_entry, evict_entries, evict_bytes, limit_entries, limit_bytes, evict_if_needed,
}
use unikvs.Storage.LruCache.Tracking.{IsTracked}
use unikvs.Prelude.{◌≢◌}
use unikvs.Storage.LruCache.Eviction.{
  drop, drop_twice, drop-append, length-drop, SameOptions, SameOptions-refl, SameOptions-trans,
  evict_entries-drop,
}
use unikvs.Storage.LruCache.Oversize.{evict_bytes-Stopped}

-- The books are true and both limits are kept; a value that alone is over `maxBytes` stays alone.
pub record IsValid {v : Values} (l : LruCache v) : Type 0 where
  pub tracked : IsTracked l
  pub few : (n : ℕ) → l.max_entries ≡ some n → length l.entries ≤ n
  pub small : (b : ℕ) → l.max_bytes ≡ some b → (l.total_bytes ≤ b) ⊎ (length l.entries ≡ 1)

some-injective : {m n : ℕ} {o : Option ℕ} → o ≡ some m → o ≡ some n → m ≡ n
some-injective h k = cc

none-ne-some : {n : ℕ} {o : Option ℕ} → o ≡ none → o ≡ some n → ⊥
none-ne-some h k = cc

module _ {v : Values} (key : String) (l : LruCache v) where
  limit_entries-none : l.max_entries ≡ none → limit_entries key l ≡ l
  unfolding limit_entries
  limit_entries-none h = ground arith

  pub limit_entries-zero : l.max_entries ≡ some 0 → limit_entries key l ≡ remove_entry key l
  unfolding limit_entries
  limit_entries-zero h = ground arith

  limit_entries-suc :
      (n : ℕ)
      → l.max_entries ≡ some (suc n)
      → limit_entries key l ≡ evict_entries (length l.entries) (suc n) l
  unfolding limit_entries
  limit_entries-suc n h = ground arith

  pub limit_bytes-none : l.max_bytes ≡ none → limit_bytes key l ≡ l
  unfolding limit_bytes
  limit_bytes-none h = ground arith

  pub limit_bytes-some :
      (b : ℕ) → l.max_bytes ≡ some b → limit_bytes key l ≡ evict_bytes (length l.entries) b key l
  unfolding limit_bytes
  limit_bytes-some b h = ground arith

abbrev pub newest : {V : Type 0} → String → V → JsMap String V → JsMap String V
newest key value front = front ++ (key, value) ∷ []

module _ {v : Values} (key : String) (value : v.Value) where
  -- The oldest entries are gone, some of them or none, and the newest is kept.
  abbrev pub Kept : JsMap String v.Value → LruCache v → Type 0
  Kept front r = (j : ℕ) × (r.entries ≡ newest key value (drop j front))

  abbrev Limited : JsMap String v.Value → LruCache v → LruCache v → Type 0
  Limited front l r =
      Kept front r
      × IsTracked r
      × SameOptions l r
      × ((n : ℕ) → l.max_entries ≡ some n → length r.entries ≤ n)

  limit_entries-Limited :
      (front : JsMap String v.Value) (l : LruCache v)
      → l.max_entries ≢ some 0
      → l.entries ≡ newest key value front
      → IsTracked l
      → Limited front l (limit_entries key l)
  limit_entries-Limited front l nonzero e t = go l.max_entries refl
    where
      go : (limit : Option ℕ) → l.max_entries ≡ limit → Limited front l (limit_entries key l)
      go none h =
          rw (limit_entries-none key l h)
            ((0, e), t, SameOptions-refl l, λ n h'. absurd (none-ne-some h h'))
      go (some zero) h = absurd (nonzero h)
      go (some (suc n)) h =
          let (dropped, tracked, same) =
            evict_entries-drop (length l.entries) (suc n) l (omega arith) t in
          let len : length l.entries ≡ length front + 1 =
            ap length e ∙ length-append front ((key, value) ∷ []) in
          let j : ℕ = length l.entries - suc n in
          let kept =
            dropped ∙ ap (drop j) e ∙ drop-append j front ((key, value) ∷ []) (omega arith) in
          let fits : length (evict_entries (length l.entries) (suc n) l).entries ≤ suc n =
            omega (arith, ap length dropped, length-drop j l.entries) in
          rw (limit_entries-suc key l n h)
            ((j, kept), tracked, same, λ m h'. rw (some-injective h' h) fits)

  -- After the second loop the rest fits, or the newest entry is alone.
  limit_bytes-Limited :
      (front : JsMap String v.Value) (l : LruCache v)
      → l.entries ≡ newest key value front
      → IsTracked l
      → Kept front (limit_bytes key l)
        × IsTracked (limit_bytes key l)
        × SameOptions l (limit_bytes key l)
        × ((b : ℕ)
            → l.max_bytes ≡ some b
            → ((limit_bytes key l).total_bytes ≤ b)
              ⊎ ((limit_bytes key l).entries ≡ (key, value) ∷ []))
  limit_bytes-Limited front l e t = go l.max_bytes refl
    where
      go :
          (limit : Option ℕ)
          → l.max_bytes ≡ limit
          → Kept front (limit_bytes key l)
            × IsTracked (limit_bytes key l)
            × SameOptions l (limit_bytes key l)
            × ((b : ℕ)
                → l.max_bytes ≡ some b
                → ((limit_bytes key l).total_bytes ≤ b)
                  ⊎ ((limit_bytes key l).entries ≡ (key, value) ∷ []))
      go none h =
          rw (limit_bytes-none key l h)
            ((0, e), t, SameOptions-refl l, λ b h'. absurd (none-ne-some h h'))
      go (some b) h =
          let (kept, tracked, same, stop) =
            evict_bytes-Stopped (length l.entries) b key value front l e (omega arith) t in
          rw (limit_bytes-some key l b h)
            (kept, tracked, same, λ m h'. rw (some-injective h' h) stop)

  -- `#evictIfNeeded` after a write, unless `maxEntries` is 0: the newest entry is kept, only the
  -- oldest ones go, and both limits hold.
  pub evict_if_needed-IsValid :
      (front : JsMap String v.Value) (l : LruCache v)
      → l.max_entries ≢ some 0
      → l.entries ≡ newest key value front
      → IsTracked l
      → Kept front (evict_if_needed key l)
        × IsValid (evict_if_needed key l)
        × SameOptions l (evict_if_needed key l)
  unfolding evict_if_needed
  evict_if_needed-IsValid front l nonzero e t =
      let l' = limit_entries key l in
      let ((i, kept), tracked, same, few) = limit_entries-Limited front l nonzero e t in
      let ((j, kept'), tracked', same', small) =
        limit_bytes-Limited (drop i front) l' kept tracked in
      let shorter = length-drop j (drop i front) in
      (
        (i + j, kept' ∙ ap (newest key value) (drop_twice j i front)),
        record {
          tracked = tracked';
          few = λ n h.
              let h' = few n (sym same.same_entries ∙ sym same'.same_entries ∙ h) in
              omega (
                arith,
                h',
                ap length kept,
                ap length kept',
                shorter,
                length-append (drop i front) ((key, value) ∷ []),
                length-append (drop j (drop i front)) ((key, value) ∷ []),
              );
          small = λ b h. elim (small b (sym same'.same_bytes ∙ h)) [
            | inl fits ↦ inl fits
            | inr alone ↦ inr (ap length alone)
          ];
        },
        SameOptions-trans same same',
      )

-- ===== src/Storage/LruCache/Eviction.antt =====
-- The loop of `#evictIfNeeded` over the number of entries.
use unikvs.Prelude.{
  ℕ, zero, suc, ◌+◌, ◌-◌, ◌≤◌, ◌≡◌, refl, sym, ap, subst, ◌∙◌, String, string_equality, List, [],
  ◌∷◌, ◌++◌, length, arith, inl, inr, Option-cases, Bool-cases, ltb,
}
use unikvs.JsMap.{JsMap, delete, IsUnique, first_key}
use unikvs.JsMap.Order.{delete_first}
use unikvs.Storage.{Values}
use unikvs.Storage.LruCache.State.{LruCache, remove_entry, remove_oldest, evict_entries}
use unikvs.Storage.LruCache.Tracking.{IsTracked, remove_entry-eq-without, remove_oldest-IsTracked}

-- The entries without the oldest ones.
abbrev pub drop : {A : Type 0} → ℕ → List A → List A
drop zero xs = xs
drop (suc n) [] = []
drop (suc n) (x ∷ xs) = drop n xs

pub length-drop : {A : Type 0} (n : ℕ) (xs : List A) → length (drop n xs) ≡ length xs - n
length-drop zero xs = omega arith
length-drop (suc n) [] = omega arith
length-drop (suc n) (x ∷ xs) = omega (arith, length-drop n xs)

pub drop-drop : {A : Type 0} (n : ℕ) (xs : List A) → drop n (drop 1 xs) ≡ drop (suc n) xs
drop-drop zero [] = refl
drop-drop (suc n) [] = refl
drop-drop n (x ∷ xs) = refl

pub drop-append :
    {A : Type 0} (n : ℕ) (xs ys : List A) → n ≤ length xs → drop n (xs ++ ys) ≡ drop n xs ++ ys
drop-append zero xs ys h = refl
drop-append (suc n) [] ys h = absurd (omega arith)
drop-append (suc n) (x ∷ xs) ys h = drop-append n xs ys (omega arith)

drop-nil : {A : Type 0} (n : ℕ) → drop {A = A} n [] ≡ []
drop-nil zero = refl
drop-nil (suc n) = refl

pub drop_twice : {A : Type 0} (m n : ℕ) (xs : List A) → drop m (drop n xs) ≡ drop (n + m) xs
drop_twice m zero xs = ap (λ k. drop k xs) (omega arith)
drop_twice m (suc n) [] = drop-nil m ∙ sym (drop-nil (suc n + m))
drop_twice m (suc n) (x ∷ xs) =
    let h : suc (n + m) ≡ suc n + m = omega arith in drop_twice m n xs ∙ ap (λ k. drop k (x ∷ xs)) h

-- What the loops leave alone.
pub record SameOptions {v : Values} (l r : LruCache v) : Type 0 where
  pub same_entries : r.max_entries ≡ l.max_entries
  pub same_bytes : r.max_bytes ≡ l.max_bytes
  pub same_opened : r.opened ≡ l.opened

module _ {v : Values} where
  pub SameOptions-refl : (l : LruCache v) → SameOptions l l
  SameOptions-refl l = record { same_entries = refl; same_bytes = refl; same_opened = refl }

  pub SameOptions-trans : {l m r : LruCache v} → SameOptions l m → SameOptions m r → SameOptions l r
  SameOptions-trans a b = record {
    same_entries = b.same_entries ∙ a.same_entries;
    same_bytes = b.same_bytes ∙ a.same_bytes;
    same_opened = b.same_opened ∙ a.same_opened;
  }

  pub remove_entry-SameOptions :
      (key : String) (l : LruCache v) → SameOptions l (remove_entry key l)
  unfolding remove_entry
  remove_entry-SameOptions key l = record {
    same_entries = ground arith;
    same_bytes = ground arith;
    same_opened = ground arith;
  }

  pub remove_oldest-SameOptions : (l : LruCache v) → SameOptions l (remove_oldest l)
  unfolding remove_oldest
  remove_oldest-SameOptions l = elim (Option-cases (first_key l.entries)) [
    | inl empty ↦ rw (empty, remove_oldest) (SameOptions-refl l)
    | inr (oldest, found) ↦ rw (found, remove_oldest) (remove_entry-SameOptions oldest l)
  ]

  -- A round takes out the oldest entry.
  pub remove_oldest-entries :
      (l : LruCache v) → IsTracked l → (remove_oldest l).entries ≡ drop 1 l.entries
  unfolding first_key remove_oldest
  remove_oldest-entries l t = go l.entries refl
    where
      go : (m : JsMap String v.Value) → l.entries ≡ m → (remove_oldest l).entries ≡ drop 1 m
      go [] e = rw (ap first_key e, remove_oldest) e
      go ((key, value) ∷ m) e =
          rw (ap first_key e, remove_oldest, remove_entry-eq-without key l t)
            (ap (delete key) e ∙ delete_first key value m (subst IsUnique e t.unique_entries))

  -- `#map.size > maxEntries` drops just as many of the oldest entries as are too many.
  pub evict_entries-drop :
      (fuel limit : ℕ) (l : LruCache v)
      → length l.entries ≤ fuel
      → IsTracked l
      → ((evict_entries fuel limit l).entries ≡ drop (length l.entries - limit) l.entries)
        × IsTracked (evict_entries fuel limit l)
        × SameOptions l (evict_entries fuel limit l)
  unfolding evict_entries
  evict_entries-drop zero limit l h t =
      let z : length l.entries - limit ≡ 0 = omega arith in rw z (refl, t, SameOptions-refl l)
  evict_entries-drop (suc fuel) limit l h t = elim (Bool-cases (ltb limit (length l.entries))) [
    | inr fits ↦
        let z : length l.entries - limit ≡ 0 = ground arith in
        rw (fits, z) (refl, t, SameOptions-refl l)
    | inl over ↦
        let l' = remove_oldest l in
        let e = remove_oldest-entries l t in
        let shorter : length l'.entries ≡ length l.entries - 1 =
          ap length e ∙ length-drop 1 l.entries in
        let (kept, tracked, same) =
          evict_entries-drop fuel limit l' (omega arith) (remove_oldest-IsTracked l t) in
        let n : suc (length l'.entries - limit) ≡ length l.entries - limit = ground arith in
        rw over (
          kept
              ∙ ap (drop (length l'.entries - limit)) e
              ∙ drop-drop (length l'.entries - limit) l.entries
              ∙ ap (λ j. drop j l.entries) n,
          tracked,
          SameOptions-trans (remove_oldest-SameOptions l) same,
        )
  ]

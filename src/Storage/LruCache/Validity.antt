-- ===== src/Storage/LruCache/Validity.antt =====
-- The private methods keep the books true and the limits kept.
use unikvs.Prelude.{
  ℕ, ◌≤◌, ◌≡◌, ◌⊎◌, refl, sym, ap, ◌∙◌, true, false, String, string_equality, some, [], ◌∷◌,
  if◌then◌else◌, length, arith, inl, inr, Option-cases, Bool-cases, ◌==◌, ltb, beq_refl,
  length-append,
}
use unikvs.JsMap.{JsMap, get, has, set, delete}
use unikvs.JsMap.Order.{sum_values}
use unikvs.Storage.{Values}
use unikvs.Storage.LruCache.State.{LruCache, remove_entry}
use unikvs.Storage.LruCache.Tracking.{IsTracked, remove_entry-eq-without}
use unikvs.Storage.LruCache.Tracking.{remove_entry-IsTracked}
use unikvs.Storage.LruCache.Eviction.{remove_entry-SameOptions}
use unikvs.JsMap.Order.{length-delete-le, sum_values-delete-le, set_absent, get-delete_self}
use unikvs.JsMap.Laws.{length-delete}
use unikvs.Storage.LruCache.State.{touch}
use unikvs.Storage.LruCache.Tracking.{touch-IsTracked}
use unikvs.Storage.LruCache.Written.{IsValid}

no_key : {V : Type 0} (m : JsMap String V) → ((k : String) → has k m ≡ false) → m ≡ []
unfolding has
no_key [] h = refl
no_key ((k, w) ∷ m) h = absurd (true-ne-false (h k))
  where
    true-ne-false : (if k == k then true else has k m) ≡ false → ⊥
    true-ne-false e = let e' : true ≡ false = rw (beq_refl k) at e in cc

pub has-nil : (V : Type 0) (k : String) → has {V = V} k [] ≡ false
unfolding has
has-nil V k = refl

pub entries_nil : {V : Type 0} (m : JsMap String V) → length m ≤ 0 → m ≡ []
entries_nil [] h = refl
entries_nil (x ∷ m) h = absurd (omega arith)

module _ {v : Values} where
  pub IsTracked-empty : (l : LruCache v) → IsTracked l → l.entries ≡ [] → l.total_bytes ≡ 0
  IsTracked-empty l t e = elim (Option-cases l.max_bytes) [
    | inl free ↦ t.summed ∙ ap sum_values (t.unmeasured free)
    | inr (b, limited) ↦
        t.summed
        ∙ ap sum_values
            (no_key l.sizes (λ k. t.measured b limited k ∙ ap (has k) e ∙ has-nil v.Value k))
  ]

  small_of_fewer :
      (b : ℕ) (l r : LruCache v)
      → IsTracked r
      → r.total_bytes ≤ l.total_bytes
      → length r.entries ≤ length l.entries
      → (l.total_bytes ≤ b) ⊎ (length l.entries ≡ 1)
      → (r.total_bytes ≤ b) ⊎ (length r.entries ≡ 1)
  small_of_fewer b l r t less fewer (inl h) = inl (omega arith)
  small_of_fewer b l r t less fewer (inr h) = elim (Bool-cases (ltb 0 (length r.entries))) [
    | inl one ↦ inr (ground arith)
    | inr empty ↦
        let z = IsTracked-empty r t (entries_nil r.entries (ground arith)) in inl (omega arith)
  ]

  pub remove_entry-IsValid :
      (key : String) (l : LruCache v) → IsValid l → IsValid (remove_entry key l)
  remove_entry-IsValid key l h =
      let t = remove_entry-IsTracked key l h.tracked in
      let e = remove_entry-eq-without key l h.tracked in
      let same = remove_entry-SameOptions key l in
      let fewer : length (remove_entry key l).entries ≤ length l.entries =
        rw e (length-delete-le key l.entries) in
      let less : (remove_entry key l).total_bytes ≤ l.total_bytes =
        rw (e, h.tracked.summed) (sum_values-delete-le key l.sizes) in
      record {
        tracked = t;
        few = λ n k. let k' = h.few n (sym same.same_entries ∙ k) in omega arith;
        small = λ b k.
            small_of_fewer b l (remove_entry key l) t less fewer
              (h.small b (sym same.same_bytes ∙ k));
      }

  pub touch-IsValid :
      (key : String) (value : v.Value) (l : LruCache v)
      → get key l.entries ≡ some value
      → IsValid l
      → IsValid (touch key value l)
  unfolding touch
  touch-IsValid key value l found h =
      let same : length (set key value (delete key l.entries)) ≡ length l.entries =
        rw (set_absent key value (delete key l.entries) (get-delete_self key l.entries)) (
          omega (
            arith,
            length-append (delete key l.entries) ((key, value) ∷ []),
            length-delete key l.entries h.tracked.unique_entries found,
          )) in
      record {
        tracked = touch-IsTracked key value l found h.tracked;
        few = λ n k. let k' = h.few n k in omega arith;
        small = λ b k. elim (h.small b k) [ inl fits ↦ inl fits | inr one ↦ inr (same ∙ one) ];
      }

-- ===== src/Storage/LruCache/Tracking.antt =====
-- The books of `LruCache`: its two maps have the same keys, and the total is the sum of the sizes.
use unikvs.Prelude.{
  ℕ, ◌+◌, ◌≡◌, refl, sym, ◌∙◌, false, String, string_equality, Option, none, some, [], ◌∷◌, ◌++◌,
  arith, inl, inr, Option-cases, Bool-cases, eq_iff,
}
use unikvs.JsMap.{get, has, delete, IsUnique, first_key}
use unikvs.JsMap.Laws.{
  has-eq-is_some, has-set, has-delete, set-IsUnique, delete-IsUnique, delete_absent,
}
use unikvs.JsMap.Order.{
  sum_values, set_absent, get-delete_self, sum_values-delete, sum_values-append_last,
  append_absent-IsUnique, has-append_absent,
}
use unikvs.Storage.{Values}
use unikvs.Storage.LruCache.State.{
  LruCache, touch, remove_entry, store_measured, store_plain, remove_oldest,
}

pub record IsTracked {v : Values} (l : LruCache v) : Type 0 where
  pub unique_entries : IsUnique l.entries
  pub unique_sizes : IsUnique l.sizes
  pub summed : l.total_bytes ≡ sum_values l.sizes
  pub measured : (b : ℕ) → l.max_bytes ≡ some b → (k : String) → has k l.sizes ≡ has k l.entries
  pub unmeasured : l.max_bytes ≡ none → l.sizes ≡ []

some-ne-none : {A : Type 0} {o : Option A} {a : A} → o ≡ some a → o ≡ none → ⊥
some-ne-none h e = cc

get-nil : {V : Type 0} (key : String) → get {V = V} key [] ≡ none
unfolding get
get-nil key = refl

module _ {v : Values} where
  abbrev pub without : String → LruCache v → LruCache v
  without key l = record l {
    entries = delete key l.entries;
    sizes = delete key l.sizes;
    total_bytes = sum_values (delete key l.sizes);
  }

  -- On true books `#removeEntry` takes the key out of both maps and corrects the total.
  pub remove_entry-eq-without :
      (key : String) (l : LruCache v) → IsTracked l → remove_entry key l ≡ without key l
  unfolding remove_entry
  remove_entry-eq-without key l t = elim (Option-cases (get key l.sizes)) [
    | inl absent ↦ ground (arith, delete_absent key l.sizes absent)
    | inr (size, found) ↦ ground (arith, sum_values-delete key l.sizes size t.unique_sizes found)
  ]

  without-IsTracked : (key : String) (l : LruCache v) → IsTracked l → IsTracked (without key l)
  without-IsTracked key l t = record {
    unique_entries = delete-IsUnique key l.entries t.unique_entries;
    unique_sizes = delete-IsUnique key l.sizes t.unique_sizes;
    summed = refl;
    measured = λ b limited k.
        rw (has-delete key k l.sizes, has-delete key k l.entries, t.measured b limited k) refl;
    unmeasured = λ free. rw (t.unmeasured free) (delete_absent key [] (get-nil key));
  }

  pub remove_entry-IsTracked :
      (key : String) (l : LruCache v) → IsTracked l → IsTracked (remove_entry key l)
  remove_entry-IsTracked key l t = rw (remove_entry-eq-without key l t) (without-IsTracked key l t)

  pub touch-IsTracked :
      (key : String) (value : v.Value) (l : LruCache v)
      → get key l.entries ≡ some value
      → IsTracked l
      → IsTracked (touch key value l)
  unfolding touch
  touch-IsTracked key value l found t = record {
    unique_entries =
        set-IsUnique key value (delete key l.entries)
          (delete-IsUnique key l.entries t.unique_entries);
    unique_sizes = t.unique_sizes;
    summed = t.summed;
    measured = λ b limited k.
        t.measured b limited k
        ∙ ground (
          arith,
          has-set key k value (delete key l.entries),
          has-delete key k l.entries,
          has-eq-is_some key l.entries,
          eq_iff key k,
        );
    unmeasured = t.unmeasured;
  }

  abbrev pub stored : String → v.Value → ℕ → LruCache v → LruCache v
  stored key value size l = record l {
    entries = delete key l.entries ++ (key, value) ∷ [];
    sizes = delete key l.sizes ++ (key, size) ∷ [];
    total_bytes = sum_values (delete key l.sizes) + size;
  }

  absent :
      (key : String) (l : LruCache v)
      → IsTracked l
      → (b : ℕ) → l.max_bytes ≡ some b
      → has key l.entries ≡ false
      → get key l.sizes ≡ none
  absent key l t b limited h = ground (arith, t.measured b limited key, has-eq-is_some key l.sizes)

  pub store_measured-eq-stored :
      (key : String) (value : v.Value) (size : ℕ) (l : LruCache v) (b : ℕ)
      → l.max_bytes ≡ some b
      → IsTracked l
      → store_measured key value size l ≡ stored key value size l
  unfolding store_measured
  store_measured-eq-stored key value size l b limited t = elim (Bool-cases (has key l.entries)) [
    | inl present ↦
        rw
          (
            present,
            remove_entry-eq-without key l t,
            set_absent key value (delete key l.entries) (get-delete_self key l.entries),
            set_absent key size (delete key l.sizes) (get-delete_self key l.sizes),
          )
          refl
    | inr missing ↦
        let gone : get key l.entries ≡ none = ground (arith, has-eq-is_some key l.entries) in
        let gone' = absent key l t b limited missing in
        rw
          (
            missing,
            set_absent key value l.entries gone,
            set_absent key size l.sizes gone',
            delete_absent key l.entries gone,
            delete_absent key l.sizes gone',
            t.summed,
          )
          refl
  ]

  pub stored-IsTracked :
      (key : String) (value : v.Value) (size : ℕ) (l : LruCache v) (b : ℕ)
      → l.max_bytes ≡ some b
      → IsTracked l
      → IsTracked (stored key value size l)
  stored-IsTracked key value size l b limited t = record {
    unique_entries =
        append_absent-IsUnique key value (delete key l.entries) (get-delete_self key l.entries)
          (delete-IsUnique key l.entries t.unique_entries);
    unique_sizes =
        append_absent-IsUnique key size (delete key l.sizes) (get-delete_self key l.sizes)
          (delete-IsUnique key l.sizes t.unique_sizes);
    summed = sym (sum_values-append_last key size (delete key l.sizes));
    measured = λ c at k.
        rw
          (
            has-append_absent key k size (delete key l.sizes) (get-delete_self key l.sizes),
            has-append_absent key k value (delete key l.entries) (get-delete_self key l.entries),
            has-delete key k l.sizes,
            has-delete key k l.entries,
            t.measured b limited k,
          )
          refl;
    unmeasured = λ free. absurd (some-ne-none limited free);
  }

  abbrev pub appended : String → v.Value → LruCache v → LruCache v
  appended key value l = record l { entries = delete key l.entries ++ (key, value) ∷ [] }

  pub store_plain-eq-appended :
      (key : String) (value : v.Value) (l : LruCache v)
      → store_plain key value l ≡ appended key value l
  unfolding store_plain
  store_plain-eq-appended key value l = elim (Bool-cases (has key l.entries)) [
    | inl present ↦
        rw (present, set_absent key value (delete key l.entries) (get-delete_self key l.entries))
          refl
    | inr missing ↦
        let gone : get key l.entries ≡ none = ground (arith, has-eq-is_some key l.entries) in
        rw (missing, set_absent key value l.entries gone, delete_absent key l.entries gone) refl
  ]

  pub appended-IsTracked :
      (key : String) (value : v.Value) (l : LruCache v)
      → l.max_bytes ≡ none
      → IsTracked l
      → IsTracked (appended key value l)
  appended-IsTracked key value l free t = record {
    unique_entries =
        append_absent-IsUnique key value (delete key l.entries) (get-delete_self key l.entries)
          (delete-IsUnique key l.entries t.unique_entries);
    unique_sizes = t.unique_sizes;
    summed = t.summed;
    measured = λ b limited k. absurd (some-ne-none limited free);
    unmeasured = t.unmeasured;
  }

  pub remove_oldest-IsTracked : (l : LruCache v) → IsTracked l → IsTracked (remove_oldest l)
  unfolding remove_oldest
  remove_oldest-IsTracked l t = elim (Option-cases (first_key l.entries)) [
    | inl empty ↦ rw (empty, remove_oldest) t
    | inr (oldest, found) ↦ rw (found, remove_oldest) (remove_entry-IsTracked oldest l t)
  ]

-- ===== src/JsMap/Order.antt =====
-- The order of insertion, and the sum of the values of a `Map` of numbers.
use unikvs.Prelude.{
  ℕ, ◌+◌, ◌≤◌, true, none, some, [], ◌∷◌, ◌++◌, Equality, ◌==◌, if◌then◌else◌, ◌≡◌, ◌≢◌, refl, ap,
  sym, subst, ◌∙◌, arith, inl, inr, Bool-cases, length, beq_refl,
}
use unikvs.JsMap.{JsMap, get, has, set, delete, IsUnique}
use unikvs.JsMap.Laws.{delete_absent, set-IsUnique, has-set}

abbrev pub sum_values : {K : Type 0} → JsMap K ℕ → ℕ
sum_values [] = 0
sum_values ((k, n) ∷ m) = n + sum_values m

module _ {K V : Type 0} ⦃e : Equality K⦄ where
  -- A new key goes last.
  pub set_absent : (k : K) (v : V) (m : JsMap K V) → get k m ≡ none → set k v m ≡ m ++ (k, v) ∷ []
  unfolding get set
  set_absent k v [] h = refl
  set_absent k v ((j, w) ∷ m) h = ground (arith, set_absent k v m)

  pub delete_first :
      (k : K) (v : V) (m : JsMap K V) → IsUnique ((k, v) ∷ m) → delete k ((k, v) ∷ m) ≡ m
  unfolding delete
  delete_first k v m u = rw (beq_refl k) (delete_absent k m u.0)

  pub get-delete_self : (k : K) (m : JsMap K V) → get k (delete k m) ≡ none
  unfolding get delete
  get-delete_self k [] = refl
  get-delete_self k ((j, w) ∷ m) = ground (arith, get-delete_self k m)

  pub get-append_last :
      (k : K) (v : V) (m : JsMap K V) → get k m ≡ none → get k (m ++ (k, v) ∷ []) ≡ some v
  unfolding get
  get-append_last k v [] h = rw (beq_refl k)
  get-append_last k v ((j, w) ∷ m) h = ground (arith, get-append_last k v m)

  pub length-delete-le : (k : K) (m : JsMap K V) → length (delete k m) ≤ length m
  unfolding delete
  length-delete-le k [] = omega arith
  length-delete-le k ((j, w) ∷ m) = ground (arith, length-delete-le k m)

  pub get-append_last-ne-none : (k : K) (v : V) (m : JsMap K V) → get k (m ++ (k, v) ∷ []) ≢ none
  unfolding get
  get-append_last-ne-none k v [] = rw (beq_refl k) (λ h. cc)
  get-append_last-ne-none k v ((j, w) ∷ m) = ground (arith, get-append_last-ne-none k v m)

  pub append_absent-IsUnique :
      (k : K) (v : V) (m : JsMap K V) → get k m ≡ none → IsUnique m → IsUnique (m ++ (k, v) ∷ [])
  append_absent-IsUnique k v m h u = subst IsUnique (set_absent k v m h) (set-IsUnique k v m u)

  pub has-append_absent :
      (k j : K) (v : V) (m : JsMap K V)
      → get k m ≡ none
      → has j (m ++ (k, v) ∷ []) ≡ (if k == j then true else has j m)
  has-append_absent k j v m h = ap (λ r. has j r) (sym (set_absent k v m h)) ∙ has-set k j v m

module _ {K : Type 0} ⦃e : Equality K⦄ where
  pub sum_values-delete :
      (k : K) (m : JsMap K ℕ) (n : ℕ)
      → IsUnique m
      → get k m ≡ some n
      → sum_values (delete k m) + n ≡ sum_values m
  unfolding get delete
  sum_values-delete k [] n u h = ground arith
  sum_values-delete k ((j, w) ∷ m) n (a, u) h = elim (Bool-cases (j == k)) [
    | inl same ↦
        let e' : j ≡ k = (e.equal_iff j k).0 same in
        rw (same, delete_absent k m (rw e' at a)) (ground arith)
    | inr other ↦
        let h' : get k m ≡ some n = ground arith in
        rw other (omega (arith, sum_values-delete k m n u h'))
  ]

  pub sum_values-delete-le : (k : K) (m : JsMap K ℕ) → sum_values (delete k m) ≤ sum_values m
  unfolding delete
  sum_values-delete-le k [] = omega arith
  sum_values-delete-le k ((j, w) ∷ m) = ground (arith, sum_values-delete-le k m)

  pub sum_values-append_last :
      (k : K) (n : ℕ) (m : JsMap K ℕ) → sum_values (m ++ (k, n) ∷ []) ≡ sum_values m + n
  sum_values-append_last k n [] = omega arith
  sum_values-append_last k n ((j, w) ∷ m) = omega (arith, sum_values-append_last k n m)

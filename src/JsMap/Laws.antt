-- ===== src/JsMap/Laws.antt =====
-- The laws of `Map`, in the form in which the components use them.
use unikvs.Prelude.{
  ◌+◌, Bool, true, false, Option, none, some, [], ◌∷◌, Equality, ◌==◌, if◌then◌else◌, ◌≡◌, refl,
  arith, length, inl, inr, Bool-cases,
}
use unikvs.JsMap.{JsMap, get, has, set, delete, IsUnique}

abbrev pub is_some : {V : Type 0} → Option V → Bool
is_some none = false
is_some (some v) = true

module _ {K V : Type 0} ⦃e : Equality K⦄ where
  pub has-eq-is_some : (k : K) (m : JsMap K V) → has k m ≡ is_some (get k m)
  unfolding has get
  has-eq-is_some k [] = refl
  has-eq-is_some k ((j, v) ∷ m) = ground (arith, has-eq-is_some k m)

  pub get-set :
      (k j : K) (v : V) (m : JsMap K V) → get j (set k v m) ≡ (if k == j then some v else get j m)
  unfolding get set
  get-set k j v [] = refl
  get-set k j v ((i, w) ∷ m) =
      ground (arith, e.equal_iff k j, e.equal_iff i k, e.equal_iff i j, get-set k j v m)

  pub get-delete :
      (k j : K) (m : JsMap K V) → get j (delete k m) ≡ (if k == j then none else get j m)
  unfolding get delete
  get-delete k j [] = ground arith
  get-delete k j ((i, w) ∷ m) =
      ground (arith, e.equal_iff k j, e.equal_iff i k, e.equal_iff i j, get-delete k j m)

  pub has-set :
      (k j : K) (v : V) (m : JsMap K V) → has j (set k v m) ≡ (if k == j then true else has j m)
  has-set k j v m =
      ground (arith, has-eq-is_some j (set k v m), has-eq-is_some j m, get-set k j v m)

  pub has-delete :
      (k j : K) (m : JsMap K V) → has j (delete k m) ≡ (if k == j then false else has j m)
  has-delete k j m =
      ground (arith, has-eq-is_some j (delete k m), has-eq-is_some j m, get-delete k j m)

  pub set-IsUnique : (k : K) (v : V) (m : JsMap K V) → IsUnique m → IsUnique (set k v m)
  unfolding get set
  set-IsUnique k v [] u = (refl, tt)
  set-IsUnique k v ((j, w) ∷ m) (a, u) = elim (Bool-cases (j == k)) [
    | inl same ↦ rw same (a, u)
    | inr other ↦
        rw other
          (ground (arith, get-set k j v m, e.equal_iff k j, e.equal_iff j k), set-IsUnique k v m u)
  ]

  pub delete-IsUnique : (k : K) (m : JsMap K V) → IsUnique m → IsUnique (delete k m)
  unfolding get delete
  delete-IsUnique k [] u = tt
  delete-IsUnique k ((j, w) ∷ m) (a, u) = elim (Bool-cases (j == k)) [
    | inl same ↦ rw same (delete-IsUnique k m u)
    | inr other ↦ rw other (ground (arith, get-delete k j m), delete-IsUnique k m u)
  ]

  pub delete_absent : (k : K) (m : JsMap K V) → get k m ≡ none → delete k m ≡ m
  unfolding get delete
  delete_absent k [] h = refl
  delete_absent k ((j, w) ∷ m) h = ground (arith, delete_absent k m)

  pub length-delete :
      (k : K) (m : JsMap K V) {v : V}
      → IsUnique m
      → get k m ≡ some v
      → length (delete k m) + 1 ≡ length m
  unfolding get delete
  length-delete k [] u h = ground arith
  length-delete k ((j, w) ∷ m) {v} (a, u) h = elim (Bool-cases (j == k)) [
    | inl same ↦
        let e' : j ≡ k = (e.equal_iff j k).0 same in
        rw (same, delete_absent k m (rw e' at a)) (ground arith)
    | inr other ↦
        let h' : get k m ≡ some v = ground arith in rw other (omega (arith, length-delete k m u h'))
  ]

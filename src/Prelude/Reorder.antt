-- ===== src/Prelude/Reorder.antt =====
-- Sorting by keys that are all different does not see the order.
use unikvs.Prelude.{
  ℕ, ◌≡◌, ◌≢◌, refl, sym, ap, subst, ◌∙◌, List, [], ◌∷◌, All, arith, leb, Bool-cases, inl, inr,
}
use mathlib.Core.List.{Permᴰ}
use mathlib.Core.List.Permᴰ
use unikvs.Prelude.Sorting.{sort_by, insert_by}

module _ {A : Type 0} where
  pub All-Perm : (P : A → Type 0) {xs ys : List A} → Permᴰ xs ys → All P xs → All P ys
  All-Perm P Permᴰ.nil h = h
  All-Perm P (Permᴰ.cons e d) h = (subst P e h.0, All-Perm P d h.1)
  All-Perm P (Permᴰ.swap e f) h = (subst P f h.1.0, (subst P e h.0, h.1.1))
  All-Perm P (Permᴰ.trans d g) h = All-Perm P g (All-Perm P d h)

module _ {A : Type 0} (key : A → ℕ) where
  abbrev pub AreDistinct : List A → Type 0
  AreDistinct [] = Unit {0}
  AreDistinct (x ∷ xs) = All (λ y. key x ≢ key y) xs × AreDistinct xs

  insert_by_comm :
      (x y : A) (zs : List A)
      → key x ≢ key y
      → insert_by key x (insert_by key y zs) ≡ insert_by key y (insert_by key x zs)
  unfolding insert_by
  insert_by_comm x y [] h = ground (arith, h)
  insert_by_comm x y (z ∷ zs) h = ground (arith, h, insert_by_comm x y zs h)

  insert_by-Perm : (x : A) (xs : List A) → Permᴰ (insert_by key x xs) (x ∷ xs)
  unfolding insert_by
  insert_by-Perm x [] = Permᴰ.refl (x ∷ [])
  insert_by-Perm x (y ∷ ys) = elim (Bool-cases (leb (key x) (key y))) [
    | inl t ↦ rw t (Permᴰ.refl (x ∷ y ∷ ys))
    | inr t ↦ rw t (Permᴰ.trans (Permᴰ.cons refl (insert_by-Perm x ys)) (Permᴰ.swap refl refl))
  ]

  pub sort_by-Perm : (xs : List A) → Permᴰ (sort_by key xs) xs
  unfolding sort_by
  sort_by-Perm [] = Permᴰ.nil
  sort_by-Perm (x ∷ xs) =
      Permᴰ.trans (insert_by-Perm x (sort_by key xs)) (Permᴰ.cons refl (sort_by-Perm xs))

  AreDistinct-Perm : {xs ys : List A} → Permᴰ xs ys → AreDistinct xs → AreDistinct ys
  AreDistinct-Perm Permᴰ.nil h = h
  AreDistinct-Perm (Permᴰ.cons {b = b} {l₂ = l} e d) h = (
    subst (λ x. All (λ y. key x ≢ key y) l) e (All-Perm (λ y. key _ ≢ key y) d h.0),
    AreDistinct-Perm d h.1,
  )
  AreDistinct-Perm (Permᴰ.swap {l = l} e f) h =
      let (apart, hl) = h.0 in
      let (other, rest) = h.1 in
      (
        (
          λ q. apart (ap key e ∙ sym q ∙ sym (ap key f)),
          subst (λ x. All (λ y. key x ≢ key y) l) f other,
        ),
        (subst (λ x. All (λ y. key x ≢ key y) l) e hl, rest),
      )
  AreDistinct-Perm (Permᴰ.trans d g) h = AreDistinct-Perm g (AreDistinct-Perm d h)

  pub sort_by_reorder :
      {xs ys : List A} → Permᴰ xs ys → AreDistinct xs → sort_by key xs ≡ sort_by key ys
  unfolding sort_by
  sort_by_reorder Permᴰ.nil h = refl
  sort_by_reorder (Permᴰ.cons {a = a} {b = b} {l₁ = l} {l₂ = m} e d) h =
      ap (λ z. insert_by key z (sort_by key l)) e ∙ ap (insert_by key b) (sort_by_reorder d h.1)
  sort_by_reorder (Permᴰ.swap {a = a} {b = b} {a' = c} {b' = d} {l = l} e f) h =
      insert_by_comm a b (sort_by key l) h.0.0
      ∙ ap (λ z. insert_by key z (insert_by key a (sort_by key l))) f
      ∙ ap (λ z. insert_by key c (insert_by key z (sort_by key l))) e
  sort_by_reorder (Permᴰ.trans d g) h =
      sort_by_reorder d h ∙ sort_by_reorder g (AreDistinct-Perm d h)

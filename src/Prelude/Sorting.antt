-- ===== src/Prelude/Sorting.antt =====
-- `Array.prototype.sort` by a numeric key, which is stable: an insertion sort from the right.
use Prim.Native.Nat.{ℕ, ◌≤◌, ◌<◌}
use mathlib.Core.Path.{◌≡◌, refl, ap, ◌∙◌}
use mathlib.Core.List.{List, [], ◌∷◌, ◌++◌}
use native.Mathlib.Omega.{arith}
use unikvs.Prelude.Tests.{leb, if◌then◌else◌}
use unikvs.Prelude.Lists.{All}

module _ {A : Type 0} (key : A → ℕ) where
  unfoldable pub insert_by : A → List A → List A
  insert_by x [] = x ∷ []
  insert_by x (y ∷ ys) = if leb (key x) (key y) then x ∷ y ∷ ys else y ∷ insert_by x ys

  unfoldable pub sort_by : List A → List A
  unfolding insert_by
  sort_by [] = []
  sort_by (x ∷ xs) = insert_by x (sort_by xs)

  abbrev pub IsSorted : List A → Type 0
  IsSorted [] = Unit
  IsSorted (x ∷ xs) = All (λ y. key x ≤ key y) xs × IsSorted xs

module _ {A : Type 0} (key : A → ℕ) (P : A → Type 0) where
  All-insert_by : (x : A) (xs : List A) → P x → All P xs → All P (insert_by key x xs)
  unfolding insert_by
  All-insert_by x [] p ps = (p, tt)
  All-insert_by x (y ∷ ys) p ps = ground (arith, All-insert_by x ys p ps.1)

  pub All-sort_by : (xs : List A) → All P xs → All P (sort_by key xs)
  unfolding sort_by
  All-sort_by [] ps = tt
  All-sort_by (x ∷ xs) ps = All-insert_by x (sort_by key xs) ps.0 (All-sort_by xs ps.1)

module _ {A : Type 0} (key : A → ℕ) where
  All-le_trans :
      (n : ℕ) (x : A) (xs : List A)
      → n ≤ key x
      → All (λ y. key x ≤ key y) xs
      → All (λ y. n ≤ key y) xs
  All-le_trans n x [] h hs = tt
  All-le_trans n x (y ∷ ys) h hs = (omega arith, All-le_trans n x ys h hs.1)

  insert_by-IsSorted : (x : A) (xs : List A) → IsSorted key xs → IsSorted key (insert_by key x xs)
  unfolding insert_by
  insert_by-IsSorted x [] s = (tt, tt)
  insert_by-IsSorted x (y ∷ ys) (a, s) = ground (
    arith,
    insert_by-IsSorted x ys s,
    All-le_trans (key x) y ys,
    All-insert_by key (λ z. key y ≤ key z) x ys,
  )

  pub sort_by-IsSorted : (xs : List A) → IsSorted key (sort_by key xs)
  unfolding sort_by
  sort_by-IsSorted [] = tt
  sort_by-IsSorted (x ∷ xs) = insert_by-IsSorted x (sort_by key xs) (sort_by-IsSorted xs)

  insert_by_least :
      (x : A) (xs : List A) → All (λ y. key x ≤ key y) xs → insert_by key x xs ≡ x ∷ xs
  unfolding insert_by
  insert_by_least x [] h = refl
  insert_by_least x (y ∷ ys) h = ground arith

  pub sort_by_of_IsSorted : (xs : List A) → IsSorted key xs → sort_by key xs ≡ xs
  unfolding sort_by
  sort_by_of_IsSorted [] s = refl
  sort_by_of_IsSorted (x ∷ xs) (a, s) =
      ap (insert_by key x) (sort_by_of_IsSorted xs s) ∙ insert_by_least x xs a

  pub sort_by_idempotent : (xs : List A) → sort_by key (sort_by key xs) ≡ sort_by key xs
  sort_by_idempotent xs = sort_by_of_IsSorted (sort_by key xs) (sort_by-IsSorted xs)

  insert_by_greatest :
      (z : A) (xs : List A) → All (λ y. key y < key z) xs → insert_by key z xs ≡ xs ++ z ∷ []
  unfolding insert_by
  insert_by_greatest z [] h = refl
  insert_by_greatest z (y ∷ ys) h = ground (arith, insert_by_greatest z ys h.1)

  insert_by-append :
      (x z : A) (xs : List A)
      → key x < key z
      → insert_by key x (xs ++ z ∷ []) ≡ insert_by key x xs ++ z ∷ []
  unfolding insert_by
  insert_by-append x z [] h = ground arith
  insert_by-append x z (y ∷ ys) h = ground (arith, insert_by-append x z ys h)

  -- The greatest entry, wherever it stands, comes last.
  pub sort_by_greatest :
      (xs ys : List A) (z : A)
      → All (λ y. key y < key z) xs
      → All (λ y. key y < key z) ys
      → sort_by key (xs ++ z ∷ ys) ≡ sort_by key (xs ++ ys) ++ z ∷ []
  unfolding sort_by
  sort_by_greatest [] ys z hx hy =
      insert_by_greatest z (sort_by key ys) (All-sort_by key (λ y. key y < key z) ys hy)
  sort_by_greatest (x ∷ xs) ys z hx hy =
      ap (insert_by key x) (sort_by_greatest xs ys z hx.1 hy)
      ∙ insert_by-append x z (sort_by key (xs ++ ys)) hx.0

-- ===== src/Pipeline/Order.antt =====
-- A leaf that is pushed at the end of its path comes last among the leaves of every level above it.
use unikvs.Prelude.{
  ℕ, suc, ◌≤◌, ◌<◌, ◌≡◌, refl, sym, ap, ◌∙◌, List, [], ◌∷◌, ◌++◌, append_assoc, Equality, ◌==◌,
  Bool-cases, inl, inr, All, All-append, flatten, arith,
}
use unikvs.Prelude.Sorting.{sort_by, sort_by_greatest, All-sort_by}
use unikvs.Pipeline.{Plugins, Leaf, Level, level, Children, childless, child}
use unikvs.Pipeline.Levels.{all_leaves, children_leaves}
use unikvs.Pipeline.Compile.{empty_level, update_child, insert}
use unikvs.Pipeline.Sorted.{
  key, children_leaves_child, children_leaves_childless, all_leaves-eq-sort_by,
}

-- Every leaf below has an index under `n`.
abbrev mutual
  pub LevelBelow : {p : Plugins} → ℕ → Level p → Type 0
  LevelBelow n (level ls ch) = All (λ l. key l < n) ls × ChildrenBelow n ch

  pub ChildrenBelow : {p : Plugins} → ℕ → Children p → Type 0
  ChildrenBelow n childless = Unit
  ChildrenBelow n (child m l rest) = LevelBelow n l × ChildrenBelow n rest

All-mono :
    {A : Type 0} (k : A → ℕ) (m n : ℕ) (xs : List A)
    → m ≤ n
    → All (λ x. k x < m) xs
    → All (λ x. k x < n) xs
All-mono k m n [] h a = tt
All-mono k m n (x ∷ xs) h a = (omega arith, All-mono k m n xs h a.1)

All-append-inv :
    {A : Type 0} (P : A → Type 0) (xs ys : List A) → All P (xs ++ ys) → All P xs × All P ys
All-append-inv P [] ys h = (tt, h)
All-append-inv P (x ∷ xs) ys h = let rest = All-append-inv P xs ys h.1 in ((h.0, rest.0), rest.1)

mutual
  LevelBelow-mono : {p : Plugins} (m n : ℕ) (l : Level p) → m ≤ n → LevelBelow m l → LevelBelow n l
  LevelBelow-mono m n (level ls ch) h b =
      (All-mono key m n ls h b.0, ChildrenBelow-mono m n ch h b.1)

  ChildrenBelow-mono :
      {p : Plugins} (m n : ℕ) (ch : Children p) → m ≤ n → ChildrenBelow m ch → ChildrenBelow n ch
  ChildrenBelow-mono m n childless h b = tt
  ChildrenBelow-mono m n (child a l rest) h b =
      (LevelBelow-mono m n l h b.0, ChildrenBelow-mono m n rest h b.1)

mutual
  all_leaves-below :
      {p : Plugins} (n : ℕ) (l : Level p) → LevelBelow n l → All (λ x. key x < n) (all_leaves l)
  all_leaves-below n (level ls ch) b = rw (all_leaves-eq-sort_by ls ch) (
      All-sort_by key (λ x. key x < n) (ls ++ flatten (children_leaves ch))
        (All-append (λ x. key x < n) ls (flatten (children_leaves ch)) b.0
          (children_leaves-below n ch b.1)))

  children_leaves-below :
      {p : Plugins} (n : ℕ) (ch : Children p)
      → ChildrenBelow n ch
      → All (λ x. key x < n) (flatten (children_leaves ch))
  children_leaves-below n childless b = rw children_leaves_childless tt
  children_leaves-below n (child m l rest) b = rw (children_leaves_child m l rest) (
      All-append (λ x. key x < n) (all_leaves l) (flatten (children_leaves rest))
        (all_leaves-below n l b.0) (children_leaves-below n rest b.1))

all_leaves_empty : {p : Plugins} → all_leaves (empty_level {p = p}) ≡ []
unfolding all_leaves sort_by
all_leaves_empty = refl

-- A list with one more entry somewhere.
abbrev OneMore : {A : Type 0} → A → List A → List A → Type 0
OneMore {A} x old new = (xs : List A) × (ys : List A) × (old ≡ xs ++ ys) × (new ≡ xs ++ x ∷ ys)

module _ {p : Plugins} ⦃e : Equality p.Middleware⦄ (l : Leaf p) where
  abbrev pub Adds : (Level p → Level p) → Type 0
  Adds f = (v : Level p) → LevelBelow (key l) v → all_leaves (f v) ≡ all_leaves v ++ l ∷ []

  update_child-OneMore :
      (m : p.Middleware) (f : Level p → Level p) (ch : Children p)
      → Adds f
      → ChildrenBelow (key l) ch
      → OneMore l (flatten (children_leaves ch)) (flatten (children_leaves (update_child m f ch)))
  unfolding update_child
  update_child-OneMore m f childless h b = (
    [],
    [],
    rw children_leaves_childless,
    rw (
      children_leaves_child m (f empty_level) childless,
      children_leaves_childless,
      h empty_level (tt, tt),
      all_leaves_empty,
    ),
  )
  update_child-OneMore m f (child n v rest) h b = elim (Bool-cases (n == m)) [
    | inl same ↦ (
      all_leaves v,
      flatten (children_leaves rest),
      rw (children_leaves_child n v rest),
      rw (same, children_leaves_child n (f v) rest, h v b.0)
          (append_assoc (all_leaves v) (l ∷ []) (flatten (children_leaves rest))),
    )
    | inr other ↦
        let (xs, ys, old, new) = update_child-OneMore m f rest h b.1 in
        (
          all_leaves v ++ xs,
          ys,
          rw (children_leaves_child n v rest, old) (sym (append_assoc (all_leaves v) xs ys)),
          rw (other, children_leaves_child n v (update_child m f rest), new)
              (sym (append_assoc (all_leaves v) xs (l ∷ ys))),
        )
  ]

  pub insert-Adds : (path : List p.Middleware) → Adds (insert path l)
  unfolding insert
  insert-Adds [] (level ls ch) b =
      all_leaves-eq-sort_by (ls ++ l ∷ []) ch
      ∙ ap (sort_by key) (append_assoc ls (l ∷ []) (flatten (children_leaves ch)))
      ∙ sort_by_greatest key ls (flatten (children_leaves ch)) l b.0
          (children_leaves-below (key l) ch b.1)
      ∙ ap (λ r. r ++ l ∷ []) (sym (all_leaves-eq-sort_by ls ch))
  insert-Adds (m ∷ path) (level ls ch) b =
      let (xs, ys, old, new) = update_child-OneMore m (insert path l) ch (insert-Adds path) b.1 in
      let bound =
        All-append-inv (λ (x : Leaf p). key x < key l) xs ys
          (rw old at (children_leaves-below (key l) ch b.1)) in
      all_leaves-eq-sort_by ls (update_child m (insert path l) ch)
      ∙ ap (λ r. sort_by key (ls ++ r)) new
      ∙ ap (sort_by key) (sym (append_assoc ls xs (l ∷ ys)))
      ∙ sort_by_greatest key (ls ++ xs) ys l
          (All-append (λ (x : Leaf p). key x < key l) ls xs b.0 bound.0) bound.1
      ∙ ap (λ r. sort_by key r ++ l ∷ []) (append_assoc ls xs ys ∙ ap (λ r. ls ++ r) (sym old))
      ∙ ap (λ r. r ++ l ∷ []) (sym (all_leaves-eq-sort_by ls ch))

  abbrev pub Keeps : (Level p → Level p) → Type 0
  Keeps f = (v : Level p) → LevelBelow (key l) v → LevelBelow (suc (key l)) (f v)

  update_child-below :
      (m : p.Middleware) (f : Level p → Level p) (ch : Children p)
      → Keeps f
      → ChildrenBelow (key l) ch
      → ChildrenBelow (suc (key l)) (update_child m f ch)
  unfolding update_child
  update_child-below m f childless h b = (h empty_level (tt, tt), tt)
  update_child-below m f (child n v rest) h b = elim (Bool-cases (n == m)) [
    | inl same ↦ rw same (h v b.0, ChildrenBelow-mono (key l) (suc (key l)) rest (omega arith) b.1)
    | inr other ↦ rw other (
      LevelBelow-mono (key l) (suc (key l)) v (omega arith) b.0,
      update_child-below m f rest h b.1,
    )
  ]

  pub insert-Keeps : (path : List p.Middleware) → Keeps (insert path l)
  unfolding insert
  insert-Keeps [] (level ls ch) b = (
    All-append (λ (x : Leaf p). key x < suc (key l)) ls (l ∷ [])
        (All-mono key (key l) (suc (key l)) ls (omega arith) b.0) (omega arith, tt),
    ChildrenBelow-mono (key l) (suc (key l)) ch (omega arith) b.1,
  )
  insert-Keeps (m ∷ path) (level ls ch) b = (
    All-mono key (key l) (suc (key l)) ls (omega arith) b.0,
    update_child-below m (insert path l) ch (insert-Keeps path) b.1,
  )

-- ===== src/Variables/Readonly.antt =====
-- A variable that was set read-only stays as it is.
use unikvs.Prelude.{
  ◌≡◌, refl, sym, ap, ◌∙◌, Bool, true, false, Bool-cases, inl, inr, String, string_equality, ◌==◌,
  List, [], ◌∷◌, ◌++◌, any, ◌||◌, arith,
}
use unikvs.JsMap
use unikvs.JsMap.Laws.{get-set}
use unikvs.Variables.{VariablesStore, is_readonly, get, put, unless_readonly, set, set_readonly}

pub data VariablesCall (V : Type 0) : Type 0 where
  setting setting_readonly : String → V → VariablesCall V

or_mono : (a b c : Bool) → (b ≡ true → c ≡ true) → (a || b) ≡ true → (a || c) ≡ true
or_mono true b c h t = refl
or_mono false b c h t = h t

any-append :
    (k : String) (ns : List String) (n : String)
    → any (λ m. m == k) ns ≡ true
    → any (λ m. m == k) (ns ++ n ∷ []) ≡ true
any-append k [] n h = absurd (ground (arith, h))
any-append k (m ∷ ns) n h =
    or_mono (m == k) (any (λ i. i == k) ns) (any (λ i. i == k) (ns ++ n ∷ [])) (any-append k ns n) h

module _ {V : Type 0} where
  unfoldable pub call : VariablesCall V → VariablesStore V → VariablesStore V
  unfolding set set_readonly
  call (setting name value) store = (set name value store).1
  call (setting_readonly name value) store = (set_readonly name value store).1

  -- Calls one after the other, by middlewares that catch what is thrown.
  unfoldable pub calls : List (VariablesCall V) → VariablesStore V → VariablesStore V
  unfolding call
  calls [] store = store
  calls (c ∷ cs) store = calls cs (call c store)

  other_name :
      (k name : String) (value : V) (store : VariablesStore V)
      → is_readonly k store ≡ true
      → is_readonly name store ≡ false
      → JsMap.get k (put name value store).variables ≡ JsMap.get k store.variables
  other_name k name value store fixed free = elim (Bool-cases (name == k)) [
    | inr other ↦ get-set name k value store.variables ∙ rw other refl
    | inl same ↦ absurd (
        ground (
          arith,
          sym free
              ∙ ap (λ n. is_readonly n store) ((string_equality.equal_iff name k).0 same)
              ∙ fixed,
        ))
  ]

  -- The variable has the value it had, and is read-only.
  unfoldable pub Keeps : String → VariablesStore V → VariablesStore V → Type 0
  unfolding get
  Keeps k store store' = (get k store' ≡ get k store) × (is_readonly k store' ≡ true)

  unless_readonly-Keeps :
      (k : String) (b : Bool) (name : String) (changed store : VariablesStore V)
      → is_readonly k store ≡ true
      → (b ≡ false → Keeps k store changed)
      → Keeps k store (unless_readonly b name changed store).1
  unfolding Keeps
  unless_readonly-Keeps k true name changed store fixed h = (refl, fixed)
  unless_readonly-Keeps k false name changed store fixed h = h refl

  call-Keeps :
      (k : String) (c : VariablesCall V) (store : VariablesStore V)
      → is_readonly k store ≡ true
      → Keeps k store (call c store)
  unfolding Keeps get call set set_readonly
  call-Keeps k (setting name value) store fixed =
      unless_readonly-Keeps k (is_readonly name store) name (put name value store) store fixed
        (λ free. (other_name k name value store fixed free, fixed))
  call-Keeps k (setting_readonly name value) store fixed =
      unless_readonly-Keeps k (is_readonly name store) name
        (record (put name value store) { readonly = store.readonly ++ name ∷ [] }) store fixed
        (λ free. (other_name k name value store fixed free, any-append k store.readonly name fixed))

  -- Once a variable is read-only, no further call to `set` or `setReadonly`, of it or of another, changes
  -- its value or makes it writable.
  pub calls-Keeps :
      (k : String) (cs : List (VariablesCall V)) (store : VariablesStore V)
      → is_readonly k store ≡ true
      → Keeps k store (calls cs store)
  unfolding Keeps get calls
  calls-Keeps k [] store fixed = (refl, fixed)
  calls-Keeps k (c ∷ cs) store fixed =
      let (same, still) = call-Keeps k c store fixed in
      let (rest, kept) = calls-Keeps k cs (call c store) still in (rest ∙ same, kept)

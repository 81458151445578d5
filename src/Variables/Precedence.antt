-- ===== src/Variables/Precedence.antt =====
-- Which value of a variable an operation sees.
use unikvs.Prelude.{
  ◌≡◌, refl, sym, ap, ◌∙◌, Bool, true, false, Bool-cases, inl, inr, String, string_equality, ◌==◌,
  Option, none, some, List, [], ◌∷◌, ◌++◌, if◌then◌else◌,
}
use unikvs.JsMap
use unikvs.JsMap.{JsMap, IsUnique}
use unikvs.JsMap.Laws.{get-set, set-IsUnique}
use unikvs.Variables.{
  VariablesEntry, set_entries, get, assign_vars, defaults_vars, create_operation_store,
}

abbrev pub or_else : {V : Type 0} → Option V → Option V → Option V
or_else (some v) other = some v
or_else none other = other

-- The value of a name in a row of entries, of which a later one counts more.
abbrev pub last_of : {V : Type 0} → String → List (VariablesEntry V) → Option V
last_of k [] = none
last_of k ((name, value) ∷ vars) = or_else (last_of k vars) (if name == k then some value else none)

module _ {V : Type 0} where
  or_else-none : (o : Option V) → or_else o none ≡ o
  or_else-none none = refl
  or_else-none (some v) = refl

  or_else_assoc : (a b c : Option V) → or_else (or_else a b) c ≡ or_else a (or_else b c)
  or_else_assoc (some v) b c = refl
  or_else_assoc none b c = refl

  get-set_entries :
      (k : String) (m : JsMap String V) (vars : List (VariablesEntry V))
      → JsMap.get k (set_entries m vars) ≡ or_else (last_of k vars) (JsMap.get k m)
  unfolding set_entries
  get-set_entries k m [] = refl
  get-set_entries k m ((name, value) ∷ vars) =
      get-set_entries k (JsMap.set name value m) vars
      ∙ ap (or_else (last_of k vars)) (set_one (name == k) (get-set name k value m))
      ∙ sym
          (or_else_assoc (last_of k vars) (if name == k then some value else none) (JsMap.get k m))
    where
      set_one :
          (c : Bool)
          → JsMap.get k (JsMap.set name value m) ≡ (if c then some value else JsMap.get k m)
          → JsMap.get k (JsMap.set name value m)
            ≡ or_else (if c then some value else none) (JsMap.get k m)
      set_one true h = h
      set_one false h = h

  last_of-append :
      (k : String) (a b : List (VariablesEntry V))
      → last_of k (a ++ b) ≡ or_else (last_of k b) (last_of k a)
  last_of-append k [] b = sym (or_else-none (last_of k b))
  last_of-append k ((name, value) ∷ a) b =
      let here = if name == k then some value else none in
      ap (λ o. or_else o here) (last_of-append k a b)
      ∙ or_else_assoc (last_of k b) (last_of k a) here

  -- In a `Map` a name is there once.
  last_of-IsUnique : (k : String) (m : JsMap String V) → IsUnique m → last_of k m ≡ JsMap.get k m
  unfolding JsMap.get
  last_of-IsUnique k [] u = refl
  last_of-IsUnique k ((name, value) ∷ m) (absent, u) = elim (Bool-cases (name == k)) [
    | inr other ↦
        rw other (ap (λ o. or_else o none) (last_of-IsUnique k m u) ∙ or_else-none (JsMap.get k m))
    | inl same ↦
        let at_name = (string_equality.equal_iff name k).0 same in
        let gone : last_of k m ≡ none =
          last_of-IsUnique k m u ∙ ap (λ n. JsMap.get n m) (sym at_name) ∙ absent in
        rw (same, gone) refl
  ]

  set_entries-IsUnique :
      (m : JsMap String V) (vars : List (VariablesEntry V))
      → IsUnique m
      → IsUnique (set_entries m vars)
  unfolding set_entries
  set_entries-IsUnique m [] u = u
  set_entries-IsUnique m ((name, value) ∷ vars) u =
      set_entries-IsUnique (JsMap.set name value m) vars (set-IsUnique name value m u)

  -- Two rows of entries in one `Map`, as its own entries.
  both_rows :
      (k : String) (first second : List (VariablesEntry V))
      → last_of k (set_entries (set_entries [] first) second)
        ≡ or_else (last_of k second) (last_of k first)
  unfolding JsMap.get
  both_rows k first second =
      last_of-IsUnique k (set_entries (set_entries [] first) second)
        (set_entries-IsUnique (set_entries [] first) second (set_entries-IsUnique [] first tt))
      ∙ get-set_entries k (set_entries [] first) second
      ∙ ap (or_else (last_of k second))
          (get-set_entries k [] first ∙ or_else-none (last_of k first))

  -- An operation sees a variable's value from its own variables if they name it, else from what was
  -- assigned to the client last, else from the client's base, else from the defaults; within one row of
  -- entries the last one counts.
  pub get-create_operation_store :
      (k : String) (base defaults assigned vars : List (VariablesEntry V))
      → get k (create_operation_store (assign_vars assigned (defaults_vars defaults base)) vars)
        ≡ or_else
            (last_of k vars)
            (or_else (last_of k assigned) (or_else (last_of k base) (last_of k defaults)))
  unfolding get create_operation_store assign_vars defaults_vars JsMap.get
  get-create_operation_store k base defaults assigned vars =
      let defaulted = set_entries (set_entries [] defaults) base in
      let all = set_entries (set_entries [] defaulted) assigned in
      get-set_entries k [] (all ++ vars)
      ∙ or_else-none (last_of k (all ++ vars))
      ∙ last_of-append k all vars
      ∙ ap (or_else (last_of k vars)) (
          both_rows k defaulted assigned
          ∙ ap (or_else (last_of k assigned)) (both_rows k defaults base))

-- ===== src/Variables.antt =====
-- unikvs/src/_contexts.ts, `VariablesStore` and `PipelineContext`: the runtime variables that the contexts
-- of one operation share; and the base variables of the client in unikvs/src/unikvs.ts. A record of
-- initial values is taken as its entries.
pub mod Precedence
pub mod Readonly
mod Tests
use unikvs.Prelude.{
  Bool, true, false, ◌||◌, String, string_equality, ◌==◌, Option, none, some, List, [], ◌∷◌, ◌++◌,
  any, if◌then◌else◌,
}
use unikvs.Prelude.Exec.{Result, ok, thrown, Exec}
use unikvs.JsMap
use unikvs.JsMap.{JsMap}

abbrev pub VariablesEntry : Type 0 → Type 0
VariablesEntry V = String × V

-- `VariablesStore`
pub record VariablesStore (V : Type 0) : Type 0 where
  pub variables : JsMap String V
  pub readonly : List String

-- What `set` and `setReadonly` throw.
pub data ReadonlyVariableError : Type 0 where
  readonly_variable : String → ReadonlyVariableError

module _ {V : Type 0} where
  -- The entries set one after the other.
  unfoldable pub set_entries : JsMap String V → List (VariablesEntry V) → JsMap String V
  set_entries m [] = m
  set_entries m ((name, value) ∷ vars) = set_entries (JsMap.set name value m) vars

  -- `createVariablesStore`, of which `new Map(vars)` sets the entries.
  unfoldable pub create_variables_store : List (VariablesEntry V) → VariablesStore V
  unfolding set_entries
  create_variables_store vars = record { variables = set_entries [] vars; readonly = [] }

  -- `new PipelineContext` on a shared store.
  unfoldable pub new_context : List (VariablesEntry V) → VariablesStore V → VariablesStore V
  unfolding set_entries
  new_context vars store = record store { variables = set_entries store.variables vars }

  abbrev pub is_readonly : String → VariablesStore V → Bool
  is_readonly name store = any (λ n. n == name) store.readonly

  unfoldable pub get : String → VariablesStore V → Option V
  get name store = JsMap.get name store.variables

  abbrev pub put : String → V → VariablesStore V → VariablesStore V
  put name value store = record store { variables = JsMap.set name value store.variables }

  abbrev pub unless_readonly :
      Bool
      → String
      → VariablesStore V
      → VariablesStore V
      → Result ReadonlyVariableError (Unit {0}) × VariablesStore V
  unless_readonly true name changed store = (thrown (readonly_variable name), store)
  unless_readonly false name changed store = (ok tt, changed)

  unfoldable pub set : String → V → Exec (VariablesStore V) ReadonlyVariableError (Unit {0})
  set name value store = unless_readonly (is_readonly name store) name (put name value store) store

  unfoldable pub set_readonly :
      String → V → Exec (VariablesStore V) ReadonlyVariableError (Unit {0})
  set_readonly name value store =
      unless_readonly (is_readonly name store) name
        (record (put name value store) { readonly = store.readonly ++ name ∷ [] }) store

  -- `setVars`, `assignVars` and `defaultsVars`, by the base variables before and after.
  unfoldable pub set_vars :
      List (VariablesEntry V) → List (VariablesEntry V) → List (VariablesEntry V)
  set_vars vars base = vars

  unfoldable pub assign_vars :
      List (VariablesEntry V) → List (VariablesEntry V) → List (VariablesEntry V)
  unfolding set_entries
  assign_vars vars base = set_entries (set_entries [] base) vars

  unfoldable pub defaults_vars :
      List (VariablesEntry V) → List (VariablesEntry V) → List (VariablesEntry V)
  unfolding set_entries
  defaults_vars vars base = set_entries (set_entries [] vars) base

  -- `#createOperationStore`
  unfoldable pub create_operation_store :
      List (VariablesEntry V) → List (VariablesEntry V) → VariablesStore V
  unfolding create_variables_store
  create_operation_store base vars = create_variables_store (base ++ vars)

-- ===== src/Variables/Tests.antt =====
-- Variables of one operation of a client with base variables.
use unikvs.Prelude.{ℕ, ◌≡◌, refl, some, List, [], ◌∷◌}
use unikvs.JsMap
use unikvs.Variables.{
  VariablesEntry, VariablesStore, get, set_entries, create_variables_store, assign_vars,
  defaults_vars, create_operation_store,
}
use unikvs.Variables.Precedence.{get-create_operation_store}
use unikvs.Variables.Readonly.{Keeps, setting, setting_readonly, calls, calls-Keeps}

abbrev defaults : List (VariablesEntry ℕ)
defaults = ("ttl", 1) ∷ ("tag", 2) ∷ []

abbrev base : List (VariablesEntry ℕ)
base = ("tag", 3) ∷ ("user", 4) ∷ []

abbrev assigned : List (VariablesEntry ℕ)
assigned = ("user", 5) ∷ []

abbrev own : List (VariablesEntry ℕ)
own = ("size", 6) ∷ []

seen_tag :
    get "tag" (create_operation_store (assign_vars assigned (defaults_vars defaults base)) own)
    ≡ some 3
unfolding get JsMap.get JsMap.set create_operation_store create_variables_store set_entries
    assign_vars defaults_vars
seen_tag = refl

get-create_operation_store_example :
    get "user" (create_operation_store (assign_vars assigned (defaults_vars defaults base)) own)
    ≡ some 5
unfolding get JsMap.get JsMap.set create_operation_store create_variables_store set_entries
    assign_vars defaults_vars
get-create_operation_store_example = get-create_operation_store "user" base defaults assigned own

abbrev frozen : VariablesStore ℕ
frozen = record { variables = ("user", 5) ∷ ("tag", 3) ∷ []; readonly = "user" ∷ [] }

calls-Keeps_example : Keeps "user" frozen (
    calls
      (setting "user" 9
        ∷ setting "tag" 8
        ∷ setting_readonly "tag" 7
        ∷ setting_readonly "user" 6
        ∷ [])
      frozen)
calls-Keeps_example =
    calls-Keeps "user"
      (setting "user" 9
        ∷ setting "tag" 8
        ∷ setting_readonly "tag" 7
        ∷ setting_readonly "user" 6
        ∷ [])
      frozen refl

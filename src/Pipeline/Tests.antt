-- ===== src/Pipeline/Tests.antt =====
-- A graph of three destinations over two middlewares, and the theorems at it.
use unikvs.Prelude.{ℕ, String, [], ◌∷◌, List}
use unikvs.Pipeline.{Plugins, Destination}

-- A middleware is known by a number.
abbrev named : Plugins
named = record {
  Middleware = ℕ;
  Storage = String;
  middleware_name = λ m. "AllowRepair";
  storage_name = λ s. s;
}

abbrev to : String → List ℕ → Destination named
to s ms = record { storage = s; middlewares = ms }

abbrev three : List (Destination named)
three = to "a" (1 ∷ 2 ∷ []) ∷ to "b" [] ∷ to "c" (1 ∷ []) ∷ []

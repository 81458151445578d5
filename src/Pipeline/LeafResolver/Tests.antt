-- ===== src/Pipeline/LeafResolver/Tests.antt =====
-- Two leaves that share a node.
use unikvs.Prelude.{
  nat_equality, ℕ, Bool, false, String, nat_beq, Equality, ◌≡◌, refl, List, [], ◌∷◌, map,
  if◌then◌else◌,
}
use unikvs.Prelude.Rows.{list_equality}
use unikvs.Prelude.Exec.{ok}
use unikvs.JsMap.{get, set}
use unikvs.Pipeline.{Plugins, Leaf}
use unikvs.Pipeline.Contract.Convey.{convey}
use unikvs.Pipeline.Plain.{IsPlain}
use unikvs.Pipeline.Decode.{Runtime}
use unikvs.Pipeline.Encode.Walked.{target_of}
use unikvs.Pipeline.LeafResolver.{resolve_all, resolve, resolve_from, node_key}
use unikvs.Pipeline.LeafResolver.Keys.{resolve_all-targets}

abbrev rows : Equality (List ℕ)
rows = list_equality ⦃e = nat_equality⦄

abbrev numbered : Plugins
numbered = record {
  Middleware = ℕ;
  Storage = String;
  middleware_name = λ m. "Prefix";
  storage_name = λ s. s;
}

abbrev key_of : ℕ → String → String
key_of m k = if nat_beq m 1 then "one" else "other"

-- The values go through as they are.
abbrev prefixes : Runtime numbered
prefixes = record {
  State = Bool;
  Value = ℕ;
  Failure = ℕ;
  aborted = λ s. s;
  reason = λ s. 0;
  encode = λ m x. convey x;
  decode = λ m x. convey x;
  map_key = λ m k s. (ok (key_of m k), s);
}

prefixes-IsPlain : IsPlain prefixes
prefixes-IsPlain = record {
  encoded_by = λ m x. x;
  decoded_by = λ m x. x;
  key_by = key_of;
  encode_conveys = λ m x. refl;
  decode_conveys = λ m x. refl;
  map_key_maps = λ m k s. refl;
  decodes = λ m x. refl;
}

abbrev leaf_at : ℕ → List ℕ → Leaf numbered
leaf_at n path = record { storage = "s"; index = n; name = "s"; can_repair = false; path = path }

abbrev two : List (Leaf numbered)
two = leaf_at 0 (1 ∷ []) ∷ leaf_at 1 (1 ∷ 2 ∷ []) ∷ []

two_keys : resolve_all ⦃e = rows⦄ prefixes "k" two [] false ≡ ok ("one" ∷ "other" ∷ [])
unfolding resolve_all resolve resolve_from node_key get set
two_keys = refl

resolve_all-targets_example :
    resolve_all ⦃e = rows⦄ prefixes "k" two [] false
    ≡ ok (map (λ l. (target_of prefixes prefixes-IsPlain "k" 5 l).key) two)
resolve_all-targets_example =
    resolve_all-targets ⦃e = rows⦄ prefixes prefixes-IsPlain "k" 5 two false

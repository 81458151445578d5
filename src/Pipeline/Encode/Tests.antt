-- ===== src/Pipeline/Encode/Tests.antt =====
-- Three destinations whose middlewares put their number before a value.
use unikvs.Prelude.{
  ℕ, Bool, false, String, nat_beq, nat_equality, ◌≡◌, refl, some, List, [], ◌∷◌, All, if◌then◌else◌,
}
use unikvs.Prelude.Exec.{ok}
use unikvs.Pipeline.{Plugins, Destination}
use unikvs.Pipeline.Contract.Convey.{convey}
use unikvs.Pipeline.Plain.{IsPlain}
use unikvs.Pipeline.Compile.{PipelineGraph, compile}
use unikvs.Pipeline.Decode.{Runtime}
use unikvs.Pipeline.Encode.{EncodeTarget, encode}
use unikvs.Pipeline.Encode.Undone.{Decodes}
use unikvs.Pipeline.Delivery.{targets_from, encode_compile-targets, encode_compile-Decodes}

abbrev named : Plugins
named = record {
  Middleware = ℕ;
  Storage = String;
  middleware_name = λ m. "Tag";
  storage_name = λ s. s;
}

abbrev untagged : List ℕ → List ℕ
untagged [] = []
untagged (n ∷ ns) = ns

abbrev key_of : ℕ → String → String
key_of m k = if nat_beq m 1 then "one" else k

-- The state is whether the signal is aborted.
abbrev tags : Runtime named
tags = record {
  State = Bool;
  Value = List ℕ;
  Failure = ℕ;
  aborted = λ s. s;
  reason = λ s. 0;
  encode = λ m x. convey (m ∷ x);
  decode = λ m x. convey (untagged x);
  map_key = λ m k s. (ok (key_of m k), s);
}

tags-IsPlain : IsPlain tags
tags-IsPlain = record {
  encoded_by = λ m x. m ∷ x;
  decoded_by = λ m x. untagged x;
  key_by = key_of;
  encode_conveys = λ m x. refl;
  decode_conveys = λ m x. refl;
  map_key_maps = λ m k s. refl;
  decodes = λ m x. refl;
}

abbrev to : String → List ℕ → Destination named
to s ms = record { storage = s; middlewares = ms }

abbrev three : List (Destination named)
three = to "a" (1 ∷ 2 ∷ []) ∷ to "b" [] ∷ to "c" (1 ∷ []) ∷ []

encode_compile-targets_example :
    (g : PipelineGraph named) × (compile ⦃e = nat_equality⦄ three ≡ some g)
    × (encode tags g.entries "k" (7 ∷ []) false
        ≡ (ok (targets_from ⦃e = nat_equality⦄ tags tags-IsPlain "k" (7 ∷ []) 0 three), false))
encode_compile-targets_example =
    encode_compile-targets ⦃e = nat_equality⦄ tags tags-IsPlain "k" (7 ∷ []) three false refl

encode_compile-Decodes_example :
    (g : PipelineGraph named) × (compile ⦃e = nat_equality⦄ three ≡ some g)
    × ((ts : List (EncodeTarget tags)) × (encode tags g.entries "k" (7 ∷ []) false ≡ (ok ts, false))
        × All (Decodes tags tags-IsPlain (7 ∷ []) false) ts)
encode_compile-Decodes_example =
    encode_compile-Decodes ⦃e = nat_equality⦄ tags tags-IsPlain "k" (7 ∷ []) three false refl

-- ===== src/Core/Tests/Failing.antt =====
-- A value that one of two storages does not take.
use unikvs.Prelude.{ℕ, ◌≡◌, refl, nat_equality, String, some, List, [], ◌∷◌, ◌++◌, All, arith}
use unikvs.Prelude.Exec.{thrown}
use unikvs.Prelude.Reorder.{AreDistinct}
use unikvs.Prelude.Sorting.{sort_by}
use unikvs.Pipeline.Encode.{EncodeTarget}
use unikvs.Core.{PluginErrorRecord, aggregate, writes}
use unikvs.Core.Outcomes.{mark, fail, Progress, committed, failed}
use unikvs.Core.Outcomes.Started.{label_indexes}
use unikvs.Core.Outcomes.Turns.{seen, AreKnown, label_index}
use unikvs.Core.Write.{write_targets, set_targets}
use unikvs.Core.Write.Settled.{leaf_at, shown, IsWritten, write_targets-IsWritten}
use unikvs.Core.Write.Ends.{set_targets_ends, set_targets-thrown, FailsWith, due}
use unikvs.Core.Tests.World.{
  World, adding, memory, memory-AreStorages, stored, graph, empty, put, leaf_a, leaf_b,
  second_broken,
}

abbrev targets : List (EncodeTarget adding)
targets =
    record { key = "k"; encoded = 6; leaf = leaf_a }
    ∷ record { key = "k"; encoded = 5; leaf = leaf_b }
    ∷ []

targets-apart : AreDistinct (label_index leaf_at) targets
targets-apart = ((λ q. omega arith, tt), (tt, tt))

abbrev lost : List (PluginErrorRecord String)
lost = record { name = "b"; index = 1; reason = "broken" } ∷ []

abbrev after_writes : Progress World String
after_writes = record {
  world = put 0 "k" (some 6) empty;
  errors = lost;
  outcomes =
      (0, record { name = "a"; status = committed })
      ∷ (1, record { name = "b"; status = failed "broken" })
      ∷ [];
  found = [];
  rejected = [];
}

write_run :
    write_targets (memory second_broken) (1 ∷ 0 ∷ 1 ∷ 0 ∷ []) targets empty ≡ some after_writes
unfolding write_targets mark fail
write_run = refl

write_targets-IsWritten_example :
    All (λ t. IsWritten t (seen leaf_at (shown stored) t after_writes)) targets
    × AreKnown (label_indexes leaf_at targets) after_writes
write_targets-IsWritten_example =
    write_targets-IsWritten (memory second_broken) stored (memory-AreStorages second_broken)
      (1 ∷ 0 ∷ 1 ∷ 0 ∷ []) targets empty after_writes targets-apart write_run

set_targets_run :
    set_targets
      (memory second_broken)
      ⦃e = nat_equality⦄
      graph
      (1 ∷ 0 ∷ 1 ∷ 0 ∷ [])
      (0 ∷ [])
      "k"
      targets
      empty
    ≡ some (thrown (aggregate writes lost), put 0 "k" (some 6) empty)
unfolding set_targets mark sort_by fail
set_targets_run = refl

set_targets-thrown_example :
    (books : Progress World String) × FailsWith
      (memory second_broken)
      ⦃e = nat_equality⦄
      graph
      stored
      (memory-AreStorages second_broken)
      (1 ∷ 0 ∷ 1 ∷ 0 ∷ [])
      (0 ∷ [])
      "k"
      targets
      empty
      (put 0 "k" (some 6) empty)
      (aggregate writes lost)
      targets-apart
      books
set_targets-thrown_example =
    set_targets-thrown (memory second_broken) ⦃e = nat_equality⦄ graph stored
      (memory-AreStorages second_broken) (1 ∷ 0 ∷ 1 ∷ 0 ∷ []) (0 ∷ []) "k" targets empty
      (put 0 "k" (some 6) empty) (aggregate writes lost) targets-apart set_targets_run

set_targets_ends_example :
    (further notices : List ℕ) × (books : Progress World String) × (s' : World) × (write_targets
        (memory second_broken)
        ((1 ∷ []) ++ further)
        targets
        empty
      ≡ some books)
    × (set_targets
          (memory second_broken)
          ⦃e = nat_equality⦄
          graph
          ((1 ∷ []) ++ further)
          notices
          "k"
          targets
          empty
        ≡ some (due books.errors, s'))
    × All (λ t. IsWritten t (seen leaf_at (shown stored) t books)) targets
set_targets_ends_example =
    set_targets_ends (memory second_broken) ⦃e = nat_equality⦄ graph stored
      (memory-AreStorages second_broken) targets targets-apart (1 ∷ []) "k" empty

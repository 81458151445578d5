-- ===== src/Core/Tests/Ordinary.antt =====
-- Values that are set, read and cleared.
use unikvs.Prelude.{ℕ, ◌≡◌, refl, true, Equality, nat_equality, none, some, List, [], ◌∷◌, All}
use unikvs.Prelude.Exec.{ok, thrown}
use unikvs.Prelude.Rows.{list_equality}
use unikvs.Prelude.Sorting.{sort_by}
use unikvs.JsMap
use unikvs.Pipeline.Plain.{keys_of}
use unikvs.Pipeline.Contract.{final_violation}
use unikvs.Core.Outcomes.{mark}
use unikvs.Core.{key_not_found, no_cause}
use unikvs.Core.Read.{get, has}
use unikvs.Core.Read.Asked.{get-first, has-first}
use unikvs.Core.Remove.{clear, delete}
use unikvs.Core.Remove.Gone.{delete-IsGone, own_key}
use unikvs.Core.Remove.Emptied.{clear-IsEmptyAt}
use unikvs.Core.RoundTrip.{get-set}
use unikvs.Core.Transfer.{transfer, copying}
use unikvs.Core.Transfer.Carried.{transfer-AreCarried}
use unikvs.Core.Transfer.Returned.{AreCarried}
use unikvs.Core.Write.{set}
use unikvs.Core.Write.Stored.{set-Holds}
use unikvs.Core.Write.Done.{Holds}
use unikvs.Pipeline.Delivery.{targets_from}
use unikvs.Core.Tests.World.{
  World, adding, adding-IsPlain, memory, memory-AreStorages, stored, two, graph, compile-graph,
  empty, none_broken, put, drop_all, memory-AreReadable, memory-IsServing,
}

abbrev after_set : World
after_set = put 0 "k" (some 6) (put 1 "k" (some 5) empty)

set_run :
    set (memory none_broken) ⦃e = nat_equality⦄ graph (1 ∷ 0 ∷ 0 ∷ 1 ∷ []) [] "k" 5 empty
    ≡ some (ok tt, after_set)
unfolding set final_violation sort_by mark
set_run = refl

set-Holds_example :
    (x : ℕ) × ((memory none_broken).check_input "k" 5 ≡ ok x)
    × All
        (Holds
          (memory none_broken)
          stored
          (memory-AreStorages none_broken)
          ⦃e = nat_equality⦄
          graph
          after_set)
        (targets_from ⦃e = nat_equality⦄ adding adding-IsPlain "k" x 0 two)
set-Holds_example =
    set-Holds (memory none_broken) stored (memory-AreStorages none_broken) ⦃e = nat_equality⦄ graph
      adding-IsPlain two compile-graph (1 ∷ 0 ∷ 0 ∷ 1 ∷ []) [] "k" 5 empty after_set set_run

abbrev rows : Equality (List ℕ)
rows = list_equality ⦃e = nat_equality⦄

get-set_example :
    (x : ℕ) × (s' : World) × ((memory none_broken).check_input "k" 5 ≡ ok x)
    × (get (memory none_broken) ⦃path = rows⦄ graph "k" after_set ≡ some (ok x, s'))
get-set_example =
    get-set (memory none_broken) adding-IsPlain stored (memory-AreReadable none_broken)
      ⦃path = rows⦄ (memory-AreStorages none_broken) (memory-IsServing none_broken)
      ⦃e = nat_equality⦄ graph (record { storage = "a"; middlewares = 1 ∷ [] })
      (record { storage = "b"; middlewares = [] } ∷ []) compile-graph (1 ∷ 0 ∷ 0 ∷ 1 ∷ []) [] "k" 5
      empty after_set set_run refl refl (λ x h. refl)

get-first_example :
    get (memory none_broken) ⦃path = rows⦄ graph "m" after_set
    ≡ some (thrown (key_not_found "m" no_cause), after_set)
get-first_example =
    get-first (memory none_broken) (keys_of adding-IsPlain) ⦃path = rows⦄ stored
      (memory-AreReadable none_broken) graph "m" (memory-IsServing none_broken) after_set refl refl
      refl

has-first_example :
    has (memory none_broken) ⦃path = rows⦄ graph "k" after_set ≡ some (ok true, after_set)
has-first_example =
    has-first (memory none_broken) (keys_of adding-IsPlain) ⦃path = rows⦄ stored
      (memory-AreReadable none_broken) graph "k" (memory-IsServing none_broken) after_set refl refl
      refl

clear_run :
    clear (memory none_broken) ⦃e = nat_equality⦄ graph (1 ∷ 0 ∷ 0 ∷ 1 ∷ []) after_set
    ≡ some (ok tt, drop_all 0 (drop_all 1 after_set))
unfolding clear final_violation mark
clear_run = refl

clear-IsEmptyAt_example :
    All (λ l. stored l "k" (drop_all 0 (drop_all 1 after_set)) ≡ none) graph.leaves
clear-IsEmptyAt_example =
    clear-IsEmptyAt (memory none_broken) ⦃e = nat_equality⦄ graph stored
      (memory-AreStorages none_broken) two compile-graph "k" (1 ∷ 0 ∷ 0 ∷ 1 ∷ []) after_set
      (drop_all 0 (drop_all 1 after_set)) clear_run

delete_run :
    delete
      (memory none_broken)
      ⦃e = nat_equality⦄
      graph
      ⦃path = rows⦄
      (1 ∷ 0 ∷ 0 ∷ 1 ∷ 1 ∷ 0 ∷ [])
      "k"
      after_set
    ≡ some (ok tt, put 1 "k" none (put 0 "k" none after_set))
unfolding delete final_violation JsMap.get
delete_run = refl

delete-IsGone_example :
    All
      (λ l.
        stored l
          (own_key (keys_of adding-IsPlain) ⦃path = rows⦄ "k" l)
          (put 1 "k" none (put 0 "k" none after_set))
        ≡ none)
      graph.leaves
delete-IsGone_example =
    delete-IsGone (memory none_broken) (keys_of adding-IsPlain) ⦃e = nat_equality⦄ ⦃path = rows⦄
      graph stored (memory-AreStorages none_broken) two compile-graph "k"
      (1 ∷ 0 ∷ 0 ∷ 1 ∷ 1 ∷ 0 ∷ []) after_set (put 1 "k" none (put 0 "k" none after_set)) delete_run

abbrev after_copy : World
after_copy = put 0 "m" (some 6) (put 1 "m" (some 5) after_set)

copy_run :
    transfer
      (memory none_broken)
      ⦃e = nat_equality⦄
      graph
      ⦃path = rows⦄
      copying
      (1 ∷ 1 ∷ 0 ∷ 0 ∷ 1 ∷ 1 ∷ 0 ∷ 0 ∷ [])
      "k"
      "m"
      after_set
    ≡ some (ok tt, after_copy)
unfolding transfer JsMap.get final_violation
copy_run = refl

transfer-AreCarried_example :
    AreCarried
      (memory none_broken)
      (keys_of adding-IsPlain)
      stored
      (memory-AreStorages none_broken)
      (λ s m c o h. h)
      ⦃e = nat_equality⦄
      ⦃path = rows⦄
      graph
      two
      compile-graph
      copying
      "k"
      "m"
      after_set
      after_copy
transfer-AreCarried_example =
    transfer-AreCarried (memory none_broken) (keys_of adding-IsPlain) stored
      (memory-AreStorages none_broken) (memory-IsServing none_broken) (λ k l m s. refl)
      (λ s m c o h. h) ⦃e = nat_equality⦄ ⦃path = rows⦄ graph two compile-graph copying "k" "m"
      (1 ∷ 1 ∷ 0 ∷ 0 ∷ 1 ∷ 1 ∷ 0 ∷ 0 ∷ []) after_set after_copy refl refl copy_run

-- ===== src/Storage/Tests.antt =====
-- The theorems about the storages at concrete values.
use unikvs.Prelude.{◌≡◌, [], ◌∷◌, flatten}
use unikvs.Storage.Bytes.{merge, merge-eq-flatten}

merge-eq-flatten_example :
    merge ((1 ∷ 2 ∷ []) ∷ [] ∷ (3 ∷ []) ∷ []) ≡ flatten ((1 ∷ 2 ∷ []) ∷ [] ∷ (3 ∷ []) ∷ [])
merge-eq-flatten_example = merge-eq-flatten ((1 ∷ 2 ∷ []) ∷ [] ∷ (3 ∷ []) ∷ [])

-- ===== src/JsMap.antt =====
-- The `Map` of JavaScript as the source uses it: the entries in insertion order. `set` on a key that
-- is there keeps its place, `delete` takes the entry out, and `keys().next()` is the oldest entry.
pub mod Laws
pub mod Order
use unikvs.Prelude.{
  Bool, true, false, Option, none, some, List, [], ◌∷◌, Equality, ◌==◌, if◌then◌else◌, ◌≡◌,
}

abbrev pub JsMap : Type 0 → Type 0 → Type 0
JsMap K V = List (K × V)

module _ {K V : Type 0} ⦃e : Equality K⦄ where
  unfoldable pub get : K → JsMap K V → Option V
  get k [] = none
  get k ((j, v) ∷ m) = if j == k then some v else get k m

  unfoldable pub has : K → JsMap K V → Bool
  has k [] = false
  has k ((j, v) ∷ m) = if j == k then true else has k m

  unfoldable pub set : K → V → JsMap K V → JsMap K V
  set k v [] = (k, v) ∷ []
  set k v ((j, w) ∷ m) = if j == k then (j, v) ∷ m else (j, w) ∷ set k v m

  unfoldable pub delete : K → JsMap K V → JsMap K V
  delete k [] = []
  delete k ((j, w) ∷ m) = let rest = delete k m in if j == k then rest else (j, w) ∷ rest

  -- No key is there twice.
  abbrev pub IsUnique : JsMap K V → Type 0
  IsUnique [] = Unit
  IsUnique ((k, v) ∷ m) = (get k m ≡ none) × IsUnique m

module _ {K V : Type 0} where
  unfoldable pub first_key : JsMap K V → Option K
  first_key [] = none
  first_key ((k, v) ∷ m) = some k

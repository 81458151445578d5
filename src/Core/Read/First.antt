-- ===== src/Core/Read/First.antt =====
-- The loops of `get` and `has` over storages that can be read find the first leaf that has an answer.
use unikvs.Prelude.{
  ◌≡◌, refl, ap, ◌∙◌, Bool, true, String, Option, none, some, List, [], ◌∷◌, Equality, Option-cases,
  inl, inr,
}
use mathlib.Core.Option
use unikvs.Prelude.Exec.{Result, ok, thrown}
use unikvs.JsMap.Laws.{is_some}
use unikvs.Pipeline.{Plugins, Leaf}
use unikvs.Pipeline.Decode.{Runtime}
use unikvs.Pipeline.Plain.{MapsKeys}
use unikvs.Pipeline.LeafResolver.{NodeCache}
use unikvs.Pipeline.LeafResolver.Keys.{IsCache, empty-IsCache, resolve-key, key_at}
use unikvs.Core.{PluginErrorRecord, UniKvsError, key_not_found, no_cause, not_found}
use unikvs.Core.Backend.{Backend}
use unikvs.Core.Laws.{AreReadable}
use unikvs.Core.Read.{
  hit, missed, Searched, after_key, after_leaf, search, ask_value, ask_exists, found, found_or_not,
  read_leaves, has_leaves,
}

abbrev pub first_of : {A B : Type 0} → (A → Option B) → List A → Option B
first_of f [] = none
first_of f (x ∷ xs) = elim (f x) [ some y ↦ some y | none ↦ first_of f xs ]

module _ {p : Plugins} {w : Runtime p} (b : Backend w) (keys : MapsKeys w)
    ⦃path : Equality (List p.Middleware)⦄ (key : String) where
  abbrev pub leaf_key : Leaf p → String
  leaf_key l = key_at w keys key l.path

  abbrev searched :
      {A : Type 0} → w.State → Option A → List (PluginErrorRecord w.Failure) → Searched b A
  searched s (some a) errors = (hit a, s)
  searched s none errors = (missed errors, s)

  module _ {A : Type 0} (ask : Leaf p → String → w.State → Result w.Failure (Option A) × w.State)
      (answer : Leaf p → Option A) (s : w.State)
      (answers : (l : Leaf p) → ask l (leaf_key l) s ≡ (ok (answer l), s)) where
    search-first :
        (ls : List (Leaf p)) (cache : NodeCache w) (errors : List (PluginErrorRecord w.Failure))
        → IsCache w keys key cache
        → search b ask key ls cache errors s ≡ searched s (first_of answer ls) errors
    unfolding search
    search-first [] cache errors h = refl
    search-first (l ∷ ls) cache errors h =
        let (cache', resolved, h') = resolve-key w keys key l cache s h in
        let next = search b ask key ls cache' in
        ap (after_key b (λ k c t. after_leaf b l errors (search b ask key ls c) (ask l k t)))
          resolved
        ∙ ap (after_leaf b l errors next) (answers l)
        ∙ elim (Option-cases (answer l)) [
          | inl q ↦ rw (q, first_of) (search-first ls cache' errors h')
          | inr (a, q) ↦ rw (q, first_of) refl
        ]

  module _ (stored : Leaf p → String → w.State → Option w.Value) (readable : AreReadable b stored)
      (s : w.State) where
    abbrev pub held : Leaf p → Option (Leaf p × w.Value)
    held l = Option.map (λ v. (l, v)) (stored l (leaf_key l) s)

    abbrev pub there : Leaf p → Option Bool
    there l = Option.map (λ v. true) (stored l (leaf_key l) s)

    ask_value-held : (l : Leaf p) → ask_value b l (leaf_key l) s ≡ (ok (held l), s)
    unfolding ask_value
    ask_value-held l = elim (Option-cases (stored l (leaf_key l) s)) [
      | inl q ↦ rw (readable.exists_answers l (leaf_key l) s, q) refl
      | inr (v, q) ↦
          rw
            (
              readable.exists_answers l (leaf_key l) s,
              q,
              readable.read_answers l (leaf_key l) v s q,
            )
            refl
    ]

    ask_exists-there : (l : Leaf p) → ask_exists b l (leaf_key l) s ≡ (ok (there l), s)
    unfolding ask_exists
    ask_exists-there l = elim (Option-cases (stored l (leaf_key l) s)) [
      | inl q ↦ rw (readable.exists_answers l (leaf_key l) s, q) refl
      | inr (v, q) ↦ rw (readable.exists_answers l (leaf_key l) s, q) refl
    ]

    -- What `get` makes of the answer.
    abbrev pub read_result :
        Option (Leaf p × w.Value)
        → Option (Result (UniKvsError w.Failure) (Leaf p × w.Value) × w.State)
    read_result (some a) = some (ok a, s)
    read_result none = some (thrown (key_not_found key no_cause), s)

    -- Where `mapKey` only maps the key and the storages can be read, what `get` reads is what the first
    -- leaf holds that holds a value under its own key, in the order of registration; when none does, the
    -- key is not found.
    pub read_leaves-first :
        (ls : List (Leaf p)) → read_leaves b ls key s ≡ read_result (first_of held ls)
    unfolding read_leaves not_found
    read_leaves-first ls =
        ap (found b key)
          (search-first (ask_value b) held s ask_value-held ls [] [] (empty-IsCache w keys key))
        ∙ elim (Option-cases (first_of held ls)) [ inl q ↦ rw q refl | inr (a, q) ↦ rw q refl ]

    first_of-there :
        (ls : List (Leaf p)) → first_of there ls ≡ Option.map (λ a. true) (first_of held ls)
    first_of-there [] = refl
    first_of-there (l ∷ ls) = elim (Option-cases (stored l (leaf_key l) s)) [
      | inl q ↦ rw (q, first_of) (first_of-there ls)
      | inr (v, q) ↦ rw (q, first_of) refl
    ]

    has_result :
        (o : Option (Leaf p × w.Value))
        → found_or_not b key (searched s (Option.map (λ a. true) o) []) ≡ some (ok (is_some o), s)
    has_result none = refl
    has_result (some a) = refl

    -- Where `mapKey` only maps the key and the storages can be read, `has` tells whether any leaf holds a
    -- value under its own key, which is what `get` looks for.
    pub has_leaves-first :
        (ls : List (Leaf p)) → has_leaves b ls key s ≡ some (ok (is_some (first_of held ls)), s)
    unfolding has_leaves
    has_leaves-first ls =
        ap (found_or_not b key)
          (search-first (ask_exists b) there s ask_exists-there ls [] [] (empty-IsCache w keys key))
        ∙ ap (λ o. found_or_not b key (searched s o [])) (first_of-there ls)
        ∙ has_result (first_of held ls)

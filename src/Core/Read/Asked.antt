-- ===== src/Core/Read/Asked.antt =====
-- `get` and `has` as a whole, from the connection to the answer.
use unikvs.Prelude.{
  ◌≡◌, refl, ap, ◌∙◌, false, true, String, Option, none, some, List, [], ◌∷◌, Equality,
  Option-cases, inl, inr,
}
use mathlib.Core.Option
use unikvs.Prelude.Exec.{Result, ok, thrown}
use unikvs.JsMap.Laws.{is_some}
use unikvs.Pipeline.{Plugins, Leaf}
use unikvs.Pipeline.Compile.{PipelineGraph}
use unikvs.Pipeline.Decode.{Runtime}
use unikvs.Pipeline.Plain.{MapsKeys}
use unikvs.Core.{UniKvsError, key_not_found, no_cause, get_context, has_context}
use unikvs.Core.Backend.{Backend}
use unikvs.Core.Entry.{checked}
use unikvs.Core.Entry.Passed.{entry-passed}
use unikvs.Core.Laws.{AreReadable, IsServing}
use unikvs.Core.Operation.{Method, released, awaited, ◌>>=◌}
use unikvs.Core.Read.{decoded, get_value, get, has, with_read, read_leaves, has_leaves}
use unikvs.Core.Read.First.{
  first_of, leaf_key, held, read_result, read_leaves-first, has_leaves-first,
}

first_of_cong :
    {A B : Type 0} (f g : A → Option B) (xs : List A)
    → ((x : A) → f x ≡ g x)
    → first_of f xs ≡ first_of g xs
first_of_cong f g [] same = refl
first_of_cong f g (x ∷ xs) same = elim (Option-cases (g x)) [
  | inl q ↦ rw (same x, q, first_of) (first_of_cong f g xs same)
  | inr (y, q) ↦ rw (same x, q, first_of) refl
]

module _ {p : Plugins} {w : Runtime p} (b : Backend w) (keys : MapsKeys w)
    ⦃path : Equality (List p.Middleware)⦄ (stored : Leaf p → String → w.State → Option w.Value)
    (readable : AreReadable b stored) (g : PipelineGraph p) (key : String) where
  -- Under the lock of the key, and after it.
  abbrev pub locked_at : w.State → w.State
  locked_at s = (b.read_lock_key key s).1

  abbrev pub freed_at : w.State → w.State
  freed_at s = b.unlock_keys (some key) (locked_at s)

  with_read-opens :
      {A : Type 0} (body : Method w.State w.Failure A) (s : w.State)
      → with_read b key body s ≡ released (b.unlock_keys (some key)) (body (locked_at s))
  with_read-opens body s = rw (readable.read_lock_opens key s) refl

  -- What `get` does with the first answer: it decodes the value and checks it against the schema.
  abbrev pub read_ending :
      w.State
      → Option (Leaf p × w.Value)
      → Option (Result (UniKvsError w.Failure) w.Value × w.State)
  read_ending s none = some (thrown (key_not_found key no_cause), freed_at s)
  read_ending s (some a) = (decoded b a >>= (λ v. checked b (b.check_output key v))) (freed_at s)

  locked_held :
      (s t : w.State)
      → ((l : Leaf p) (k : String) → stored l k t ≡ stored l k s)
      → first_of (held b keys key stored readable t) g.leaves
        ≡ first_of (held b keys key stored readable s) g.leaves
  locked_held s t kept =
      first_of_cong (held b keys key stored readable t) (held b keys key stored readable s) g.leaves
        (λ l. ap (Option.map (λ v. (l, v))) (kept l (leaf_key b keys key l)))

  ending_lem :
      (s : w.State) (o : Option (Leaf p × w.Value))
      → awaited
          (λ found. decoded b found >>= (λ v. checked b (b.check_output key v)))
          (released
            (b.unlock_keys (some key))
            (read_result b keys key stored readable (locked_at s) o))
        ≡ read_ending s o
  ending_lem s none = refl
  ending_lem s (some a) = refl

  get_value-first :
      (s : w.State)
      → get_value b g key s ≡ read_ending s (first_of (held b keys key stored readable s) g.leaves)
  unfolding get_value
  get_value-first s =
      let kept : (l : Leaf p) (k : String) → stored l k (locked_at s) ≡ stored l k s =
        λ l k. readable.read_lock_keeps key l k s in
      ap (awaited (λ found. decoded b found >>= (λ v. checked b (b.check_output key v)))) (
        with_read-opens (read_leaves b g.leaves key) s
        ∙ ap (released (b.unlock_keys (some key))) (
            read_leaves-first b keys key stored readable (locked_at s) g.leaves
            ∙ ap (read_result b keys key stored readable (locked_at s))
                (locked_held s (locked_at s) kept)))
      ∙ ending_lem s (first_of (held b keys key stored readable s) g.leaves)

  module _ (serving : IsServing b stored) (s : w.State) (here : b.is_open s ≡ true)
      (running : w.aborted s ≡ false) (valid : b.check_key key ≡ ok tt) where
    abbrev pub entered : w.State
    entered = (b.lock_instance s).1

    entered-held :
        first_of (held b keys key stored readable entered) g.leaves
        ≡ first_of (held b keys key stored readable s) g.leaves
    entered-held = locked_held s entered (λ l k. serving.lock_instance_keeps l k s)

    -- On an open client whose signal is not aborted, with a key that is valid, middlewares whose `mapKey`
    -- maps the key and does nothing else and whose `use` passes on, and storages that can be read: `get`
    -- without repair decodes and checks what the first leaf holds that holds a value under its own key, in the order of
    -- registration; when none does, it throws that the key is not found.
    pub get-first :
        get b g key s
        ≡ released b.unlock_instance
            (read_ending entered (first_of (held b keys key stored readable s) g.leaves))
    unfolding get
    get-first =
        entry-passed b stored serving g (get_context key) key (get_value b g key) s here running
          valid
        ∙ ap (released b.unlock_instance)
            (get_value-first entered ∙ ap (read_ending entered) entered-held)

    -- Under the same conditions `has` returns whether any leaf holds a value under its own key, which is
    -- when `get` finds one.
    pub has-first :
        has b g key s
        ≡ some (
          ok (is_some (first_of (held b keys key stored readable s) g.leaves)),
          b.unlock_instance (freed_at entered),
        )
    unfolding has
    has-first =
        let kept : (l : Leaf p) (k : String) → stored l k (locked_at entered) ≡ stored l k entered =
          λ l k. readable.read_lock_keeps key l k entered in
        entry-passed b stored serving g (has_context key) key
          (with_read b key (has_leaves b g.leaves key)) s here running valid
        ∙ ap (released b.unlock_instance) (
            with_read-opens (has_leaves b g.leaves key) entered
            ∙ ap (released (b.unlock_keys (some key))) (
                has_leaves-first b keys key stored readable (locked_at entered) g.leaves
                ∙ ap (λ o. some (ok (is_some o), locked_at entered))
                    (locked_held entered (locked_at entered) kept ∙ entered-held)))

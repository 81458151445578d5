-- ===== src/Core/Remove/Deleted.antt =====
-- What the handlers of `delete` come to, whatever the order of their turns.
use unikvs.Prelude.{
  ℕ, ◌≡◌, refl, ◌∙◌, Bool, true, false, String, Option, none, some, List, [], ◌∷◌, All, ◌⊎◌, inl,
  inr, arith,
}
use unikvs.Prelude.Exec.{Result, ok, thrown}
use unikvs.JsMap.Laws.{is_some}
use unikvs.Pipeline.{Plugins, Leaf}
use unikvs.Pipeline.Decode.{Runtime}
use unikvs.Core.Backend.{Backend}
use unikvs.Core.Laws.{AreStorages}
use unikvs.Core.Outcomes.{Progress, committed, not_found, failed, skipped, call_once}
use unikvs.Core.Outcomes.Settled.{Contains}
use unikvs.Core.Outcomes.Turns.{
  Seen, LeafTriple, AreKnown, call_once-Triple, attempt-Triple, mark-Triple, fail-Triple,
}
use unikvs.Core.Remove.{delete_task, delete_all, after_exists}
use unikvs.Core.Remove.Called.{prepared_leaf, Called, await_all-Called}
use unikvs.Core.Remove.Ready.{AreReady}

none_of : {V : Type 0} (o : Option V) → false ≡ is_some o → o ≡ none
none_of none h = refl
none_of (some v) h = absurd (ground (arith, h))

module _ {F V : Type 0} where
  -- Committed or not found, without an error, and nothing is there; or failed with one error.
  abbrev pub IsDeleted : Seen F (Option V) → Type 0
  IsDeleted (status, errors, rejected, counted, value) =
      (((status ≡ some committed) ⊎ (status ≡ some not_found)) × (errors ≡ []) × (value ≡ none))
      ⊎ ((e : F) × (status ≡ some (failed e)) × (errors ≡ e ∷ []))

abbrev pub held :
    {p : Plugins} {S V : Type 0} → (Leaf p → String → S → Option V) → Leaf p × String → S → Option V
held stored (l, k) = stored l k

module _ {p : Plugins} {w : Runtime p} (b : Backend w)
    (stored : Leaf p → String → w.State → Option w.Value) (laws : AreStorages b stored) where
  after_exists-Triple :
      (indexes : List ℕ) (q : Leaf p × String) (r : Result w.Failure Bool) (x : Option w.Value)
      → Contains (prepared_leaf q).index indexes
      → (r ≡ ok false → x ≡ none)
      → LeafTriple prepared_leaf
          (held stored)
          indexes
          q
          IsDeleted
          (after_exists b q.0 (call_once q.0 (b.delete q.0 q.1)) r)
          (some skipped, [], [], false, x)
  after_exists-Triple indexes (l, k) (ok true) x own absent =
      call_once-Triple prepared_leaf (held stored) indexes (l, k) IsDeleted (b.delete l k) skipped
        false x own (λ s here done. inl (inl refl, refl, laws.delete_removes l k s done))
        (λ s e lost. inr (e, refl, refl))
        (λ s other apart. laws.delete_others k l other.0 other.1 s apart)
  after_exists-Triple indexes (l, k) (ok false) x own absent =
      mark-Triple prepared_leaf (held stored) indexes (l, k) IsDeleted not_found skipped [] [] false
        x (inl (inr refl, refl, absent refl))
  after_exists-Triple indexes (l, k) (thrown e) x own absent =
      fail-Triple prepared_leaf (held stored) indexes (l, k) IsDeleted e skipped [] [] false x own
        (inr (e, refl, refl))

  delete_task-Triple :
      (indexes : List ℕ) (q : Leaf p × String) (x : Option w.Value)
      → Contains (prepared_leaf q).index indexes
      → LeafTriple prepared_leaf
          (held stored)
          indexes
          q
          IsDeleted
          (delete_task b q)
          (some skipped, [], [], false, x)
  unfolding delete_task
  delete_task-Triple indexes (l, k) x own =
      attempt-Triple prepared_leaf (held stored) indexes (l, k) IsDeleted (b.exists l k)
        (after_exists b l (call_once l (b.delete l k))) (some skipped) [] [] false x
        (λ s here.
          after_exists-Triple indexes (l, k) (b.exists l k s).0
            (held stored (l, k) (b.exists l k s).1) own
            (λ absent.
              laws.exists_keeps l k l k s
              ∙ none_of (stored l k s) (laws.exists_tells l k s false absent)))
        (λ s other apart. laws.exists_keeps l k other.0 other.1 s)

  -- However the handlers are interleaved, when all have ended each leaf, ready or not, is settled.
  pub delete_all-Called :
      (indexes schedule : List ℕ) (leaves : List (Leaf p)) (prepared : List (Leaf p × String))
      (s s' : Progress w.State w.Failure)
      → AreReady leaves (prepared, s)
      → AreKnown indexes s
      → All (λ q. Contains (prepared_leaf q).index indexes) prepared
      → delete_all b schedule prepared s ≡ some s'
      → All (Called (held stored) (λ q. IsDeleted) "" prepared s') leaves × AreKnown indexes s'
  unfolding delete_all
  delete_all-Called indexes schedule leaves prepared s s' ready known own h =
      await_all-Called (held stored) (λ q. IsDeleted) "" (delete_task b) indexes schedule leaves
        prepared s s' (λ q x here c. delete_task-Triple indexes q x c) ready known own h

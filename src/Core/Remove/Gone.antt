-- ===== src/Core/Remove/Gone.antt =====
-- `delete`, from the connection to the storages.
use unikvs.Prelude.{
  ℕ, ◌≡◌, refl, sym, ap, subst, ◌∙◌, String, Option, none, some, List, [], map, All, inl, inr,
  Equality, arith,
}
use unikvs.Prelude.Maybe.{◌>>=◌ as and_then}
use unikvs.Prelude.Exec.{ok}
use unikvs.Pipeline.{Plugins, Leaf, Destination}
use unikvs.Pipeline.Compile.{PipelineGraph, compile}
use unikvs.Pipeline.Decode.{Runtime}
use unikvs.Pipeline.Distinct.{leaf_index, compile-AreDistinct}
use unikvs.Pipeline.LeafResolver.{NodeCache, resolve}
use unikvs.Pipeline.LeafResolver.Keys.{IsCache, empty-IsCache, resolve-key, key_at}
use unikvs.Pipeline.Plain.{MapsKeys}
use unikvs.Core.{deletes, delete_context}
use unikvs.Core.Backend.{Backend}
use unikvs.Core.Entry.{assert_open, checked, with_instance, use_stage}
use unikvs.Core.Entry.Returned.{then-returned, with_instance-returned}
use unikvs.Core.Laws.{AreStorages}
use unikvs.Core.Operation.{using_lock, ◌>>◌}
use unikvs.Core.Operation.Returned.{using_lock-returned}
use unikvs.Core.Outcomes.{Progress, start}
use unikvs.Core.Outcomes.Settled.{Contains}
use unikvs.Core.Outcomes.Started.{All-map, All-at, All-Contains}
use unikvs.Core.Remove.{delete_all, delete_leaves, delete, finish}
use unikvs.Core.Remove.Called.{Called}
use unikvs.Core.Remove.Cleared.{finish-lost, finish-KeepsAll}
use unikvs.Core.Remove.Deleted.{IsDeleted, held, delete_all-Called}
use unikvs.Core.Remove.Prepare.{prepare}
use unikvs.Core.Remove.Ready.{
  Resolves, prepare-keys, prepare-All, prepare-AreReady, prepare-AreKnown, start-Entries,
}

module _ {p : Plugins} {w : Runtime p} (keys : MapsKeys w) ⦃path : Equality (List p.Middleware)⦄
    (key : String) where
  -- The key of a leaf by its own middlewares.
  abbrev pub own_key : Leaf p → String
  own_key l = key_at w keys key l.path

  abbrev pub IsOwn : Leaf p × String → Type 0
  IsOwn (l, k) = k ≡ own_key l

  resolve-Resolves :
      (l : Leaf p) (cache : NodeCache w) (s : w.State)
      → IsCache w keys key cache
      → Resolves (resolve w key) IsOwn (IsCache w keys key) l (resolve w key l cache s)
  resolve-Resolves l cache s h =
      let (cache', found, h') = resolve-key w keys key l cache s h in
      subst (Resolves (resolve w key) IsOwn (IsCache w keys key) l) (sym found) (refl, h')

  prepare-IsOwn :
      (ls : List (Leaf p)) (s : Progress w.State w.Failure)
      → All IsOwn (prepare (resolve w key) ls [] s).0
  prepare-IsOwn ls s =
      prepare-keys (resolve w key) IsOwn (IsCache w keys key) resolve-Resolves ls [] s
        (empty-IsCache w keys key)

module _ {p : Plugins} {w : Runtime p} (b : Backend w) (keys : MapsKeys w)
    ⦃e : Equality p.Middleware⦄ ⦃path : Equality (List p.Middleware)⦄ (g : PipelineGraph p)
    (stored : Leaf p → String → w.State → Option w.Value) (laws : AreStorages b stored)
    (dests : List (Destination p)) (compiled : compile dests ≡ some g) (key : String) where
  abbrev IsGone : w.State → Leaf p → Type 0
  IsGone s l = stored l (own_key keys key l) s ≡ none

  Called-IsGone :
      (prepared : List (Leaf p × String)) (s : Progress w.State w.Failure) (s' : w.State)
      → All (IsOwn keys key) prepared
      → finish b g deletes (delete_context key) s ≡ some (ok tt, s')
      → (l : Leaf p) → Called (held stored) (λ q. IsDeleted) "" prepared s l
      → IsGone s' l
  Called-IsGone prepared s s' own h l (inl (k, there, inl (status, errors, value))) =
      let same = All-at (IsOwn keys key) (l, k) prepared own there in
      ap (λ m. stored l m s') (sym same)
      ∙ finish-KeepsAll b g stored laws deletes (delete_context key) s s' h l k
      ∙ value
  Called-IsGone prepared s s' own h l (inl (k, there, inr (x, status, errors))) =
      absurd (finish-lost b g deletes (delete_context key) s s' h l.index x errors)
  Called-IsGone prepared s s' own h l (inr (x, status, errors, rejected, found)) =
      absurd (finish-lost b g deletes (delete_context key) s s' h l.index x errors)

  delete_leaves-IsGone :
      (schedule : List ℕ) (s s' : w.State)
      → delete_leaves b g schedule key s ≡ some (ok tt, s')
      → All (IsGone s') g.leaves
  unfolding delete_leaves
  delete_leaves-IsGone schedule s s' h = go (delete_all b schedule prepared books) refl h
    where
      prepared : List (Leaf p × String)
      prepared = (prepare (resolve w key) g.leaves [] (start g.leaves s)).0

      books : Progress w.State w.Failure
      books = (prepare (resolve w key) g.leaves [] (start g.leaves s)).1

      go :
          (o : Option (Progress w.State w.Failure))
          → delete_all b schedule prepared books ≡ o
          → and_then o (finish b g deletes (delete_context key)) ≡ some (ok tt, s')
          → All (IsGone s') g.leaves
      go none q r = absurd (ground (arith, r))
      go (some t) q r =
          let indexes = map leaf_index g.leaves in
          let own = All-Contains (λ l. l) g.leaves in
          let (called, known) =
            delete_all-Called b stored laws indexes schedule g.leaves prepared books t
              (prepare-AreReady (resolve w key) g.leaves [] (start g.leaves s)
                (compile-AreDistinct dests g compiled) (start-Entries w.Failure g.leaves s))
              (prepare-AreKnown (resolve w key) indexes g.leaves [] (start g.leaves s) own (tt, tt))
              (prepare-All (resolve w key) (λ l. Contains (leaf_index l) indexes) g.leaves []
                (start g.leaves s) own)
              q in
          All-map (Called (held stored) (λ v. IsDeleted) "" prepared t) (IsGone s')
            (Called-IsGone prepared t s' (prepare-IsOwn keys key g.leaves (start g.leaves s)) r)
            g.leaves called

  -- For compiled destinations: when `delete` returns, no destination's storage holds anything under the key that the destination's
  -- middlewares make of the key. It holds where `mapKey` maps the key and does nothing else, for storages with
  -- entries of their own and for any order of the calls' turns.
  pub delete-IsGone :
      (schedule : List ℕ) (s s' : w.State)
      → delete b g schedule key s ≡ some (ok tt, s')
      → All (λ l. stored l (own_key keys key l) s' ≡ none) g.leaves
  unfolding delete
  delete-IsGone schedule s s' h =
      let lock = b.lock_keys (some key) in
      let locked = using_lock lock (b.unlock_keys (some key)) (delete_leaves b g schedule key) in
      let block = use_stage b g (delete_context key) >> locked in
      let checks = checked b (b.check_key key) in
      let (t₁, h₁) = then-returned b (assert_open b) (checks >> with_instance b block) tt s s' h in
      let (t₂, h₂) = then-returned b checks (with_instance b block) tt t₁ s' h₁ in
      let (t₃, t₄, h₃, freed) = with_instance-returned b block tt t₂ s' h₂ in
      let (t₅, h₄) = then-returned b (use_stage b g (delete_context key)) locked tt t₃ t₄ h₃ in
      let (t₆, h₅, unlocked) =
        using_lock-returned lock (b.unlock_keys (some key)) (delete_leaves b g schedule key) tt t₅
          t₄ h₄ in
      All-map (IsGone t₆) (IsGone s')
        (λ l q.
          let k = own_key keys key l in
          ap (stored l k) (sym freed)
          ∙ laws.unlock_instance_keeps l k t₄
          ∙ ap (stored l k) (sym unlocked)
          ∙ laws.unlock_keys_keeps (some key) l k t₆
          ∙ q)
        g.leaves (delete_leaves-IsGone schedule (lock t₅).1 t₆ h₅)

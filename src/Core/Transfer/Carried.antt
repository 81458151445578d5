-- ===== src/Core/Transfer/Carried.antt =====
-- `copy` and `move` as a whole, from the connection to the storages.
use unikvs.Prelude.{
  ℕ, ◌≡◌, refl, sym, ap, ◌∙◌, subst, Bool, true, false, String, string_equality, ◌==◌, Option, some,
  List, inl, inr, Equality, if◌then◌else◌,
}
use unikvs.Prelude.Exec.{Result, ok}
use unikvs.JsMap.Laws.{is_some}
use unikvs.Pipeline.{Plugins, Leaf, Destination}
use unikvs.Pipeline.Compile.{PipelineGraph, compile}
use unikvs.Pipeline.Decode.{Runtime}
use unikvs.Pipeline.LeafResolver.Keys.{key_at}
use unikvs.Pipeline.Plain.{MapsKeys}
use unikvs.Core.{UniKvsError, UseContext}
use unikvs.Core.Backend.{Backend}
use unikvs.Core.Entry.{assert_open, checked, throw_if_aborted, with_instance, use_stage}
use unikvs.Core.Entry.Passed.{with_instance-passed}
use unikvs.Core.Laws.{AreStorages, IsServing, KeepsAll}
use unikvs.Core.Operation.{Method, awaited, ◌>>◌}
use unikvs.Core.Operation.Returned.{
  awaited-returned, call-returned, released-returned, using_lock-returned,
}
use unikvs.Core.Outcomes.{UseOutcome}
use unikvs.Core.Outcomes.Started.{All-map}
use unikvs.Core.Transfer.{Transfer, context_of, transfer_leaves, with_key, with_keys, transfer}
use unikvs.Core.Transfer.Returned.{AreCarried, IsCarried, transfer_leaves-AreCarried}

module _ {p : Plugins} {w : Runtime p} (b : Backend w) where
  -- A check that was passed leaves the state.
  checked-passed :
      {A B : Type 0} (r : Result w.Failure A) (n : Method w.State w.Failure B) (y : B)
      (s s' : w.State)
      → (checked b r >> n) s ≡ some (ok y, s')
      → n s ≡ some (ok y, s')
  checked-passed r n y s s' h =
      let (a, t, first, rest) = awaited-returned (λ v. n) (checked b r s) y s' h in
      let same = (call-returned (λ u. (r, u)) a s t first).1 in
      subst (λ u. n u ≡ some (ok y, s')) (sym same) rest

  opened : (s : w.State) → b.is_open s ≡ true → assert_open b s ≡ some (ok tt, s)
  unfolding assert_open
  opened s h = rw h refl

module _ {p : Plugins} {w : Runtime p} (b : Backend w) (keys : MapsKeys w)
    (stored : Leaf p → String → w.State → Option w.Value) (laws : AreStorages b stored)
    (serving : IsServing b stored)
    (lock_keeps : (k : Option String) → KeepsAll b stored (λ s. (b.lock_keys k s).1))
    (stays : (s : w.State) (m : p.Middleware) (c : UseContext)
        (o : UseOutcome (UniKvsError w.Failure) w.Failure)
      → w.aborted s ≡ true
      → w.aborted (b.after_use m c o s).1 ≡ true)
    ⦃e : Equality p.Middleware⦄ ⦃path : Equality (List p.Middleware)⦄ (g : PipelineGraph p)
    (dests : List (Destination p)) (compiled : compile dests ≡ some g) (kind : Transfer)
    (key destination : String) where
  abbrev Holds : w.State → w.State → Type 0
  Holds s t = (l : Leaf p) (k : String) → stored l k t ≡ stored l k s

  -- A block that has run from a state that holds the same, to one that holds the same.
  abbrev Within : Method w.State w.Failure (Unit {0}) → w.State → w.State → Type 0
  Within body s s' = (t t' : w.State) × (body t ≡ some (ok tt, t')) × Holds s t × Holds t' s'

  with_key-Within :
      (k : String) (body : Method w.State w.Failure (Unit {0})) (s s' : w.State)
      → with_key b g k body s ≡ some (ok tt, s')
      → Within body s s'
  with_key-Within k body s s' h =
      let (t', run, unlocked) =
        using_lock-returned (b.lock_keys (some k)) (b.unlock_keys (some k)) body tt s s' h in
      (
        (b.lock_keys (some k) s).1,
        t',
        run,
        λ l j. lock_keeps (some k) l j s,
        λ l j. ap (stored l j) (sym unlocked) ∙ laws.unlock_keys_keeps (some k) l j t',
      )

  two_keys-Within :
      (k j : String) (body : Method w.State w.Failure (Unit {0})) (s s' : w.State)
      → with_key b g k (with_key b g j body) s ≡ some (ok tt, s')
      → Within body s s'
  two_keys-Within k j body s s' h =
      let (t, t', run, before, after) = with_key-Within k (with_key b g j body) s s' h in
      let (u, u', inner, then_before, then_after) = with_key-Within j body t t' run in
      (u, u', inner, λ l m. then_before l m ∙ before l m, λ l m. after l m ∙ then_after l m)

  with_keys-Within :
      (body : Method w.State w.Failure (Unit {0})) (s s' : w.State)
      → with_keys b g key destination body s ≡ some (ok tt, s')
      → Within body s s'
  with_keys-Within body s s' = go (key == destination) (b.comes_before key destination)
    where
      go :
          (same before : Bool)
          → (if same
                then with_key b g key body
                else if before
                then with_key b g key (with_key b g destination body)
                else with_key b g destination (with_key b g key body))
              s
            ≡ some (ok tt, s')
          → Within body s s'
      go true before h = with_key-Within key body s s' h
      go false true h = two_keys-Within key destination body s s' h
      go false false h = two_keys-Within destination key body s s' h

  abbrev Carried : w.State → w.State → Type 0
  Carried = AreCarried b keys stored laws stays g dests compiled kind key destination

  Carried-Holds : (s t t' s' : w.State) → Holds s t → Holds t' s' → Carried t t' → Carried s s'
  Carried-Holds s t t' s' before after (each, (l, there, held)) = (
    All-map (IsCarried b keys stored laws stays g dests compiled kind key destination t t')
        (IsCarried b keys stored laws stays g dests compiled kind key destination s s')
        (λ m c.
          let k = key_at w keys key m.path in
          elim c [
            | inl (value, held) ↦ inl (
              after m (key_at w keys destination m.path) ∙ value ∙ before m k,
              ap is_some (sym (before m k)) ∙ held,
            )
            | inr absent ↦ inr (ap is_some (sym (before m k)) ∙ absent)
          ])
        g.leaves each,
    (l, there, ap is_some (sym (before l (key_at w keys key l.path))) ∙ held),
  )

  -- When `copy` or `move` returns, on an open client whose signal is not aborted when it begins, every leaf
  -- that held a value under the source's key, by its own middlewares, holds that value under the
  -- destination's key, and there is one at least. It holds for compiled destinations; for middlewares
  -- whose `mapKey` maps the key and does nothing else and whose `use` passes on; for storages with entries
  -- of their own, which the locks leave alone; for any order of the calls' turns; and where `afterUse`
  -- does not take back the abortion of the signal.
  pub transfer-AreCarried :
      (schedule : List ℕ) (s s' : w.State)
      → b.is_open s ≡ true
      → w.aborted s ≡ false
      → transfer b g kind schedule key destination s ≡ some (ok tt, s')
      → AreCarried b keys stored laws stays g dests compiled kind key destination s s'
  unfolding transfer
  transfer-AreCarried schedule s s' here running h =
      let c = context_of kind key destination in
      let leaves = transfer_leaves b g kind schedule key destination in
      let body = with_keys b g key destination leaves in
      let block = with_instance b (use_stage b g c >> (throw_if_aborted b >> body)) in
      let second = checked b (b.check_key destination) >> block in
      let first = checked b (b.check_key key) >> second in
      let entered : first s ≡ some (ok tt, s') =
        subst (λ o. awaited (λ u. first) o ≡ some (ok tt, s')) (opened b s here) h in
      let passed =
        checked-passed b (b.check_key destination) block tt s s'
          (checked-passed b (b.check_key key) second tt s s' entered) in
      let t = (b.lock_instance s).1 in
      let (t', run, unlocked) =
        released-returned b.unlock_instance (body t) tt s'
          (sym (with_instance-passed b stored serving g c body s here running) ∙ passed) in
      let (u, u', inner, before, after) = with_keys-Within leaves t t' run in
      Carried-Holds s u u' s' (λ l k. before l k ∙ serving.lock_instance_keeps l k s)
        (λ l k. ap (stored l k) (sym unlocked) ∙ laws.unlock_instance_keeps l k t' ∙ after l k)
        (transfer_leaves-AreCarried b keys stored laws stays g dests compiled kind key destination
          schedule u u' inner)

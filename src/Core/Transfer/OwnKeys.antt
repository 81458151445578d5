-- ===== src/Core/Transfer/OwnKeys.antt =====
-- The keys with which `#transferLeaves` calls the storages.
use unikvs.Prelude.{
  ◌≡◌, refl, sym, ap, ◌∙◌, subst, Bool, true, false, String, string_equality, ◌==◌, List, [], ◌∷◌,
  All, Equality,
}
use unikvs.Prelude.Exec.{Result, ok}
use unikvs.Pipeline.{Plugins, Leaf}
use unikvs.Pipeline.Compile.{PipelineGraph}
use unikvs.Pipeline.Decode.{Runtime}
use unikvs.Pipeline.LeafResolver.{NodeCache, resolve}
use unikvs.Pipeline.LeafResolver.Keys.{IsCache, empty-IsCache, resolve-key, key_at}
use unikvs.Pipeline.Plain.{MapsKeys}
use unikvs.Core.Backend.{Backend}
use unikvs.Core.Outcomes.{Progress}
use unikvs.Core.Remove.Prepare.{prepare, noted_key}
use unikvs.Core.Remove.Ready.{prepare-keys, Resolves}
use unikvs.Core.Transfer.{Keys, Caches, pair_with, after_source, resolve_pair}

module _ {p : Plugins} {S F K C : Type 0} (resolve_one : Leaf p → C → S → Result F K × C × S)
    (R : Leaf p × K → Type 0) (I : C → Type 0) where
  -- A key is found, and the world is as it was.
  abbrev pub FindsKey : Leaf p → S → Result F K × C × S → Type 0
  FindsKey l s o = (k : K) × (c : C) × (o ≡ (ok k, c, s)) × R (l, k) × I c

  FindsKey-Resolves :
      (l : Leaf p) (s : S) (o : Result F K × C × S) → FindsKey l s o → Resolves resolve_one R I l o
  FindsKey-Resolves l s o (k, c, found, own, cached) =
      subst (Resolves resolve_one R I l) (sym found) (own, cached)

  module _ (finds : (l : Leaf p) (c : C) (s : S) → I c → FindsKey l s (resolve_one l c s)) where
    pub prepare-found :
        (ls : List (Leaf p)) (cache : C) (s : Progress S F)
        → I cache
        → All R (prepare resolve_one ls cache s).0
    prepare-found =
        prepare-keys resolve_one R I
          (λ l c s i. FindsKey-Resolves l s (resolve_one l c s) (finds l c s i))

    pub prepare-world :
        (ls : List (Leaf p)) (cache : C) (s : Progress S F)
        → I cache
        → (prepare resolve_one ls cache s).1.world ≡ s.world
    unfolding prepare
    prepare-world [] cache s i = refl
    prepare-world (l ∷ ls) cache s i =
        let (k, c, found, own, cached) = finds l cache s.world i in
        ap
          (λ o.
            (noted_key resolve_one l o.0 (prepare resolve_one ls o.1)
              (record s { world = o.2 })).1.world)
          found
        ∙ prepare-world ls c s cached

module _ {p : Plugins} {w : Runtime p} (b : Backend w) (keys : MapsKeys w)
    ⦃e : Equality p.Middleware⦄ ⦃path : Equality (List p.Middleware)⦄ (g : PipelineGraph p)
    (key destination : String) where
  abbrev pub source_key : Leaf p → String
  source_key l = key_at w keys key l.path

  abbrev pub target_key : Leaf p → String
  target_key l = key_at w keys destination l.path

  abbrev pub ArePair : Leaf p × Keys → Type 0
  ArePair (l, pair) = Path Keys pair (source_key l, target_key l)

  abbrev pub AreCaches : Caches b g → Type 0
  AreCaches (c, d) = IsCache w keys key c × IsCache w keys destination d

  resolve_pair-FindsKey :
      (l : Leaf p) (caches : Caches b g) (s : w.State)
      → AreCaches caches
      → FindsKey
          (resolve_pair b g key destination)
          ArePair
          AreCaches
          l
          s
          (resolve_pair b g key destination l caches s)
  unfolding resolve_pair
  resolve_pair-FindsKey l (c, d) s (hc, hd) =
      let (c', found, hc') = resolve-key w keys key l c s hc in
      go (key == destination) refl c' hc' found
    where
      go :
          (same : Bool)
          → (key == destination) ≡ same
          → (c' : NodeCache w) → IsCache w keys key c'
          → resolve w key l c s ≡ (ok (source_key l), c', s)
          → FindsKey
              (resolve_pair b g key destination)
              ArePair
              AreCaches
              l
              s
              (after_source b g destination same l d (resolve w key l c s))
      go true q c' hc' found =
          let at : key ≡ destination = (string_equality.equal_iff key destination).0 q in
          let (d', found', hd') =
            resolve-key w keys destination l c' s (subst (λ k. IsCache w keys k c') at hc') in
          (
            (source_key l, target_key l),
            (d', d'),
            ap (after_source b g destination true l d) found
                ∙ ap (λ o. (pair_with b g (source_key l) o.0, (o.1, o.1), o.2)) found',
            refl,
            (subst (λ k. IsCache w keys k d') (sym at) hd', hd'),
          )
      go false q c' hc' found =
          let (d', found', hd') = resolve-key w keys destination l d s hd in
          (
            (source_key l, target_key l),
            (c', d'),
            ap (after_source b g destination false l d) found
                ∙ ap (λ o. (pair_with b g (source_key l) o.0, (c', o.1), o.2)) found',
            refl,
            (hc', hd'),
          )

  no_caches : AreCaches ([], [])
  no_caches = (empty-IsCache w keys key, empty-IsCache w keys destination)

  -- Each leaf is prepared with the keys that its own middlewares make.
  pub prepare-ArePair :
      (ls : List (Leaf p)) (s : Progress w.State w.Failure)
      → All ArePair (prepare (resolve_pair b g key destination) ls ([], []) s).0
  prepare-ArePair ls s =
      prepare-found (resolve_pair b g key destination) ArePair AreCaches resolve_pair-FindsKey ls
        ([], []) s no_caches

  -- The world is as it was.
  pub prepare_pair-world :
      (ls : List (Leaf p)) (s : Progress w.State w.Failure)
      → (prepare (resolve_pair b g key destination) ls ([], []) s).1.world ≡ s.world
  prepare_pair-world ls s =
      prepare-world (resolve_pair b g key destination) ArePair AreCaches resolve_pair-FindsKey ls
        ([], []) s no_caches

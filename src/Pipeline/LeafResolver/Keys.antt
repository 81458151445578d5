-- ===== src/Pipeline/LeafResolver/Keys.antt =====
-- The resolver's keys are those of the leaves' own chains of middlewares.
use unikvs.Prelude.{
  String, some, List, [], ◌∷◌, ◌++◌, map, append_assoc, append-nil, Equality, ◌==◌, Bool-cases,
  Option-cases, inl, inr, arith, ◌≡◌, refl, sym, ap, ◌∙◌,
}
use unikvs.Prelude.Exec.{ok}
use unikvs.JsMap.{get, set}
use unikvs.JsMap.Laws.{get-set}
use unikvs.Pipeline.{Plugins, Leaf}
use unikvs.Pipeline.Decode.{Runtime}
use unikvs.Pipeline.Plain.{IsPlain, MapsKeys, keys_of, along, along-append}
use unikvs.Pipeline.LeafResolver.{
  NodeCache, Resolved, node_key, followed, resolve_from, resolve, resolve_all, noted,
}
use unikvs.Pipeline.Encode.Walked.{target_of}

module _ {p : Plugins} ⦃e : Equality (List p.Middleware)⦄ (w : Runtime p) (keys : MapsKeys w)
    (root_key : String) where
  abbrev pub key_at : List p.Middleware → String
  key_at path = along keys.key_by path root_key

  -- Every cached key is the key of its node.
  abbrev pub IsCache : NodeCache w → Type 0
  IsCache cache =
      (node : List p.Middleware) (k : String) → get node cache ≡ some k → k ≡ key_at node

  set-IsCache :
      (node : List p.Middleware) (cache : NodeCache w)
      → IsCache cache
      → IsCache (set node (key_at node) cache)
  set-IsCache node cache h other k q = elim (Bool-cases (node == other)) [
    | inl same ↦
        let here : node ≡ other = (e.equal_iff node other).0 same in
        let kept : key_at node ≡ k =
          ground (arith, get-set node other (key_at node) cache, same, q) in
        sym kept ∙ ap key_at here
    | inr apart ↦ h other k (ground (arith, get-set node other (key_at node) cache, apart, q))
  ]

  -- What a part of the loop comes to: a key, with a cache that is still right.
  Finds : w.State → List p.Middleware → Resolved w → Type 0
  Finds s node o = (cache : NodeCache w) × (o ≡ (ok (key_at node), cache, s)) × IsCache cache

  node_key_lem :
      (m : p.Middleware) (above : List p.Middleware) (cache : NodeCache w) (s : w.State)
      → IsCache cache
      → Finds s (above ++ m ∷ []) (node_key w m (above ++ m ∷ []) (key_at above) cache s)
  unfolding node_key Finds
  node_key_lem m above cache s h =
      let node = above ++ m ∷ [] in
      elim (Option-cases (get node cache)) [
        | inr (k, q) ↦ (cache, rw (q, node_key) (ap (λ x. (ok x, cache, s)) (h node k q)), h)
        | inl q ↦
            let along_node : keys.key_by m (key_at above) ≡ key_at node =
              sym (along-append keys.key_by above (m ∷ []) root_key) in
            (
              set node (key_at node) cache,
              rw (q, keys.map_key_maps m (key_at above) s, node_key)
                  (ap
                      (λ t. (
                        ok (keys.key_by m (key_at above)),
                        set node (keys.key_by m (key_at above)) cache,
                        t,
                      ))
                      (ap (λ o. o.1) (keys.map_key_maps m (key_at above) s))
                    ∙ ap (λ k. (ok k, set node k cache, s)) along_node),
              set-IsCache node cache h,
            )
      ]

  resolve_from_lem :
      (rest above : List p.Middleware) (cache : NodeCache w) (s : w.State)
      → IsCache cache
      → Finds s (above ++ rest) (resolve_from w rest above (key_at above) cache s)
  unfolding resolve_from Finds
  resolve_from_lem [] above cache s h =
      (cache, ap (λ q. (ok (key_at q), cache, s)) (sym (append-nil above)), h)
  resolve_from_lem (m ∷ rest) above cache s h =
      let node = above ++ m ∷ [] in
      let (cache₁, found, h₁) = node_key_lem m above cache s h in
      let (cache₂, rest_found, h₂) = resolve_from_lem rest node cache₁ s h₁ in
      (
        cache₂,
        ap (λ o. followed w o (resolve_from w rest node)) found
            ∙ rest_found
            ∙ ap (λ q. (ok (key_at q), cache₂, s)) (append_assoc above (m ∷ []) rest),
        h₂,
      )

  resolve_all_lem :
      (ls : List (Leaf p)) (cache : NodeCache w) (s : w.State)
      → IsCache cache
      → resolve_all w root_key ls cache s ≡ ok (map (λ l. key_at l.path) ls)
  unfolding resolve_all resolve Finds
  resolve_all_lem [] cache s h = refl
  resolve_all_lem (l ∷ ls) cache s h =
      let (cache₁, found, h₁) = resolve_from_lem l.path [] cache s h in
      ap (λ o. noted w o.0 (resolve_all w root_key ls o.1 o.2)) found
      ∙ ap (noted w (ok (key_at l.path))) (resolve_all_lem ls cache₁ s h₁)

  pub empty-IsCache : IsCache []
  unfolding get
  empty-IsCache node k q = absurd (ground (arith, q))

  -- One leaf, with a cache that other leaves have filled.
  pub resolve-key :
      (l : Leaf p) (cache : NodeCache w) (s : w.State)
      → IsCache cache
      → (cache' : NodeCache w) × (resolve w root_key l cache s ≡ (ok (key_at l.path), cache', s))
        × IsCache cache'
  unfolding resolve Finds
  resolve-key l cache s h = resolve_from_lem l.path [] cache s h

module _ {p : Plugins} ⦃e : Equality (List p.Middleware)⦄ (w : Runtime p) (plain : IsPlain w)
    (root_key : String) where
  -- For plain middlewares, which encode, decode and map the key by functions and go on, and whose decoding
  -- undoes the encoding: resolving any leaves of one operation, whatever their order and with the cache
  -- that they share, gives each the key that its own chain of middlewares makes, which is also the key
  -- that encoding gives it.
  pub resolve_all-targets :
      (x : w.Value) (ls : List (Leaf p)) (s : w.State)
      → resolve_all w root_key ls [] s ≡ ok (map (λ l. (target_of w plain root_key x l).key) ls)
  resolve_all-targets x ls s =
      resolve_all_lem w (keys_of plain) root_key ls [] s (empty-IsCache w (keys_of plain) root_key)

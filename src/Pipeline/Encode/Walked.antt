-- ===== src/Pipeline/Encode/Walked.antt =====
-- Encoding through plain middlewares.
use unikvs.Prelude.{
  false, String, List, [], ◌∷◌, ◌++◌, map, append-nil, append_assoc, ◌≡◌, refl, sym, ap, ◌∙◌,
}
use mathlib.Core.List.{map-append}
use unikvs.Prelude.Exec.{ok, continue}
use unikvs.Prelude.Sorting.{sort_by}
use unikvs.Pipeline.{Plugins, Leaf, Entry, leaf_entry, node_entry, Entries, no_entries, entry}
use unikvs.Pipeline.Contract.{Below, run_middleware}
use unikvs.Pipeline.Contract.Convey.{run_convey}
use unikvs.Pipeline.Plain.{IsPlain, along, along-append}
use unikvs.Pipeline.Decode.{Runtime}
use unikvs.Pipeline.Encode.{
  EncodeTarget, walk, walk_entries, encode, apply_map_key, walked, finished,
}

module _ {p : Plugins} where
  -- The leaves of a tree, in the order in which the walk meets them.
  abbrev mutual
    pub leaves_of_entry : Entry p → List (Leaf p)
    leaves_of_entry (leaf_entry l) = l ∷ []
    leaves_of_entry (node_entry m es) = leaves_of es

    pub leaves_of : Entries p → List (Leaf p)
    leaves_of no_entries = []
    leaves_of (entry e es) = leaves_of_entry e ++ leaves_of es

  -- Every leaf stands where its path says.
  abbrev mutual
    pub IsPlaced : List p.Middleware → Entry p → Type 0
    IsPlaced path (leaf_entry l) = l.path ≡ path
    IsPlaced path (node_entry m es) = ArePlaced (path ++ m ∷ []) es

    pub ArePlaced : List p.Middleware → Entries p → Type 0
    ArePlaced path no_entries = Unit {0}
    ArePlaced path (entry e es) = IsPlaced path e × ArePlaced path es

module _ {p : Plugins} (w : Runtime p) (plain : IsPlain w) where
  -- What a leaf gets of a value and a key: the conversions of its path, from the root to the leaf.
  abbrev pub target_of : String → w.Value → Leaf p → EncodeTarget w
  target_of key x l = record {
    key = along plain.key_by l.path key;
    encoded = along plain.encoded_by l.path x;
    leaf = l;
  }

  module _ (key : String) (x : w.Value) (s : w.State) (a : w.aborted s ≡ false) where
    abbrev value_at : List p.Middleware → w.Value
    value_at path = along plain.encoded_by path x

    abbrev key_at : List p.Middleware → String
    key_at path = along plain.key_by path key

    abbrev met : List (EncodeTarget w) → List (Leaf p) → List (EncodeTarget w)
    met ts ls = ts ++ map (target_of key x) ls

    map_key_lem :
        (m : p.Middleware) (k : String) (ts : List (EncodeTarget w))
        → apply_map_key w m k (s, ts) ≡ (ok (plain.key_by m k), (s, ts))
    unfolding apply_map_key
    map_key_lem m k ts = rw (plain.map_key_maps m k s, apply_map_key) refl

    mutual
      unfolding walk walk_entries

      walk_lem :
          (e : Entry p) (path : List p.Middleware) (ts : List (EncodeTarget w))
          → IsPlaced path e
          → walk w e (value_at path) (key_at path) (s, ts)
            ≡ (ok tt, (s, met ts (leaves_of_entry e)))
      walk_lem (leaf_entry l) path ts h =
          ap
            (λ q.
              (ok tt, (s, ts ++ record { key = key_at q; encoded = value_at q; leaf = l } ∷ [])))
            (sym h)
      walk_lem (node_entry m es) path ts h =
          let below : Below w.State (List (EncodeTarget w)) w.Value w.Failure (Unit {0}) =
            λ encoded st.
              continue (apply_map_key w m (key_at path) st)
                (λ node_key. walk_entries w es encoded node_key) in
          let y = plain.encoded_by m (value_at path) in
          let k = plain.key_by m (key_at path) in
          let after : below y (s, ts) ≡ (ok tt, (s, met ts (leaves_of es))) =
            ap (λ o. continue o (λ node_key. walk_entries w es y node_key))
              (map_key_lem m (key_at path) ts)
            ∙ ap (λ v. walk_entries w es v k (s, ts))
                (sym (along-append plain.encoded_by path (m ∷ []) x))
            ∙ ap (λ q. walk_entries w es (value_at (path ++ m ∷ [])) q (s, ts))
                (sym (along-append plain.key_by path (m ∷ []) key))
            ∙ walk_entries_lem es (path ++ m ∷ []) ts h in
          rw a (
            ap (λ h. walked w (run_middleware w.aborted w.reason below h (s, ts)))
              (plain.encode_conveys m (value_at path))
            ∙ ap (walked w) (
                run_convey below w.aborted w.reason y (s, ts) tt s (met ts (leaves_of es)) after a))

      walk_entries_lem :
          (es : Entries p) (path : List p.Middleware) (ts : List (EncodeTarget w))
          → ArePlaced path es
          → walk_entries w es (value_at path) (key_at path) (s, ts)
            ≡ (ok tt, (s, met ts (leaves_of es)))
      walk_entries_lem no_entries path ts h = ap (λ r. (ok tt, (s, r))) (sym (append-nil ts))
      walk_entries_lem (entry e es) path ts h =
          ap (λ o. continue o (λ done. walk_entries w es (value_at path) (key_at path)))
            (walk_lem e path ts h.0)
          ∙ walk_entries_lem es path (met ts (leaves_of_entry e)) h.1
          ∙ ap (λ r. (ok tt, (s, r)))
              (append_assoc ts (map (target_of key x) (leaves_of_entry e))
                  (map (target_of key x) (leaves_of es))
                ∙ ap (λ r. ts ++ r)
                    (sym (map-append (target_of key x) (leaves_of_entry e) (leaves_of es))))

    -- Encoding through plain middlewares gives every leaf of the tree its target: the value converted
    -- by the middlewares of its path, from the root on, and the key mapped by them; in the order of
    -- registration.
    pub encode-targets :
        (es : Entries p)
        → ArePlaced [] es
        → encode w es key x s
          ≡ (ok (sort_by (λ t. t.leaf.index) (map (target_of key x) (leaves_of es))), s)
    unfolding encode
    encode-targets es h = ap (finished w) (walk_entries_lem es [] [] h)

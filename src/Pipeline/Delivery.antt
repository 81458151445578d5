-- ===== src/Pipeline/Delivery.antt =====
-- The compiled tree against the destinations that it was compiled from.
use unikvs.Prelude.{
  ℕ, suc, ◌≤◌, false, String, some, List, [], ◌∷◌, map, All, Equality, arith, ◌≡◌, ◌≢◌, sym, ap,
  subst, ◌∙◌,
}
use mathlib.Core.List.{Permᴰ}
use mathlib.Core.List.Permᴰ
use unikvs.Prelude.Exec.{ok}
use unikvs.Prelude.Sorting.{sort_by, IsSorted, sort_by_of_IsSorted}
use unikvs.Prelude.Reorder.{AreDistinct, sort_by_reorder}
use unikvs.Pipeline.{Plugins, Destination}
use unikvs.Pipeline.Compile.{PipelineGraph, compile, leaf_of}
use unikvs.Pipeline.Registered.{registered_from, compile-leaves}
use unikvs.Pipeline.Placed.{compile-ArePlaced}
use unikvs.Pipeline.Gathered.{compile-Perm}
use unikvs.Pipeline.Plain.{IsPlain}
use unikvs.Pipeline.Decode.{Runtime}
use unikvs.Pipeline.Encode.{EncodeTarget, encode}
use unikvs.Pipeline.Encode.Walked.{target_of, leaves_of, encode-targets}
use unikvs.Pipeline.Encode.Undone.{Decodes, targets-Decodes}

module _ {p : Plugins} ⦃e : Equality p.Middleware⦄ (w : Runtime p) (plain : IsPlain w) where
  module _ (key : String) (x : w.Value) where
    -- What the destinations get, each by its own chain of middlewares.
    abbrev pub targets_from : ℕ → List (Destination p) → List (EncodeTarget w)
    targets_from n dests = map (target_of w plain key x) (registered_from n dests)

    abbrev index_of : EncodeTarget w → ℕ
    index_of t = t.leaf.index

    targets-All :
        (P : EncodeTarget w → Type 0) (n : ℕ)
        → ((k : ℕ) (dest : Destination p) → n ≤ k → P (target_of w plain key x (leaf_of k dest)))
        → (dests : List (Destination p)) → All P (targets_from n dests)
    targets-All P n h [] = tt
    targets-All P n h (dest ∷ dests) =
        (h n dest (omega arith), targets-All P (suc n) (λ k d le. h k d (omega arith)) dests)

    targets-IsSorted :
        (n : ℕ) (dests : List (Destination p)) → IsSorted index_of (targets_from n dests)
    unfolding leaf_of
    targets-IsSorted n [] = tt
    targets-IsSorted n (dest ∷ dests) = (
      targets-All (λ t. n ≤ index_of t) (suc n) (λ k d le. omega arith) dests,
      targets-IsSorted (suc n) dests,
    )

    pub targets-AreDistinct :
        (n : ℕ) (dests : List (Destination p)) → AreDistinct index_of (targets_from n dests)
    unfolding leaf_of
    targets-AreDistinct n [] = tt
    targets-AreDistinct n (dest ∷ dests) = (
      targets-All (λ t. n ≢ index_of t) (suc n) (λ k d le q. omega arith) dests,
      targets-AreDistinct (suc n) dests,
    )

    -- Through plain middlewares and while the signal is not aborted, encoding a value into the
    -- compiled tree gives every destination, in the order of registration, what its own chain of
    -- middlewares makes of the value and of the key: sharing the nodes changes nothing.
    pub encode_compile-targets :
        (dests : List (Destination p)) (s : w.State)
        → w.aborted s ≡ false
        → (g : PipelineGraph p) × (compile dests ≡ some g)
          × (encode w g.entries key x s ≡ (ok (targets_from 0 dests), s))
    encode_compile-targets dests s a =
        let (g, compiled, registered) = compile-leaves dests in
        let perm : Permᴰ (leaves_of g.entries) (registered_from 0 dests) =
          subst (Permᴰ (leaves_of g.entries)) registered (compile-Perm dests g compiled) in
        let sorted : sort_by index_of (map (target_of w plain key x) (leaves_of g.entries))
            ≡ targets_from 0 dests =
          sym (
            sort_by_reorder index_of (Permᴰ.map (target_of w plain key x) (Permᴰ.symm perm))
              (targets-AreDistinct 0 dests))
          ∙ sort_by_of_IsSorted index_of (targets_from 0 dests) (targets-IsSorted 0 dests) in
        (
          g,
          compiled,
          encode-targets w plain key x s a g.entries (compile-ArePlaced dests g compiled)
              ∙ ap (λ ts. (ok ts, s)) sorted,
        )

    -- Through plain middlewares and while the signal is not aborted, encoding a value into the
    -- compiled tree succeeds, and decoding what it made for any leaf gives the value back.
    pub encode_compile-Decodes :
        (dests : List (Destination p)) (s : w.State)
        → w.aborted s ≡ false
        → (g : PipelineGraph p) × (compile dests ≡ some g)
          × ((ts : List (EncodeTarget w)) × (encode w g.entries key x s ≡ (ok ts, s))
              × All (Decodes w plain x s) ts)
    encode_compile-Decodes dests s a =
        let (g, compiled, encoded) = encode_compile-targets dests s a in
        (
          g,
          compiled,
          (
            targets_from 0 dests,
            encoded,
            targets-Decodes w plain key x s a (registered_from 0 dests),
          ),
        )

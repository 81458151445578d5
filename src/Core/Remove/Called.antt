-- ===== src/Core/Remove/Called.antt =====
-- The handlers of the leaves that are ready, from the books in which the others have failed.
use unikvs.Prelude.{
  ℕ, ◌≡◌, refl, sym, ap, ◌∙◌, subst, false, Option, some, List, [], ◌∷◌, map, All, ◌⊎◌, inl, inr,
}
use unikvs.Pipeline.{Plugins, Leaf}
use unikvs.Core.Outcomes.{Progress, Status, skipped, failed}
use unikvs.Core.Outcomes.Settled.{Contains, counted, reasons, status_at}
use unikvs.Core.Outcomes.Started.{All-map, All-map₂, All-at, IsIn}
use unikvs.Core.Outcomes.Turns.{Seen, seen, LeafTriple, AreKnown, label_index, of_five, five_eq}
use unikvs.Core.Remove.Ready.{Entry, IsReady, AreReady}
use unikvs.Tasks.{Task, await_all}
use unikvs.Tasks.Invariant.{await_all-parts, await_all-kept}

abbrev pub prepared_leaf : {p : Plugins} {K : Type 0} → Leaf p × K → Leaf p
prepared_leaf q = q.0

module _ {p : Plugins} {S F K View : Type 0} (view : Leaf p × K → S → View) where
  seen-Entry :
      (q : Leaf p × K) (status : Option (Status F)) (errors : List F) (s : Progress S F)
      → Entry (prepared_leaf q).index status errors s
      → seen prepared_leaf view q s ≡ of_five status errors [] false (view q s.world)
  seen-Entry q status errors s h =
      five_eq h.0 h.1 (ap (reasons (prepared_leaf q).index) h.2)
        (ap (counted (prepared_leaf q).index) h.3) refl

  module _ (Q : Leaf p × K → Seen F View → Type 0) (no_key : K) where
    -- What has become of a leaf: what its handler made of it, with its key, or the failure to resolve its key.
    abbrev pub Called : List (Leaf p × K) → Progress S F → Leaf p → Type 0
    Called prepared s l =
        ((k : K) × IsIn (l, k) prepared × Q (l, k) (seen prepared_leaf view (l, k) s))
        ⊎ ((e : F) × (status_at l.index s.outcomes ≡ some (failed e))
            × (reasons l.index s.errors ≡ e ∷ [])
            × (reasons l.index s.rejected ≡ [])
            × (counted l.index s.found ≡ false))

    pub await_all-Called :
        (task : Leaf p × K → Task (Progress S F)) (indexes schedule : List ℕ)
        (leaves : List (Leaf p)) (prepared : List (Leaf p × K)) (s s' : Progress S F)
        → ((q : Leaf p × K) (x : View)
            → view q s.world ≡ x
            → Contains (prepared_leaf q).index indexes
            → LeafTriple prepared_leaf view indexes q
                (Q q)
                (task q)
                (some skipped, [], [], false, x))
        → AreReady leaves (prepared, s)
        → AreKnown indexes s
        → All (λ q. Contains (prepared_leaf q).index indexes) prepared
        → await_all schedule (map task prepared) s ≡ some s'
        → All (Called prepared s') leaves × AreKnown indexes s'
    await_all-Called task indexes schedule leaves prepared s s' meets ready known own h =
        let triples : All
            (λ q.
              LeafTriple prepared_leaf view indexes q (Q q) (task q) (seen prepared_leaf view q s))
            prepared =
          All-map₂ (λ q. Contains (prepared_leaf q).index indexes)
            (λ q. Entry (prepared_leaf q).index (some skipped) [] s)
            (λ q.
              LeafTriple prepared_leaf view indexes q (Q q) (task q) (seen prepared_leaf view q s))
            (λ q c entry.
              subst (LeafTriple prepared_leaf view indexes q (Q q) (task q))
                (sym (seen-Entry q (some skipped) [] s entry)) (meets q (view q s.world) refl c))
            prepared own ready.2 in
        let (called, known') =
          await_all-parts (label_index prepared_leaf) (AreKnown indexes) (seen prepared_leaf view) Q
            task prepared schedule s s' ready.1 triples known h in
        (
          All-map (IsReady prepared s) (Called prepared s') (called_of called triples) leaves
              ready.0,
          known',
        )
      where
        called_of :
            All (λ q. Q q (seen prepared_leaf view q s')) prepared
            → All
                (λ q.
                  LeafTriple prepared_leaf view indexes q
                    (Q q)
                    (task q)
                    (seen prepared_leaf view q s))
                prepared
            → (l : Leaf p) → IsReady prepared s l
            → Called prepared s' l
        called_of called triples l (inl (k, there, entry)) = inl (
          k,
          there,
          All-at (λ q. Q q (seen prepared_leaf view q s')) (l, k) prepared called there,
        )
        called_of called triples l (inr (e, others, entry)) =
            let kept =
              await_all-kept (label_index prepared_leaf) (AreKnown indexes)
                (seen prepared_leaf view) Q task prepared schedule s s' ready.1 triples known h
                (l, no_key) others
              ∙ seen-Entry (l, no_key) (some (failed e)) (e ∷ []) s entry in
            inr (e, ap (λ z. z.0) kept, ap (λ z. z.1) kept, ap (λ z. z.2) kept, ap (λ z. z.3) kept)

-- ===== src/Core/Transfer/Returned.antt =====
-- `#transferLeaves`, from the keys to the storages.
use unikvs.Prelude.{
  ℕ, ◌≡◌, ◌≢◌, refl, sym, ap, ◌∙◌, true, false, String, Option, none, some, List, [], ◌∷◌, map, All,
  ◌⊎◌, inl, inr, Equality, arith, nat_beq_iff,
}
use unikvs.Prelude.Maybe.{◌>>=◌ as and_then}
use unikvs.Prelude.Exec.{ok}
use unikvs.Pipeline.{Plugins, Leaf, Destination}
use unikvs.Pipeline.Compile.{PipelineGraph, compile}
use unikvs.Pipeline.Decode.{Runtime}
use unikvs.Pipeline.Distinct.{leaf_index, compile-AreDistinct}
use unikvs.JsMap.Laws.{is_some}
use unikvs.Pipeline.LeafResolver.Keys.{key_at}
use unikvs.Pipeline.Plain.{MapsKeys}
use unikvs.Core.Laws.{AreStorages}
use unikvs.Core.{UniKvsError, UseContext}
use unikvs.Core.Backend.{Backend}
use unikvs.Core.Outcomes.{Progress, UseOutcome, start}
use unikvs.Core.Outcomes.Settled.{Contains, counted}
use unikvs.Core.Outcomes.Started.{All-map, All-at, All-Contains, IsIn}
use unikvs.Core.Remove.Prepare.{prepare}
use unikvs.Core.Remove.Ready.{prepare-All, prepare-AreReady, prepare-AreKnown, start-Entries}
use unikvs.Core.Transfer.{
  Transfer, Keys, Prepared, abort_failure, transfer_all, finish_transfer, resolve_pair,
  transfer_leaves,
}
use unikvs.Core.Transfer.Done.{
  pick, CalledWith, CarriedWith, Called-CarriedWith, finish_transfer-ok, finish_transfer-KeepsAll,
}
use unikvs.Core.Transfer.OwnKeys.{
  source_key, target_key, ArePair, prepare-ArePair, prepare_pair-world,
}
use unikvs.Core.Transfer.Settled.{before_at, transfer_all-Called}

module _ {p : Plugins} {w : Runtime p} (b : Backend w) (keys : MapsKeys w)
    (stored : Leaf p → String → w.State → Option w.Value) (laws : AreStorages b stored)
    (stays : (s : w.State) (m : p.Middleware) (c : UseContext)
        (o : UseOutcome (UniKvsError w.Failure) w.Failure)
      → w.aborted s ≡ true
      → w.aborted (b.after_use m c o s).1 ≡ true)
    ⦃e : Equality p.Middleware⦄ ⦃path : Equality (List p.Middleware)⦄ (g : PipelineGraph p)
    (dests : List (Destination p)) (compiled : compile dests ≡ some g) (kind : Transfer)
    (key destination : String) where
  abbrev prepared_at : w.State → Prepared b
  prepared_at s =
      (prepare (resolve_pair b g key destination) g.leaves ([], []) (start g.leaves s)).0

  abbrev books_at : w.State → Progress w.State w.Failure
  books_at s = (prepare (resolve_pair b g key destination) g.leaves ([], []) (start g.leaves s)).1

  -- What a leaf holds under its own key.
  abbrev source_of : Leaf p → w.State → Option w.Value
  source_of l s = stored l (source_key b keys g key destination l) s

  -- A leaf that had the source's key has its value under the destination's key.
  abbrev pub IsCarried : w.State → w.State → Leaf p → Type 0
  IsCarried s s' l =
      ((stored l (key_at w keys destination l.path) s' ≡ stored l (key_at w keys key l.path) s)
        × (is_some (stored l (key_at w keys key l.path) s) ≡ true))
      ⊎ (is_some (stored l (key_at w keys key l.path) s) ≡ false)

  -- Every leaf is so, and one of them had the key.
  abbrev pub AreCarried : w.State → w.State → Type 0
  AreCarried s s' =
      All (IsCarried s s') g.leaves
      × ((l : Leaf p) × IsIn l g.leaves × (is_some (stored l (key_at w keys key l.path) s) ≡ true))

  -- A leaf with what it held, against the leaves that were counted.
  abbrev CountedIn : w.State → w.State → List ℕ → Leaf p → Type 0
  CountedIn s s' found l =
      IsCarried s s' l × ((is_some (source_of l s) ≡ true) ⊎ (counted l.index found ≡ false))

  counted_one :
      (s s' : w.State) (found : List ℕ)
      → found ≢ []
      → All (λ i. Contains i (map leaf_index g.leaves)) found
      → All (CountedIn s s' found) g.leaves
      → (l : Leaf p) × IsIn l g.leaves × (is_some (source_of l s) ≡ true)
  counted_one s s' [] some_found known h = absurd (some_found refl)
  counted_one s s' (i ∷ found) some_found known h =
      let (l, there, same, (carried, settled)) =
        pick (CountedIn s s' (i ∷ found)) i g.leaves known.0 h in
      elim settled [
        | inl held ↦ (l, there, held)
        | inr uncounted ↦ absurd (ground (arith, uncounted, same, nat_beq_iff i l.index))
      ]

  CarriedWith-CountedIn :
      (s s' : w.State) (books : Progress w.State w.Failure) (empty : books.errors ≡ [])
      (not_rejected : abort_failure b (prepared_at s) books.rejected ≡ none)
      → ((l : Leaf p) (k : String) → stored l k s' ≡ stored l k books.world)
      → (l : Leaf p) (k : Keys) → IsIn (l, k) (prepared_at s)
      → CarriedWith b stored
          (before_at b stored laws (books_at s).world)
          (prepared_at s)
          books
          empty
          not_rejected
          l
          k
      → CountedIn s s' books.found l
  unfolding start
  CarriedWith-CountedIn s s' books empty not_rejected kept l (from, to) there carried =
      let own =
        All-at (ArePair b keys g key destination) (l, (from, to)) (prepared_at s)
          (prepare-ArePair b keys g key destination g.leaves (start g.leaves s)) there in
      let same : (books_at s).world ≡ s =
        prepare_pair-world b keys g key destination g.leaves (start g.leaves s) in
      let before : stored l from (books_at s).world ≡ source_of l s =
        ap (λ z. stored l z.0 (books_at s).world) own ∙ ap (source_of l) same in
      let after : stored l (target_key b keys g key destination l) s' ≡ stored l to books.world =
        kept l (target_key b keys g key destination l)
        ∙ ap (λ z. stored l z.1 books.world) (sym own) in
      elim carried [
        | inl (status, there_too, value, was) ↦
            let held = sym (was ∙ ap is_some before) in
            (inl (after ∙ value ∙ before, held), inl held)
        | inr (status, uncounted, was) ↦ (inr (sym (was ∙ ap is_some before)), inr uncounted)
      ]

  books-AreCarried :
      (schedule : List ℕ) (s s' : w.State) (books : Progress w.State w.Failure)
      → transfer_all b kind schedule (prepared_at s) (books_at s) ≡ some books
      → finish_transfer b g kind key destination (prepared_at s) books ≡ some (ok tt, s')
      → AreCarried s s'
  unfolding start
  books-AreCarried schedule s s' books q h =
      let indexes = map leaf_index g.leaves in
      let own = All-Contains (λ l. l) g.leaves in
      let find = resolve_pair b g key destination in
      let (called, known) =
        transfer_all-Called b stored laws kind indexes schedule g.leaves (prepared_at s)
          (books_at s) books
          (prepare-AreReady find g.leaves ([], []) (start g.leaves s)
            (compile-AreDistinct dests g compiled) (start-Entries w.Failure g.leaves s))
          (prepare-AreKnown find indexes g.leaves ([], []) (start g.leaves s) own (tt, tt))
          (prepare-All find (λ l. Contains (leaf_index l) indexes) g.leaves ([], [])
            (start g.leaves s) own)
          q in
      let (empty, found, not_rejected) =
        finish_transfer-ok b stays g kind key destination (prepared_at s) books s' h in
      let kept =
        finish_transfer-KeepsAll b stays g stored laws kind key destination (prepared_at s) books s'
          h in
      let before = before_at b stored laws (books_at s).world in
      let settled =
        All-map (CalledWith b stored before (prepared_at s) books empty not_rejected)
          (CountedIn s s' books.found)
          (λ l c.
            let (k, there, carried) =
              Called-CarriedWith b stored before (prepared_at s) books empty not_rejected l c in
            CarriedWith-CountedIn s s' books empty not_rejected kept l k there carried)
          g.leaves called in
      (
        All-map (CountedIn s s' books.found) (IsCarried s s') (λ l c. c.0) g.leaves settled,
        counted_one s s' books.found found known.1 settled,
      )

  -- When the handlers of `copy` or `move` and what follows them have returned, every leaf that held a value
  -- under the source's key, by its own middlewares, holds that value under the destination's key, and
  -- there is one at least. It holds for compiled destinations, where `mapKey` maps the key and does
  -- nothing else, for storages with entries of their own, for any order of the calls' turns, and where
  -- `afterUse` does not take back the abortion of the signal.
  pub transfer_leaves-AreCarried :
      (schedule : List ℕ) (s s' : w.State)
      → transfer_leaves b g kind schedule key destination s ≡ some (ok tt, s')
      → AreCarried s s'
  unfolding transfer_leaves
  transfer_leaves-AreCarried schedule s s' h =
      go (transfer_all b kind schedule (prepared_at s) (books_at s)) refl h
    where
      go :
          (o : Option (Progress w.State w.Failure))
          → transfer_all b kind schedule (prepared_at s) (books_at s) ≡ o
          → and_then o (finish_transfer b g kind key destination (prepared_at s)) ≡ some (ok tt, s')
          → AreCarried s s'
      go none q r = absurd (ground (arith, r))
      go (some books) q r = books-AreCarried schedule s s' books q r

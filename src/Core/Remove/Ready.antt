-- ===== src/Core/Remove/Ready.antt =====
-- After the keys have been resolved each leaf is ready, with its key, or has failed.
use unikvs.Prelude.{
  ℕ, ◌≡◌, ◌≢◌, refl, sym, ap, subst, ◌∙◌, Option, some, List, [], ◌∷◌, ◌++◌, map, All, All-append,
  ◌⊎◌, inl, inr,
}
use mathlib.Core.List.{map-id}
use unikvs.Prelude.Exec.{Result, ok, thrown}
use unikvs.Prelude.Reorder.{AreDistinct}
use unikvs.Pipeline.{Plugins, Leaf}
use unikvs.Pipeline.Distinct.{leaf_index}
use unikvs.Core.{PluginErrorRecord}
use unikvs.Core.Outcomes.{
  Progress, Status, skipped, failed, fail, mark, start, create_target_outcomes,
}
use unikvs.Core.Outcomes.Settled.{
  status_at, reasons, set_status-here, set_status-there, reasons-here, reasons-there, Contains,
}
use unikvs.Core.Outcomes.Started.{All-map, All-map₂, IsIn, IsSkipped, started-IsSkipped}
use unikvs.Core.Outcomes.Turns.{AreKnown}
use unikvs.Core.Remove.Prepare.{prepare, noted_key}

module _ {S F : Type 0} where
  -- What the books hold of an index, before the first storage is called.
  abbrev pub Entry : ℕ → Option (Status F) → List F → Progress S F → Type 0
  Entry i status errors s =
      (status_at i s.outcomes ≡ status)
      × (reasons i s.errors ≡ errors)
      × (s.rejected ≡ [])
      × (s.found ≡ [])

module _ {p : Plugins} {S F : Type 0} where
  fail-here :
      (l : Leaf p) (e : F) (w : Status F) (s : Progress S F)
      → Entry l.index (some w) [] s
      → Entry l.index (some (failed e)) (e ∷ []) (fail l e s)
  unfolding fail mark
  fail-here l e w s h =
      let r : PluginErrorRecord F = record { name = l.name; index = l.index; reason = e } in
      (
        set_status-here l.index (failed e) w s.outcomes h.0,
        reasons-here r s.errors ∙ ap (λ es. es ++ e ∷ []) h.1,
        h.2,
        h.3,
      )

  fail-there :
      (l : Leaf p) (e : F) (i : ℕ) (status : Option (Status F)) (errors : List F) (s : Progress S F)
      → l.index ≢ i
      → Entry i status errors s
      → Entry i status errors (fail l e s)
  unfolding fail mark
  fail-there l e i status errors s apart h =
      let r : PluginErrorRecord F = record { name = l.name; index = l.index; reason = e } in
      (
        set_status-there l.index i (failed e) s.outcomes apart ∙ h.0,
        reasons-there i r s.errors apart ∙ h.1,
        h.2,
        h.3,
      )

  fail-AreKnown :
      (indexes : List ℕ) (l : Leaf p) (e : F) (s : Progress S F)
      → Contains l.index indexes
      → AreKnown indexes s
      → AreKnown indexes (fail l e s)
  unfolding fail mark
  fail-AreKnown indexes l e s own h = (
    All-append (λ r. Contains r.index indexes) s.errors
        (record { name = l.name; index = l.index; reason = e } ∷ []) h.0 (own, tt),
    h.1,
  )

abbrev pub prepared_index : {p : Plugins} {K : Type 0} → Leaf p × K → ℕ
prepared_index q = q.0.index

module _ {p : Plugins} {S F K : Type 0} where
  abbrev pub IsReady : List (Leaf p × K) → Progress S F → Leaf p → Type 0
  IsReady prepared s l =
      ((k : K) × IsIn (l, k) prepared × Entry l.index (some skipped) [] s)
      ⊎ ((e : F) × All (λ q. l.index ≢ q.0.index) prepared
          × Entry l.index (some (failed e)) (e ∷ []) s)

  abbrev pub AreReady : List (Leaf p) → List (Leaf p × K) × Progress S F → Type 0
  AreReady ls (prepared, s) =
      All (IsReady prepared s) ls
      × AreDistinct prepared_index prepared
      × All (λ q. Entry (prepared_index q) (some skipped) [] s) prepared

  IsReady-later :
      (q : Leaf p × K) (prepared : List (Leaf p × K)) (s : Progress S F) (l : Leaf p)
      → q.0.index ≢ l.index
      → IsReady prepared s l
      → IsReady (q ∷ prepared) s l
  IsReady-later q prepared s l apart (inl (k, there, entry)) = inl (k, inr there, entry)
  IsReady-later q prepared s l apart (inr (e, others, entry)) =
      inr (e, (λ same. apart (sym same), others), entry)

module _ {p : Plugins} {S F K C : Type 0} (resolve_one : Leaf p → C → S → Result F K × C × S) where
  -- The leaves that are left do not touch what the books hold of another index.
  prepare-there :
      (ls : List (Leaf p)) (cache : C) (s : Progress S F) (i : ℕ) (status : Option (Status F))
      (errors : List F)
      → All (λ l. i ≢ leaf_index l) ls
      → Entry i status errors s
      → Entry i status errors (prepare resolve_one ls cache s).1
  unfolding prepare
  prepare-there [] cache s i status errors apart h = h
  prepare-there (l ∷ ls) cache s i status errors apart h =
      let (r, cache', world) = resolve_one l cache s.world in
      go (prepare resolve_one ls cache') (λ t. prepare-there ls cache' t i status errors apart.1) r
        (record s { world = world }) h
    where
      go :
          (next : Progress S F → List (Leaf p × K) × Progress S F)
          → ((t : Progress S F) → Entry i status errors t → Entry i status errors (next t).1)
          → (r : Result F K) (t : Progress S F) → Entry i status errors t
          → Entry i status errors (noted_key resolve_one l r next t).1
      go next later (ok k) t q = later t q
      go next later (thrown e) t q =
          later (fail l e t) (fail-there l e i status errors t (λ same. apart.0 (sym same)) q)

  -- The leaves that are prepared are among those that there are.
  pub prepare-All :
      (R : Leaf p → Type 0) (ls : List (Leaf p)) (cache : C) (s : Progress S F)
      → All R ls
      → All (λ q. R q.0) (prepare resolve_one ls cache s).0
  unfolding prepare
  prepare-All R [] cache s h = tt
  prepare-All R (l ∷ ls) cache s h =
      let (r, cache', world) = resolve_one l cache s.world in
      go (prepare resolve_one ls cache') (λ t. prepare-All R ls cache' t h.1) r
        (record s { world = world })
    where
      go :
          (next : Progress S F → List (Leaf p × K) × Progress S F)
          → ((t : Progress S F) → All (λ q. R q.0) (next t).0)
          → (r : Result F K) (t : Progress S F)
          → All (λ q. R q.0) (noted_key resolve_one l r next t).0
      go next later (ok k) t = (h.0, later t)
      go next later (thrown e) t = later (fail l e t)

  module _ (l : Leaf p) (ls : List (Leaf p)) (cache : C)
      (apart : All (λ m. l.index ≢ leaf_index m) ls) where
    -- The leaves that are left, from books in which they are skipped.
    abbrev Later : Type 0
    Later =
        (t : Progress S F)
        → All (λ m. Entry m.index (some skipped) [] t) ls
        → AreReady ls (prepare resolve_one ls cache t)

    noted_key-AreReady :
        Later
        → (r : Result F K) (t : Progress S F) → Entry l.index (some skipped) [] t
        → All (λ m. Entry m.index (some skipped) [] t) ls
        → AreReady (l ∷ ls) (noted_key resolve_one l r (prepare resolve_one ls cache) t)
    noted_key-AreReady later (ok k) t here rest =
        let (ready, distinct, entries) = later t rest in
        let kept = prepare-there ls cache t l.index (some skipped) [] apart here in
        let (prepared, t') = prepare resolve_one ls cache t in
        (
          (
            inl (k, inl refl, kept),
            All-map₂ (λ m. l.index ≢ leaf_index m) (IsReady prepared t')
                (IsReady ((l, k) ∷ prepared) t') (IsReady-later (l, k) prepared t') ls apart ready,
          ),
          (prepare-All (λ m. l.index ≢ leaf_index m) ls cache t apart, distinct),
          (kept, entries),
        )
    noted_key-AreReady later (thrown e) t here rest =
        let u = fail l e t in
        let (ready, distinct, entries) = later u (
          All-map₂ (λ m. l.index ≢ leaf_index m) (λ m. Entry m.index (some skipped) [] t)
            (λ m. Entry m.index (some skipped) [] u)
            (λ m away q. fail-there l e m.index (some skipped) [] t away q) ls apart rest) in
        (
          (
            inr (
              e,
              prepare-All (λ m. l.index ≢ leaf_index m) ls cache u apart,
              prepare-there ls cache u l.index (some (failed e)) (e ∷ []) apart
                  (fail-here l e skipped t here),
            ),
            ready,
          ),
          distinct,
          entries,
        )

  pub prepare-AreReady :
      (ls : List (Leaf p)) (cache : C) (s : Progress S F)
      → AreDistinct leaf_index ls
      → All (λ l. Entry l.index (some skipped) [] s) ls
      → AreReady ls (prepare resolve_one ls cache s)
  unfolding prepare
  prepare-AreReady [] cache s apart h = (tt, tt, tt)
  prepare-AreReady (l ∷ ls) cache s apart h =
      let (r, cache', world) = resolve_one l cache s.world in
      noted_key-AreReady l ls cache' apart.0 (λ t. prepare-AreReady ls cache' t apart.1) r
        (record s { world = world }) h.0 h.1

  -- The errors of the keys are those of leaves that there are.
  pub prepare-AreKnown :
      (indexes : List ℕ) (ls : List (Leaf p)) (cache : C) (s : Progress S F)
      → All (λ l. Contains (leaf_index l) indexes) ls
      → AreKnown indexes s
      → AreKnown indexes (prepare resolve_one ls cache s).1
  unfolding prepare
  prepare-AreKnown indexes [] cache s own h = h
  prepare-AreKnown indexes (l ∷ ls) cache s own h =
      let (r, cache', world) = resolve_one l cache s.world in
      go (prepare resolve_one ls cache') (λ t. prepare-AreKnown indexes ls cache' t own.1) r
        (record s { world = world }) h
    where
      go :
          (next : Progress S F → List (Leaf p × K) × Progress S F)
          → ((t : Progress S F) → AreKnown indexes t → AreKnown indexes (next t).1)
          → (r : Result F K) (t : Progress S F) → AreKnown indexes t
          → AreKnown indexes (noted_key resolve_one l r next t).1
      go next later (ok k) t q = later t q
      go next later (thrown e) t q = later (fail l e t) (fail-AreKnown indexes l e t own.0 q)

  -- What resolving a key finds, with what it caches.
  abbrev pub Resolves : (Leaf p × K → Type 0) → (C → Type 0) → Leaf p → Result F K × C × S → Type 0
  Resolves R I l (ok k, c, s) = R (l, k) × I c
  Resolves R I l (thrown e, c, s) = I c

  pub prepare-keys :
      (R : Leaf p × K → Type 0) (I : C → Type 0)
      → ((l : Leaf p) (c : C) (s : S) → I c → Resolves R I l (resolve_one l c s))
      → (ls : List (Leaf p)) (cache : C) (s : Progress S F) → I cache
      → All R (prepare resolve_one ls cache s).0
  unfolding prepare
  prepare-keys R I finds [] cache s i = tt
  prepare-keys R I finds (l ∷ ls) cache s i =
      let (r, cache', world) = resolve_one l cache s.world in
      go r cache' world (finds l cache s.world i) (prepare resolve_one ls cache')
        (λ t. prepare-keys R I finds ls cache' t) (record s { world = world })
    where
      go :
          (r : Result F K) (c : C) (u : S)
          → Resolves R I l (r, c, u)
          → (next : Progress S F → List (Leaf p × K) × Progress S F)
          → ((t : Progress S F) → I c → All R (next t).0)
          → (t : Progress S F) → All R (noted_key resolve_one l r next t).0
      go (ok k) c u found next later t = (found.0, later t found.1)
      go (thrown e) c u found next later t = later (fail l e t) found

module _ {p : Plugins} {S : Type 0} (F : Type 0) where
  -- Where the books start.
  pub start-Entries :
      (ls : List (Leaf p)) (s : S)
      → All (λ l. Entry {F = F} l.index (some skipped) [] (start ls s)) ls
  unfolding start IsSkipped
  start-Entries ls s =
      All-map (IsSkipped F (λ l. l) (map (λ l. l) ls))
        (λ l. Entry l.index (some skipped) [] (start ls s))
        (λ l skip. (
          subst (λ ms. status_at l.index (create_target_outcomes {F = F} ms) ≡ some skipped)
              (map-id ls) skip,
          refl,
          refl,
          refl,
        ))
        ls (started-IsSkipped F (λ l. l) ls)

-- ===== src/Core/Transfer/Settled.antt =====
-- What the handlers of `#transferLeaves` come to, whatever the order of their turns.
use unikvs.Prelude.{
  ℕ, ◌≡◌, refl, sym, ap, ◌∙◌, Bool, true, false, Bool-cases, String, Option, some, List, [], ◌∷◌,
  All, ◌⊎◌, inl, inr,
}
use unikvs.Prelude.Exec.{Result, ok, thrown}
use unikvs.Pipeline.{Plugins, Leaf}
use unikvs.Pipeline.Decode.{Runtime}
use unikvs.Core.Backend.{Backend}
use unikvs.Core.Laws.{AreStorages, LeavesOthers}
use unikvs.JsMap.Laws.{is_some}
use unikvs.Tasks.{Task}
use unikvs.Core.Outcomes.{Progress, committed, not_found, failed, skipped, attempt}
use unikvs.Core.Outcomes.Settled.{Contains}
use unikvs.Core.Outcomes.Turns.{
  Seen, LeafTriple, AreKnown, attempt-Triple, mark-Triple, fail-Triple, reject-Triple, count-Triple,
}
use unikvs.Core.Remove.Called.{prepared_leaf, Called, await_all-Called}
use unikvs.Core.Remove.Ready.{AreReady}
use unikvs.Core.Transfer.{
  Transfer, copying, moving, Keys, apply, caught, after_transfer, after_exists, transfer_task,
  transfer_all,
}

-- What a leaf's storage holds under its two keys.
abbrev pub both_held :
    {p : Plugins} {S V : Type 0}
    → (Leaf p → String → S → Option V)
    → Leaf p × Keys
    → S
    → Option V × Option V
both_held stored (l, (from, to)) s = (stored l from s, stored l to s)

pair_eq : {A B : Type 0} {a c : A} {b d : B} → a ≡ c → b ≡ d → Path (A × B) (a, b) (c, d)
pair_eq p q = cc

module _ {F V : Type 0} where
  -- From what the source's key held before: counted and committed, without an error, and the destination's
  -- key holds that value; or not found and not counted, and there was none; or failed, with one error that
  -- is kept or with which the handler was rejected.
  abbrev pub IsTransferred : Option V → Seen F (Option V × Option V) → Type 0
  IsTransferred before (status, errors, rejected, counted, (source, target)) =
      ((status ≡ some committed)
        × (errors ≡ [])
        × (rejected ≡ [])
        × (counted ≡ true)
        × (target ≡ before)
        × (true ≡ is_some before))
      ⊎ (((status ≡ some not_found)
            × (errors ≡ [])
            × (rejected ≡ [])
            × (counted ≡ false)
            × (false ≡ is_some before))
          ⊎ ((e : F) × (status ≡ some (failed e))
              × (((errors ≡ e ∷ []) × (rejected ≡ [])) ⊎ ((errors ≡ []) × (rejected ≡ e ∷ [])))))

module _ {p : Plugins} {w : Runtime p} (b : Backend w)
    (stored : Leaf p → String → w.State → Option w.Value) (laws : AreStorages b stored) where
  apply_stores :
      (kind : Transfer) (l : Leaf p) (from to : String) (s : w.State)
      → (apply b kind l from to s).0 ≡ ok tt
      → stored l to (apply b kind l from to s).1 ≡ stored l from s
  apply_stores copying = laws.copy_stores
  apply_stores moving = laws.move_stores

  apply_others :
      (kind : Transfer) (from to : String) → LeavesOthers b stored (λ l. apply b kind l from to)
  apply_others copying = laws.copy_others
  apply_others moving = laws.move_others

  abbrev TransferTriple :
      List ℕ
      → Leaf p × Keys
      → Option w.Value
      → Task (Progress w.State w.Failure)
      → Bool
      → Option w.Value × Option w.Value
      → Type 0
  TransferTriple indexes q before task c x =
      LeafTriple prepared_leaf (both_held stored) indexes q (IsTransferred before) task
        (some skipped, [], [], c, x)

  caught-Triple :
      (indexes : List ℕ) (q : Leaf p × Keys) (before : Option w.Value) (e : w.Failure) (c : Bool)
      (x : Option w.Value × Option w.Value)
      → Contains (prepared_leaf q).index indexes
      → TransferTriple indexes q before (caught b q.0 e) c x
  unfolding caught
  caught-Triple indexes (l, keys) before e c x own s known here =
      let held = both_held stored in
      elim (Bool-cases (w.aborted s.world)) [
        | inl stopped ↦ rw stopped (
            reject-Triple prepared_leaf held indexes (l, keys) (IsTransferred before) e skipped []
              [] c x (inr (inr (e, refl, inr (refl, refl)))) s known here)
        | inr running ↦ rw running (
            fail-Triple prepared_leaf held indexes (l, keys) (IsTransferred before) e skipped [] []
              c x own (inr (inr (e, refl, inl (refl, refl)))) s known here)
      ]

  after_transfer-Triple :
      (indexes : List ℕ) (q : Leaf p × Keys) (before : Option w.Value)
      (r : Result w.Failure (Unit {0})) (x : Option w.Value × Option w.Value)
      → Contains (prepared_leaf q).index indexes
      → true ≡ is_some before
      → (r ≡ ok tt → x.1 ≡ before)
      → TransferTriple indexes q before (after_transfer b q.0 r) true x
  after_transfer-Triple indexes (l, keys) before (ok u) x own there done =
      mark-Triple prepared_leaf (both_held stored) indexes (l, keys) (IsTransferred before)
        committed skipped [] [] true x (inl (refl, refl, refl, refl, done refl, there))
  after_transfer-Triple indexes q before (thrown e) x own there done =
      caught-Triple indexes q before e true x own

  after_exists-Triple :
      (kind : Transfer) (indexes : List ℕ) (q : Leaf p × Keys) (before : Option w.Value)
      (r : Result w.Failure Bool) (x : Option w.Value × Option w.Value)
      → Contains (prepared_leaf q).index indexes
      → x.0 ≡ before
      → ((a : Bool) → r ≡ ok a → a ≡ is_some before)
      → TransferTriple indexes q before
          (after_exists b q.0 (attempt (apply b kind q.0 q.1.0 q.1.1) (after_transfer b q.0)) r)
          false
          x
  after_exists-Triple kind indexes (l, (from, to)) before (ok true) x own same tells =
      let q : Leaf p × Keys = (l, (from, to)) in
      let held = both_held stored in
      count-Triple prepared_leaf held indexes q (IsTransferred before)
        (attempt (apply b kind l from to) (after_transfer b l)) (some skipped) [] [] false x own
        (attempt-Triple prepared_leaf held indexes q (IsTransferred before) (apply b kind l from to)
          (after_transfer b l) (some skipped) [] [] true x
          (λ s here.
            after_transfer-Triple indexes q before (apply b kind l from to s).0
              (held q (apply b kind l from to s).1) own (tells true refl)
              (λ done. apply_stores kind l from to s done ∙ ap (λ z. z.0) here ∙ same))
          (λ s other apart.
            pair_eq (apply_others kind from to l other.0 other.1.0 s apart)
              (apply_others kind from to l other.0 other.1.1 s apart)))
  after_exists-Triple kind indexes (l, keys) before (ok false) x own same tells =
      mark-Triple prepared_leaf (both_held stored) indexes (l, keys) (IsTransferred before)
        not_found skipped [] [] false x (inr (inl (refl, refl, refl, refl, tells false refl)))
  after_exists-Triple kind indexes q before (thrown e) x own same tells =
      caught-Triple indexes q before e false x own

  transfer_task-Triple :
      (kind : Transfer) (indexes : List ℕ) (q : Leaf p × Keys) (before : Option w.Value)
      (x : Option w.Value × Option w.Value)
      → Contains (prepared_leaf q).index indexes
      → x.0 ≡ before
      → TransferTriple indexes q before (transfer_task b kind q) false x
  unfolding transfer_task
  transfer_task-Triple kind indexes (l, (from, to)) before x own same =
      let q : Leaf p × Keys = (l, (from, to)) in
      attempt-Triple prepared_leaf (both_held stored) indexes q (IsTransferred before)
        (b.exists l from) (after_exists b l (attempt (apply b kind l from to) (after_transfer b l)))
        (some skipped) [] [] false x
        (λ s here.
          after_exists-Triple kind indexes q before (b.exists l from s).0
            (both_held stored q (b.exists l from s).1) own
            (laws.exists_keeps l from l from s ∙ ap (λ z. z.0) here ∙ same)
            (λ a told. laws.exists_tells l from s a told ∙ ap is_some (ap (λ z. z.0) here ∙ same)))
        (λ s other apart.
          pair_eq (laws.exists_keeps l from other.0 other.1.0 s)
            (laws.exists_keeps l from other.0 other.1.1 s))

  -- What the source's key of a leaf held at first.
  abbrev pub before_at : w.State → Leaf p × Keys → Option w.Value
  before_at s (l, (from, to)) = stored l from s

  -- However the handlers are interleaved, when all have ended each leaf is settled: it was found, counted
  -- and its value transferred; or it was not found; or it has failed with exactly one error, which is
  -- kept or with which its handler was rejected. And every error and every counted leaf is one of the
  -- leaves.
  pub transfer_all-Called :
      (kind : Transfer) (indexes schedule : List ℕ) (leaves : List (Leaf p))
      (prepared : List (Leaf p × Keys)) (s s' : Progress w.State w.Failure)
      → AreReady leaves (prepared, s)
      → AreKnown indexes s
      → All (λ q. Contains (prepared_leaf q).index indexes) prepared
      → transfer_all b kind schedule prepared s ≡ some s'
      → All
          (Called
            (both_held stored)
            (λ q. IsTransferred (before_at s.world q))
            ("", "")
            prepared
            s')
          leaves
        × AreKnown indexes s'
  unfolding transfer_all
  transfer_all-Called kind indexes schedule leaves prepared s s' ready known own h =
      await_all-Called (both_held stored) (λ q. IsTransferred (before_at s.world q)) ("", "")
        (transfer_task b kind) indexes schedule leaves prepared s s'
        (λ q x here c.
          transfer_task-Triple kind indexes q (before_at s.world q) x c (ap (λ z. z.0) (sym here)))
        ready known own h

-- ===== src/Tasks/Invariant.antt =====
-- What holds when all tasks have finished, whatever the schedule was.
use unikvs.Prelude.{
  ℕ, zero, suc, ◌≡◌, ◌≢◌, refl, true, some, List, [], ◌∷◌, All, arith, sym, subst, Bool-cases, inl,
  inr, map,
}
use unikvs.Prelude.Reorder.{AreDistinct}
use unikvs.Tasks.{Task, finished, turn, all_finished, advance, await_all}

-- A rule for tasks that each have a label, known by its number: `Local` says how far a task is, by its own turns, and no
-- turn of another task breaks it.
pub record Rule {S L : Type 0} (key : L → ℕ) (Shared : S → Type 0) (Local : L → Task S → S → Type 0)
    : Type 0 where
  pub own :
      (l : L) (change : S → S) (next : S → Task S) (s : S)
      → Local l (turn change next) s
      → Shared s
      → Local l (next s) (change s) × Shared (change s)
  pub others :
      (l k : L) (change : S → S) (next : S → Task S) (t : Task S) (s : S)
      → key l ≢ key k
      → Shared s
      → Local l (turn change next) s
      → Local k t s
      → Local k t (change s)

module _ {S L : Type 0} {key : L → ℕ} {Shared : S → Type 0} {Local : L → Task S → S → Type 0}
    (rule : Rule key Shared Local) where
  -- The tasks of some labels, in their order.
  abbrev pub Pool : List L → List (Task S) → S → Type 0
  Pool [] [] s = Unit {0}
  Pool [] (t ∷ ts) s = ⊥
  Pool (l ∷ ls) [] s = ⊥
  Pool (l ∷ ls) (t ∷ ts) s = Local l t s × Pool ls ts s

  Pool-others :
      (l : L) (change : S → S) (next : S → Task S) (s : S)
      → Shared s
      → Local l (turn change next) s
      → (ls : List L) (ts : List (Task S)) → All (λ k. key l ≢ key k) ls
      → Pool ls ts s
      → Pool ls ts (change s)
  Pool-others l change next s d h [] [] a p = tt
  Pool-others l change next s d h (k ∷ ls) (t ∷ ts) a p =
      (rule.others l k change next t s a.0 d h p.0, Pool-others l change next s d h ls ts a.1 p.1)
  Pool-others l change next s d h [] (t ∷ ts) a p = p
  Pool-others l change next s d h (k ∷ ls) [] a p = p

  -- A turn that some task takes, seen from a task that stands before it.
  abbrev Leaves : L → Task S → S → S → Type 0
  Leaves l t s s' = Local l t s → Local l t s'

  advance-Pool :
      (i : ℕ) (ls : List L) (ts : List (Task S)) (s : S)
      → AreDistinct key ls
      → Pool ls ts s
      → Shared s
      → Pool ls (advance i ts s).0 (advance i ts s).1
        × Shared (advance i ts s).1
        × ((l : L) (t : Task S) → All (λ k. key l ≢ key k) ls → Leaves l t s (advance i ts s).1)
  unfolding advance
  advance-Pool i [] [] s a p h = (tt, h, λ l t b k. k)
  advance-Pool i [] (t ∷ ts) s a p h = absurd p
  advance-Pool i (l ∷ ls) [] s a p h = absurd p
  advance-Pool zero (l ∷ ls) (finished ∷ ts) s a p h = (p, h, λ k t b q. q)
  advance-Pool zero (l ∷ ls) (turn change next ∷ ts) s a p h =
      let (here, shared) = rule.own l change next s p.0 h in
      (
        (here, Pool-others l change next s h p.0 ls ts a.0 p.1),
        shared,
        λ k t b q. rule.others l k change next t s (λ e. b.0 (sym e)) h p.0 q,
      )
  advance-Pool (suc i) (l ∷ ls) (t ∷ ts) s a p h =
      let (later, shared, kept) = advance-Pool i ls ts s a.1 p.1 h in
      ((kept l t a.0 p.0, later), shared, λ k u b q. kept k u b.1 q)

  Pool-finished :
      (ls : List L) (ts : List (Task S)) (s : S)
      → all_finished ts ≡ true
      → Pool ls ts s
      → All (λ l. Local l finished s) ls
  Pool-finished [] [] s f p = tt
  Pool-finished [] (t ∷ ts) s f p = absurd p
  Pool-finished (l ∷ ls) [] s f p = absurd p
  Pool-finished (l ∷ ls) (finished ∷ ts) s f p = (p.0, Pool-finished ls ts s f p.1)
  Pool-finished (l ∷ ls) (turn change next ∷ ts) s f p = absurd (ground (arith, f))

  abbrev pub Ended : List L → S → S → Type 0
  Ended ls s s' =
      All (λ l. Local l finished s') ls
      × Shared s'
      × ((l : L) (t : Task S) → All (λ k. key l ≢ key k) ls → Leaves l t s s')

  -- When a schedule finishes all tasks, each has come to its end by its own turns.
  pub await_all-Local :
      (schedule : List ℕ) (ls : List L) (ts : List (Task S)) (s s' : S)
      → AreDistinct key ls
      → Pool ls ts s
      → Shared s
      → await_all schedule ts s ≡ some s'
      → Ended ls s s'
  unfolding await_all
  await_all-Local [] ls ts s s' a p h e = elim (Bool-cases (all_finished ts)) [
    | inl done ↦
        let same : s ≡ s' = ground (arith, e) in
        subst (Ended ls s) same (Pool-finished ls ts s done p, h, λ l t b q. q)
    | inr more ↦ absurd (ground (arith, e))
  ]
  await_all-Local (i ∷ schedule) ls ts s s' a p h e =
      let (pool, shared, kept) = advance-Pool i ls ts s a p h in
      let (last, shared', kept') =
        await_all-Local schedule ls (advance i ts s).0 (advance i ts s).1 s' a pool shared e in
      (last, shared', λ l t b q. kept' l t b (kept l t b q))

  -- The tasks that one function makes of some labels.
  pub Pool-map :
      (task : L → Task S) (s : S)
      → (ls : List L) → All (λ l. Local l (task l) s) ls
      → Pool ls (map task ls) s
  Pool-map task s [] h = tt
  Pool-map task s (l ∷ ls) h = (h.0, Pool-map task s ls h.1)

-- A way to meet the rule: each label has its own part of what the tasks share, a turn changes the part
-- of its own label alone, and `Triple` says what a task makes of it, by its turns.
module _ {S L V : Type 0} (key : L → ℕ) (Shared : S → Type 0) (part : L → S → V) where
  abbrev pub Triple : L → (V → Type 0) → Task S → V → Type 0
  Triple l Q finished v = Q v
  Triple l Q (turn change next) v =
      (s : S)
      → Shared s
      → part l s ≡ v
      → Triple l Q (next s) (part l (change s))
        × ((k : L) → key l ≢ key k → part k (change s) ≡ part k s)
        × Shared (change s)

  abbrev Meets : (L → V → Type 0) → L → Task S → S → Type 0
  Meets Q l t s = Triple l (Q l) t (part l s)

  parts : (Q : L → V → Type 0) → Rule key Shared (Meets Q)
  parts Q = record {
    own = λ l change next s h shared. let r = h s shared refl in (r.0, r.2);
    others = λ l k change next t s apart shared h q.
        let (last, kept, safe) = h s shared refl in
        subst (λ v. Triple k (Q k) t v) (sym (kept k apart)) q;
  }

  -- When a schedule finishes tasks that each meet their triple, each label's part is what its own task
  -- makes of it, whatever the schedule was.
  pub await_all-parts :
      (Q : L → V → Type 0) (task : L → Task S) (ls : List L) (schedule : List ℕ) (s s' : S)
      → AreDistinct key ls
      → All (λ l. Triple l (Q l) (task l) (part l s)) ls
      → Shared s
      → await_all schedule (map task ls) s ≡ some s'
      → All (λ l. Q l (part l s')) ls × Shared s'
  await_all-parts Q task ls schedule s s' a h shared e =
      let (last, safe, kept) =
        await_all-Local (parts Q) schedule ls (map task ls) s s' a (Pool-map (parts Q) task s ls h)
          shared e in
      (last, safe)

  Triple-map :
      (l : L) (Q R : V → Type 0)
      → ((v : V) → Q v → R v)
      → (t : Task S) (v : V) → Triple l Q t v
      → Triple l R t v
  Triple-map l Q R f finished v h = f v h
  Triple-map l Q R f (turn change next) v h = λ s shared here.
      let (last, kept, safe) = h s shared here in
      (Triple-map l Q R f (next s) (part l (change s)) last, kept, safe)

  -- No label is apart from all labels, if it is one of them.
  none_apart : (ls : List L) → All (λ l. All (λ k. key l ≢ key k) ls → ⊥) ls
  none_apart [] = tt
  none_apart (l ∷ ls) = (λ h. h.0 refl, later ls (none_apart ls))
    where
      later :
          (ms : List L)
          → All (λ m. All (λ k. key m ≢ key k) ls → ⊥) ms
          → All (λ m. All (λ k. key m ≢ key k) (l ∷ ls) → ⊥) ms
      later [] h = tt
      later (m ∷ ms) h = (λ away. h.0 away.1, later ms h.1)

  -- The part of a label that has no task stays as it is.
  pub await_all-kept :
      (Q : L → V → Type 0) (task : L → Task S) (ls : List L) (schedule : List ℕ) (s s' : S)
      → AreDistinct key ls
      → All (λ l. Triple l (Q l) (task l) (part l s)) ls
      → Shared s
      → await_all schedule (map task ls) s ≡ some s'
      → (k : L) → All (λ l. key k ≢ key l) ls
      → part k s' ≡ part k s
  await_all-kept Q task ls schedule s s' a h shared e k away =
      let (last, safe, kept) =
        await_all-Local (parts Same) schedule ls (map task ls) s s' a
          (Pool-map (parts Same) task s ls (weaker ls (none_apart ls) h)) shared e in
      kept k finished away (λ q. refl) away
    where
      Same : L → V → Type 0
      Same m v = All (λ l. key m ≢ key l) ls → v ≡ part m s

      weaker :
          (ms : List L)
          → All (λ m. All (λ l. key m ≢ key l) ls → ⊥) ms
          → All (λ m. Triple m (Q m) (task m) (part m s)) ms
          → All (λ m. Triple m (Same m) (task m) (part m s)) ms
      weaker [] n t = tt
      weaker (m ∷ ms) n t = (
        Triple-map m (Q m) (Same m) (λ v q apart. absurd (n.0 apart)) (task m) (part m s) t.0,
        weaker ms n.1 t.1,
      )

-- ===== src/Core/Outcomes/Turns.antt =====
-- The triples of the turns that a leaf takes: a call of its storage, and what the handler notes of it.
use unikvs.Prelude.{
  ℕ, ◌≡◌, ◌≢◌, refl, sym, ap, ◌∙◌, Bool, true, false, Option, some, List, [], ◌∷◌, ◌++◌, All, subst,
  All-append, map,
}
use unikvs.Prelude.Exec.{Result, ok, thrown, Exec}
use unikvs.Prelude.Reorder.{AreDistinct}
use unikvs.Pipeline.{Plugins, Leaf}
use unikvs.Core.{PluginErrorRecord}
use unikvs.Tasks.{Task, turn, await_all}
use unikvs.Tasks.Invariant.{Triple, await_all-parts}
use unikvs.Core.Outcomes.{
  Status, Progress, mark, fail, reject, count, note, start, skipped, attempt, recorded, call_once,
  committed, failed,
}
use unikvs.Core.Outcomes.Started.{
  All-map₂, label_indexes, All-Contains, IsSkipped, started-IsSkipped,
}
use unikvs.Core.Outcomes.Settled.{
  status_at, reasons, Contains, counted, counted-here, counted-there, set_status-here,
  set_status-there, reasons-here, reasons-there,
}

-- The status, the errors, the reasons of rejected handlers, whether `found` has counted it, and what the
-- storage shows.
abbrev pub Seen : Type 0 → Type 0 → Type 0
Seen F View = Option (Status F) × List F × List F × Bool × View

-- The index of a label's leaf.
abbrev pub label_index : {p : Plugins} {L : Type 0} → (L → Leaf p) → L → ℕ
label_index leaf_at l = (leaf_at l).index

-- The errors and the count are those of some leaves.
abbrev pub AreKnown : {S F : Type 0} → List ℕ → Progress S F → Type 0
AreKnown indexes s =
    All (λ r. Contains r.index indexes) s.errors × All (λ i. Contains i indexes) s.found

abbrev pub of_five : {A B C D E : Type 0} → A → B → C → D → E → A × B × C × D × E
of_five a b c d e = (a, b, c, d, e)

pub five_eq :
    {A B C D E : Type 0} {a a' : A} {b b' : B} {c c' : C} {d d' : D} {x x' : E}
    → a ≡ a'
    → b ≡ b'
    → c ≡ c'
    → d ≡ d'
    → x ≡ x'
    → of_five a b c d x ≡ of_five a' b' c' d' x'
five_eq p q r t u = cc

-- `leaf_at` is the leaf of a label, `view` what its storage shows, and `indexes` those of the leaves.
module _ {p : Plugins} {S F L View : Type 0} (leaf_at : L → Leaf p) (view : L → S → View) where
  abbrev pub seen : L → Progress S F → Seen F View
  seen l s = (
    status_at (label_index leaf_at l) s.outcomes,
    reasons (label_index leaf_at l) s.errors,
    reasons (label_index leaf_at l) s.rejected,
    counted (label_index leaf_at l) s.found,
    view l s.world,
  )

module _ {p : Plugins} {S F L View : Type 0} (leaf_at : L → Leaf p) (view : L → S → View)
    (indexes : List ℕ) where
  abbrev pub LeafTriple : L → (Seen F View → Type 0) → Task (Progress S F) → Seen F View → Type 0
  LeafTriple = Triple (label_index leaf_at) (AreKnown indexes) (seen leaf_at view)

  pub mark-Triple :
      (l : L) (Q : Seen F View → Type 0) (v w : Status F) (es rs : List F) (c : Bool) (x : View)
      → Q (some v, es, rs, c, x)
      → LeafTriple l Q (note (mark (leaf_at l) v)) (some w, es, rs, c, x)
  unfolding mark
  mark-Triple l Q v w es rs c x q s known here =
      let i = label_index leaf_at l in
      (
        subst Q
            (five_eq (sym (set_status-here i v w s.outcomes (ap (λ z. z.0) here)))
              (sym (ap (λ z. z.1) here)) (sym (ap (λ z. z.2) here)) (sym (ap (λ z. z.3) here))
              (sym (ap (λ z. z.4) here)))
            q,
        λ k apart.
            five_eq (set_status-there i (label_index leaf_at k) v s.outcomes apart) refl refl refl
              refl,
        known,
      )

  pub fail-Triple :
      (l : L) (Q : Seen F View → Type 0) (e : F) (w : Status F) (es rs : List F) (c : Bool)
      (x : View)
      → Contains (label_index leaf_at l) indexes
      → Q (some (failed e), es ++ e ∷ [], rs, c, x)
      → LeafTriple l Q (note (fail (leaf_at l) e)) (some w, es, rs, c, x)
  unfolding fail mark
  fail-Triple l Q e w es rs c x own q s known here =
      let i = label_index leaf_at l in
      let r : PluginErrorRecord F = record { name = (leaf_at l).name; index = i; reason = e } in
      let status = set_status-here i (failed e) w s.outcomes (ap (λ z. z.0) here) in
      (
        subst Q
            (five_eq (sym status) (sym (reasons-here r s.errors ∙ ap (λ z. z.1 ++ e ∷ []) here))
              (sym (ap (λ z. z.2) here)) (sym (ap (λ z. z.3) here)) (sym (ap (λ z. z.4) here)))
            q,
        λ k apart.
            five_eq (set_status-there i (label_index leaf_at k) (failed e) s.outcomes apart)
              (reasons-there (label_index leaf_at k) r s.errors apart) refl refl refl,
        (All-append (λ q. Contains q.index indexes) s.errors (r ∷ []) known.0 (own, tt), known.1),
      )

  pub reject-Triple :
      (l : L) (Q : Seen F View → Type 0) (e : F) (w : Status F) (es rs : List F) (c : Bool)
      (x : View)
      → Q (some (failed e), es, rs ++ e ∷ [], c, x)
      → LeafTriple l Q (note (reject (leaf_at l) e)) (some w, es, rs, c, x)
  unfolding reject mark
  reject-Triple l Q e w es rs c x q s known here =
      let i = label_index leaf_at l in
      let r : PluginErrorRecord F = record { name = (leaf_at l).name; index = i; reason = e } in
      (
        subst Q
            (five_eq (sym (set_status-here i (failed e) w s.outcomes (ap (λ z. z.0) here)))
              (sym (ap (λ z. z.1) here))
              (sym (reasons-here r s.rejected ∙ ap (λ z. z.2 ++ e ∷ []) here))
              (sym (ap (λ z. z.3) here)) (sym (ap (λ z. z.4) here)))
            q,
        λ k apart.
            five_eq (set_status-there i (label_index leaf_at k) (failed e) s.outcomes apart) refl
              (reasons-there (label_index leaf_at k) r s.rejected apart) refl refl,
        known,
      )

  pub count-Triple :
      (l : L) (Q : Seen F View → Type 0) (next : Task (Progress S F)) (o : Option (Status F))
      (es rs : List F) (c : Bool) (x : View)
      → Contains (label_index leaf_at l) indexes
      → LeafTriple l Q next (o, es, rs, true, x)
      → LeafTriple l Q (turn (count (leaf_at l)) (λ s. next)) (o, es, rs, c, x)
  unfolding count
  count-Triple l Q next o es rs c x own q s known here =
      let i = label_index leaf_at l in
      (
        subst (LeafTriple l Q next)
            (five_eq (sym (ap (λ z. z.0) here)) (sym (ap (λ z. z.1) here))
              (sym (ap (λ z. z.2) here)) (sym (counted-here i s.found)) (sym (ap (λ z. z.4) here)))
            q,
        λ k apart.
            five_eq refl refl refl (counted-there i (label_index leaf_at k) s.found apart) refl,
        (known.0, All-append (λ j. Contains j indexes) s.found (i ∷ []) known.1 (own, tt)),
      )

  pub attempt-Triple :
      {A : Type 0} (l : L) (Q : Seen F View → Type 0) (m : Exec S F A)
      (next : Result F A → Task (Progress S F)) (o : Option (Status F)) (es rs : List F) (c : Bool)
      (x : View)
      → ((st : S) → view l st ≡ x → LeafTriple l Q (next (m st).0) (o, es, rs, c, view l (m st).1))
      → ((st : S) (k : L)
          → label_index leaf_at l ≢ label_index leaf_at k
          → view k (m st).1 ≡ view k st)
      → LeafTriple l Q (attempt m next) (o, es, rs, c, x)
  unfolding attempt
  attempt-Triple l Q m next o es rs c x q others s known here = (
    subst (λ z. LeafTriple l Q (next (m s.world).0) (z.0, z.1, z.2, z.3, view l (m s.world).1))
        (sym here) (q s.world (ap (λ z. z.4) here)),
    λ k apart. five_eq refl refl refl refl (others s.world k apart),
    known,
  )

  recorded-Triple :
      (l : L) (Q : Seen F View → Type 0) (w : Status F) (r : Result F (Unit {0})) (c : Bool)
      (x : View)
      → Contains (label_index leaf_at l) indexes
      → (r ≡ ok tt → Q (some committed, [], [], c, x))
      → ((e : F) → r ≡ thrown e → Q (some (failed e), e ∷ [], [], c, x))
      → LeafTriple l Q (recorded (leaf_at l) r) (some w, [], [], c, x)
  recorded-Triple l Q w (ok u) c x own done lost = mark-Triple l Q committed w [] [] c x (done refl)
  recorded-Triple l Q w (thrown e) c x own done lost =
      fail-Triple l Q e w [] [] c x own (lost e refl)

  -- A leaf whose storage is called once, by what the call returned.
  pub call_once-Triple :
      (l : L) (Q : Seen F View → Type 0) (m : Exec S F (Unit {0})) (w : Status F) (c : Bool)
      (x : View)
      → Contains (label_index leaf_at l) indexes
      → ((st : S)
          → view l st ≡ x
          → (m st).0 ≡ ok tt
          → Q (some committed, [], [], c, view l (m st).1))
      → ((st : S) (e : F)
          → (m st).0 ≡ thrown e
          → Q (some (failed e), e ∷ [], [], c, view l (m st).1))
      → ((st : S) (k : L)
          → label_index leaf_at l ≢ label_index leaf_at k
          → view k (m st).1 ≡ view k st)
      → LeafTriple l Q (call_once (leaf_at l) m) (some w, [], [], c, x)
  unfolding call_once
  call_once-Triple l Q m w c x own done lost others =
      attempt-Triple l Q m (recorded (leaf_at l)) (some w) [] [] c x
        (λ st here. recorded-Triple l Q w (m st).0 c (view l (m st).1) own (done st here) (lost st))
        others

  -- Handlers that each meet their triple from the start of an operation on their leaves.
  pub await_all-start :
      (Q : L → Seen F View → Type 0) (task : L → Task (Progress S F)) (ls : List L)
      (schedule : List ℕ) (s : S) (s' : Progress S F)
      → indexes ≡ label_indexes leaf_at ls
      → AreDistinct (label_index leaf_at) ls
      → ((l : L)
          → Contains (label_index leaf_at l) indexes
          → LeafTriple l (Q l) (task l) (some skipped, [], [], false, view l s))
      → await_all schedule (map task ls) (start (map leaf_at ls) s) ≡ some s'
      → All (λ l. Q l (seen leaf_at view l s')) ls × AreKnown indexes s'
  unfolding start IsSkipped
  await_all-start Q task ls schedule s s' same apart meets e =
      await_all-parts (label_index leaf_at) (AreKnown indexes) (seen leaf_at view) Q task ls
        schedule (start (map leaf_at ls) s) s' apart
        (All-map₂ (λ l. Contains (label_index leaf_at l) indexes)
          (IsSkipped F leaf_at (map leaf_at ls))
          (λ l. LeafTriple l (Q l) (task l) (seen leaf_at view l (start (map leaf_at ls) s)))
          (λ l own skip.
            subst (λ o. LeafTriple l (Q l) (task l) (o, [], [], false, view l s)) (sym skip)
              (meets l own))
          ls
          (subst (λ is. All (λ l. Contains (label_index leaf_at l) is) ls) (sym same)
            (All-Contains leaf_at ls))
          (started-IsSkipped F leaf_at ls))
        (tt, tt) e

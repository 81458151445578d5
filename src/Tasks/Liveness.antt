-- ===== src/Tasks/Liveness.antt =====
-- Tasks can always be finished, and take no more turns than they have.
use unikvs.Prelude.{ℕ, zero, suc, ◌≡◌, refl, ◌∙◌, some, List, [], ◌∷◌, ◌++◌, map}
use unikvs.Tasks.{Task, finished, turn, advance, await_all}

module _ {S : Type 0} where
  Finishes : List (Task S) → S → Type 0
  Finishes ts s = (schedule : List ℕ) × (s' : S) × (await_all schedule ts s ≡ some s')

  -- A task that has finished leaves the turns to those after it.
  await_all-later :
      (schedule : List ℕ) (ts : List (Task S)) (s : S)
      → await_all (map suc schedule) (finished ∷ ts) s ≡ await_all schedule ts s
  unfolding await_all
  await_all-later [] ts s = refl
  await_all-later (i ∷ schedule) ts s =
      await_all-later schedule (advance i ts s).0 (advance i ts s).1

  first-Finishes :
      (t : Task S) (ts : List (Task S)) (s : S) → ((s' : S) → Finishes ts s') → Finishes (t ∷ ts) s
  unfolding await_all Finishes
  first-Finishes finished ts s later =
      let (schedule, s', p) = later s in (map suc schedule, s', await_all-later schedule ts s ∙ p)
  first-Finishes (turn change next) ts s later =
      let (schedule, s', p) = first-Finishes (next s) ts (change s) later in
      (zero ∷ schedule, s', p)

  all-Finishes : (ts : List (Task S)) (s : S) → Finishes ts s
  unfolding await_all Finishes
  all-Finishes [] s = ([], s, refl)
  all-Finishes (t ∷ ts) s = first-Finishes t ts s (all-Finishes ts)

  -- Whatever turns the tasks have taken, further turns finish them all: no task waits for another for
  -- ever, and what `Promise.all` awaits can always come.
  pub await_all_extends :
      (taken : List ℕ) (ts : List (Task S)) (s : S)
      → (further : List ℕ) × (s' : S) × (await_all (taken ++ further) ts s ≡ some s')
  unfolding await_all Finishes
  await_all_extends [] ts s = all-Finishes ts s
  await_all_extends (i ∷ taken) ts s = await_all_extends taken (advance i ts s).0 (advance i ts s).1

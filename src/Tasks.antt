-- ===== src/Tasks.antt =====
-- Asynchronous functions that one `Promise.all` awaits. A task is what is left of such a function: it
-- takes a turn up to its next `await`, and its turns and those of the others come in any order.
pub mod Invariant
pub mod Liveness
mod Tests
use unikvs.Prelude.{
  ℕ, zero, suc, Bool, true, false, ◌&&◌, Option, none, some, List, [], ◌∷◌, if◌then◌else◌,
}

-- `turn change next`: the turn changes what the tasks share, and what it saw there decides what is
-- left.
pub data Task (S : Type 0) : Type 0 where
  finished : Task S
  turn : (S → S) → (S → Task S) → Task S

module _ {S : Type 0} where
  abbrev pub is_finished : Task S → Bool
  is_finished finished = true
  is_finished (turn change next) = false

  abbrev pub all_finished : List (Task S) → Bool
  all_finished [] = true
  all_finished (t ∷ ts) = is_finished t && all_finished ts

  -- The task at a place takes its next turn, if it has one.
  unfoldable pub advance : ℕ → List (Task S) → S → List (Task S) × S
  advance i [] s = ([], s)
  advance zero (finished ∷ ts) s = (finished ∷ ts, s)
  advance zero (turn change next ∷ ts) s = (next s ∷ ts, change s)
  advance (suc i) (t ∷ ts) s = let (ts', s') = advance i ts s in (t ∷ ts', s')

  -- The turns in the order of a schedule of places; `none`: the schedule leaves a task unfinished.
  unfoldable pub await_all : List ℕ → List (Task S) → S → Option S
  unfolding advance
  await_all [] ts s = if all_finished ts then some s else none
  await_all (i ∷ schedule) ts s = let (ts', s') = advance i ts s in await_all schedule ts' s'

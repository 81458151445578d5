-- ===== src/Core/Write/Settled.antt =====
-- What the writes of `#setPlain` come to, whatever the order of their turns.
use unikvs.Prelude.{ℕ, ◌≡◌, refl, String, false, Option, some, List, [], ◌∷◌, All, ◌⊎◌, inl, inr}
use unikvs.Prelude.Reorder.{AreDistinct}
use unikvs.Pipeline.{Plugins, Leaf}
use unikvs.Pipeline.Decode.{Runtime}
use unikvs.Pipeline.Encode.{EncodeTarget}
use unikvs.Core.Backend.{Backend}
use unikvs.Core.Laws.{AreStorages}
use unikvs.Core.Outcomes.{Progress, committed, failed, skipped}
use unikvs.Core.Outcomes.Settled.{Contains}
use unikvs.Core.Outcomes.Started.{label_indexes}
use unikvs.Core.Outcomes.Turns.{
  Seen, seen, LeafTriple, AreKnown, label_index, call_once-Triple, await_all-start,
}
use unikvs.Core.Write.{write_task, write_targets}

module _ {p : Plugins} {w : Runtime p} where
  abbrev pub leaf_at : EncodeTarget w → Leaf p
  leaf_at t = t.leaf

  abbrev pub shown :
      (Leaf p → String → w.State → Option w.Value) → EncodeTarget w → w.State → Option w.Value
  shown stored t = stored t.leaf t.key

  -- Committed, without an error, and its storage holds the encoded value; or failed with one error.
  abbrev pub IsWritten : EncodeTarget w → Seen w.Failure (Option w.Value) → Type 0
  IsWritten t (status, errors, rejected, counted, value) =
      ((status ≡ some committed) × (errors ≡ []) × (value ≡ some t.encoded))
      ⊎ ((e : w.Failure) × (status ≡ some (failed e)) × (errors ≡ e ∷ []))

module _ {p : Plugins} {w : Runtime p} (b : Backend w)
    (stored : Leaf p → String → w.State → Option w.Value) (laws : AreStorages b stored) where
  write_task-Triple :
      (indexes : List ℕ) (t : EncodeTarget w) (x : Option w.Value)
      → Contains t.leaf.index indexes
      → LeafTriple leaf_at
          (shown stored)
          indexes
          t
          (IsWritten t)
          (write_task b t)
          (some skipped, [], [], false, x)
  unfolding write_task
  write_task-Triple indexes t x own =
      call_once-Triple leaf_at (shown stored) indexes t (IsWritten t)
        (b.write t.leaf t.key t.encoded) skipped false x own
        (λ s here done. inl (refl, refl, laws.write_stores t.leaf t.key t.encoded s done))
        (λ s e lost. inr (e, refl, refl))
        (λ s k apart. laws.write_others t.key t.encoded t.leaf k.leaf k.key s apart)

  -- However the writes of targets with different indices are interleaved, when all have ended each
  -- target is either committed without an error, and its storage holds the encoded value under its
  -- key, or failed with exactly one error; and every error is that of one of the targets.
  pub write_targets-IsWritten :
      (schedule : List ℕ) (targets : List (EncodeTarget w)) (s : w.State)
      (s' : Progress w.State w.Failure)
      → AreDistinct (label_index leaf_at) targets
      → write_targets b schedule targets s ≡ some s'
      → All (λ t. IsWritten t (seen leaf_at (shown stored) t s')) targets
        × AreKnown (label_indexes leaf_at targets) s'
  unfolding write_targets
  write_targets-IsWritten schedule targets s s' apart e =
      await_all-start leaf_at (shown stored) (label_indexes leaf_at targets) IsWritten
        (write_task b) targets schedule s s' refl apart
        (λ t own. write_task-Triple (label_indexes leaf_at targets) t (shown stored t s) own) e

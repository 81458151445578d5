-- ===== src/Pipeline/Encode/Undone.antt =====
-- What encoding stores for a leaf, its decoding gives back.
use unikvs.Prelude.{false, String, List, [], ◌∷◌, map, All, ◌≡◌}
use unikvs.Prelude.Exec.{ok}
use unikvs.Pipeline.{Plugins, Leaf}
use unikvs.Pipeline.Plain.{IsPlain}
use unikvs.Pipeline.Decode.{Runtime, decode}
use unikvs.Pipeline.Decode.Undone.{decode_undoes}
use unikvs.Pipeline.Encode.{EncodeTarget}
use unikvs.Pipeline.Encode.Walked.{target_of}

module _ {p : Plugins} (w : Runtime p) (plain : IsPlain w) where
  -- Decoding what a target holds for its leaf gives the value.
  abbrev pub Decodes : w.Value → w.State → EncodeTarget w → Type 0
  Decodes x s t = decode w t.leaf t.encoded s ≡ (ok x, (s, tt))

  pub targets-Decodes :
      (key : String) (x : w.Value) (s : w.State)
      → w.aborted s ≡ false
      → (ls : List (Leaf p)) → All (Decodes x s) (map (target_of w plain key x) ls)
  targets-Decodes key x s a [] = tt
  targets-Decodes key x s a (l ∷ ls) = (decode_undoes w plain l x s a, targets-Decodes key x s a ls)

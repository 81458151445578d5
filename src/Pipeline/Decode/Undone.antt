-- ===== src/Pipeline/Decode/Undone.antt =====
-- Decoding through plain middlewares.
use unikvs.Prelude.{false, List, [], ◌∷◌, reverse, ◌≡◌, refl, ap, ◌∙◌}
use unikvs.Prelude.Exec.{ok}
use unikvs.Pipeline.{Plugins, Leaf}
use unikvs.Pipeline.Contract.{run_middleware}
use unikvs.Pipeline.Contract.Convey.{run_convey}
use unikvs.Pipeline.Plain.{IsPlain, along, along-reverse}
use unikvs.Pipeline.Decode.{Runtime, outcome, run, decode}

module _ {p : Plugins} (w : Runtime p) (plain : IsPlain w) where
  run-along :
      (ms : List p.Middleware) (x : w.Value) (s : w.State)
      → w.aborted s ≡ false
      → run w ms x (s, tt) ≡ (ok (along plain.decoded_by ms x), (s, tt))
  unfolding run outcome
  run-along [] x s a = refl
  run-along (m ∷ ms) x s a =
      let y = plain.decoded_by m x in
      ap (λ h. outcome w (run_middleware w.aborted w.reason (run w ms) h (s, tt)))
        (plain.decode_conveys m x)
      ∙ ap (outcome w) (
          run_convey (run w ms) w.aborted w.reason y (s, tt) (along plain.decoded_by ms y) s tt
            (run-along ms y s a) a)

  -- Decoding applies the conversions of a leaf's middlewares, from the leaf to the root.
  pub decode-along :
      (l : Leaf p) (x : w.Value) (s : w.State)
      → w.aborted s ≡ false
      → decode w l x s ≡ (ok (along plain.decoded_by (reverse l.path) x), (s, tt))
  unfolding decode
  decode-along l x s a = run-along (reverse l.path) x s a

  pub decode_undoes :
      (l : Leaf p) (x : w.Value) (s : w.State)
      → w.aborted s ≡ false
      → decode w l (along plain.encoded_by l.path x) s ≡ (ok x, (s, tt))
  decode_undoes l x s a =
      decode-along l (along plain.encoded_by l.path x) s a
      ∙ ap (λ y. (ok y, (s, tt)))
          (along-reverse plain.encoded_by plain.decoded_by plain.decodes l.path x)

-- ===== src/Pipeline/Plain.antt =====
-- Middlewares that convert a value and go on, as most do, and whose decoding undoes the encoding.
use unikvs.Prelude.{String, List, [], ◌∷◌, ◌++◌, reverse, ◌≡◌, refl, ap, ◌∙◌}
use mathlib.Core.List.{reverse-cons}
use unikvs.Prelude.Exec.{ok}
use unikvs.Pipeline.{Plugins}
use unikvs.Pipeline.Contract.Convey.{convey}
use unikvs.Pipeline.Decode.{Runtime}

pub record IsPlain {p : Plugins} (w : Runtime p) : Type 0 where
  pub encoded_by : p.Middleware → w.Value → w.Value
  pub decoded_by : p.Middleware → w.Value → w.Value
  pub key_by : p.Middleware → String → String
  pub encode_conveys : (m : p.Middleware) (x : w.Value) → w.encode m x ≡ convey (encoded_by m x)
  pub decode_conveys : (m : p.Middleware) (x : w.Value) → w.decode m x ≡ convey (decoded_by m x)
  pub map_key_maps :
      (m : p.Middleware) (k : String) (s : w.State) → w.map_key m k s ≡ (ok (key_by m k), s)
  pub decodes : (m : p.Middleware) (x : w.Value) → decoded_by m (encoded_by m x) ≡ x

-- Middlewares whose `mapKey` maps the key and does nothing else.
pub record MapsKeys {p : Plugins} (w : Runtime p) : Type 0 where
  pub key_by : p.Middleware → String → String
  pub map_key_maps :
      (m : p.Middleware) (k : String) (s : w.State) → w.map_key m k s ≡ (ok (key_by m k), s)

abbrev pub keys_of : {p : Plugins} {w : Runtime p} → IsPlain w → MapsKeys w
keys_of plain = record { key_by = plain.key_by; map_key_maps = plain.map_key_maps }

module _ {M A : Type 0} (f : M → A → A) where
  -- A row of conversions, the first one first.
  abbrev pub along : List M → A → A
  along [] x = x
  along (m ∷ ms) x = along ms (f m x)

  pub along-append : (ms ns : List M) (x : A) → along (ms ++ ns) x ≡ along ns (along ms x)
  along-append [] ns x = refl
  along-append (m ∷ ms) ns x = along-append ms ns (f m x)

module _ {M A : Type 0} (f g : M → A → A) (undo : (m : M) (x : A) → g m (f m x) ≡ x) where
  pub along-reverse : (ms : List M) (x : A) → along g (reverse ms) (along f ms x) ≡ x
  along-reverse [] x = refl
  along-reverse (m ∷ ms) x =
      ap (λ r. along g r (along f ms (f m x))) (reverse-cons m ms)
      ∙ along-append g (reverse ms) (m ∷ []) (along f ms (f m x))
      ∙ ap (g m) (along-reverse ms (f m x))
      ∙ undo m x

-- ===== src/Middleware/Hex/Tests.antt =====
-- The theorems about the hex middleware at concrete bytes, over a codec of ASCII.
use unikvs.Prelude.{arith, ℕ, ◌≡◌, refl, some, List, [], ◌∷◌, flatten}
use mathlib.Core.Option
use unikvs.Prelude.Maybe.{◌>>=◌}
use unikvs.Middleware.Hex.{
  Utf8, IsUtf8, encode, decode, encode_stream, decode_stream, nibble, hex_to_bytes, decode_from,
  decode_chunk, flush, enqueue, but_last, last_only,
}
use unikvs.Middleware.Hex.Codec.{decode-encode}
use unikvs.Middleware.Hex.Chunks.{decode_stream-eq-decode, encode_stream-eq-encode}

-- UTF-8 on ASCII: a unit is a byte.
abbrev ascii : Utf8
ascii = record {
  State = Unit {0};
  encode = λ t. t;
  decode = λ b. some b;
  start = tt;
  feed = λ s b. some (b, s);
  finish = λ s. some [];
}

ascii-IsUtf8 : IsUtf8 ascii
ascii-IsUtf8 = record {
  encode_ascii = λ t h. refl;
  decode_ascii = λ b h. refl;
  feed_ascii = λ b h. refl;
  finish_start = refl;
}

abbrev bytes : List ℕ
bytes = 0 ∷ 171 ∷ 255 ∷ []

decode-encode_example : (encode ascii bytes >>= decode ascii) ≡ some bytes
decode-encode_example =
    decode-encode ascii ascii-IsUtf8 bytes (omega arith, (omega arith, (omega arith, tt)))

-- "a", "bF" and "f": the second chunk ends inside a byte.
abbrev cut : List (List ℕ)
cut = (97 ∷ []) ∷ (98 ∷ 70 ∷ []) ∷ (102 ∷ []) ∷ []

cut_stream : decode_stream ascii cut ≡ some ((171 ∷ []) ∷ (255 ∷ []) ∷ [])
unfolding decode_stream decode_from decode_chunk flush enqueue but_last last_only hex_to_bytes
    nibble
cut_stream = refl

decode_stream-eq-decode_example :
    Option.map flatten (decode_stream ascii cut) ≡ decode ascii (flatten cut)
decode_stream-eq-decode_example =
    decode_stream-eq-decode ascii ascii-IsUtf8 cut
      ((omega arith, tt), ((omega arith, (omega arith, tt)), ((omega arith, tt), tt)))

encode_stream-eq-encode_example :
    Option.map flatten (encode_stream ascii ((0 ∷ 171 ∷ []) ∷ [] ∷ (255 ∷ []) ∷ []))
    ≡ encode ascii (0 ∷ 171 ∷ 255 ∷ [])
encode_stream-eq-encode_example =
    encode_stream-eq-encode ascii ascii-IsUtf8 ((0 ∷ 171 ∷ []) ∷ [] ∷ (255 ∷ []) ∷ [])
      ((omega arith, (omega arith, tt)), (tt, ((omega arith, tt), tt)))

-- ===== src/Middleware/Hex/Chunks.antt =====
-- A stream is encoded and decoded as its joined chunks are, wherever they are cut.
use unikvs.Prelude.{
  ℕ, suc, ◌/◌, ◌%◌, ◌<◌, ◌≤◌, false, Option, none, some, List, [], ◌∷◌, ◌++◌, length, All,
  All-append, ◌≡◌, refl, sym, ap, ◌∙◌, arith, flatten, append_assoc, append-nil, flatten-append,
  nat_beq,
}
use mathlib.Core.Option
use unikvs.Prelude.Maybe.{◌>>=◌}
use unikvs.Middleware.Hex.{
  Utf8, IsAscii, IsUtf8, hex_to_bytes, decode, enqueue, decode_chunk, flush, decode_from,
  decode_stream, encode, encode_chunk, encode_stream, digit,
}
use unikvs.Middleware.Hex.Codec.{IsBytes, hex_text, encode-eq}
use unikvs.Middleware.Hex.Carry.{
  decode_text, decode_text-append, enqueue-flatten, whole_of, carry_of, carry_lem,
}

module _ (u : Utf8) (laws : IsUtf8 u) where
  flush_lem :
      (carry : List ℕ)
      → length carry ≤ 1
      → Option.map flatten (flush u u.start carry) ≡ decode_text carry
  unfolding flush hex_to_bytes
  flush_lem [] h = rw (laws.finish_start, flush) refl
  flush_lem (x ∷ []) h = rw (laws.finish_start, flush) refl
  flush_lem (x ∷ y ∷ t) h = absurd (omega arith)

  joined :
      (o : Option (List (List ℕ))) (r : Option (List (List ℕ)))
      → Option.map flatten (do here ← o; later ← r; some (here ++ later))
        ≡ (do x ← Option.map flatten o; y ← Option.map flatten r; some (x ++ y))
  joined none r = refl
  joined (some x) none = refl
  joined (some x) (some y) = ap some (flatten-append x y)

  decode_chunk_lem :
      (carry c : List ℕ)
      → IsAscii c
      → decode_chunk u u.start carry c
        ≡ (do here ← enqueue (whole_of (carry ++ c)); some (here, u.start, carry_of (carry ++ c)))
  unfolding decode_chunk
  decode_chunk_lem carry c h = rw (laws.feed_ascii c h, decode_chunk) refl

  chunk_first :
      (o r : Option (List (List ℕ))) (k : List ℕ) (d : u.State → List ℕ → Option (List (List ℕ)))
      → d u.start k ≡ r
      → Option.map flatten (do
        x ← (do here ← o; let y : List (List ℕ) × u.State × List ℕ = (here, u.start, k); some y)
        later ← d x.1 x.2
        some (x.0 ++ later))
        ≡ (do x ← Option.map flatten o; y ← Option.map flatten r; some (x ++ y))
  chunk_first none r k d h = refl
  chunk_first (some x) r k d h =
      ap (λ q. Option.map flatten (do later ← q; some (x ++ later))) h ∙ joined (some x) r

  decode_from_lem :
      (chunks : List (List ℕ)) (carry : List ℕ)
      → length carry ≤ 1
      → All IsAscii chunks
      → Option.map flatten (decode_from u u.start carry chunks)
        ≡ decode_text (carry ++ flatten chunks)
  unfolding decode_from
  decode_from_lem [] carry h a = flush_lem carry h ∙ ap decode_text (sym (append-nil carry))
  decode_from_lem (c ∷ chunks) carry h a =
      let t = carry ++ c in
      let (split, even, short) = carry_lem t in
      let rest = carry_of t ++ flatten chunks in
      ap
        (λ q.
          Option.map flatten (do x ← q; later ← decode_from u x.1 x.2 chunks; some (x.0 ++ later)))
        (decode_chunk_lem carry c a.0)
      ∙ chunk_first (enqueue (whole_of t)) (decode_from u u.start (carry_of t) chunks) (carry_of t)
          (λ s k. decode_from u s k chunks) refl
      ∙ ap
          (λ q. do
            x ← q
            y ← Option.map flatten (decode_from u u.start (carry_of t) chunks)
            some (x ++ y))
          (enqueue-flatten (whole_of t))
      ∙ ap (λ q. do x ← hex_to_bytes (whole_of t); y ← q; some (x ++ y))
          (decode_from_lem chunks (carry_of t) short a.1)
      ∙ sym (decode_text-append (whole_of t) rest even)
      ∙ ap decode_text (
          sym (append_assoc (whole_of t) (carry_of t) (flatten chunks))
          ∙ ap (λ q. q ++ flatten chunks) split
          ∙ append_assoc carry c (flatten chunks))

  flatten-IsAscii : (chunks : List (List ℕ)) → All IsAscii chunks → IsAscii (flatten chunks)
  flatten-IsAscii [] h = tt
  flatten-IsAscii (c ∷ chunks) h =
      All-append (λ b. b < 128) c (flatten chunks) h.0 (flatten-IsAscii chunks h.1)

  -- With a codec that leaves ASCII as it is, a stream of ASCII bytes is decoded as the joined bytes
  -- are, wherever they are cut into chunks: the enqueued chunks join to the same bytes, and where the
  -- joined text is refused, so is the stream.
  pub decode_stream-eq-decode :
      (chunks : List (List ℕ))
      → All IsAscii chunks
      → Option.map flatten (decode_stream u chunks) ≡ decode u (flatten chunks)
  unfolding decode_stream decode
  decode_stream-eq-decode chunks h =
      rw (laws.decode_ascii (flatten chunks) (flatten-IsAscii chunks h), decode)
        (decode_from_lem chunks [] (omega arith) h)

  hex_text-append : (a b : List ℕ) → hex_text (a ++ b) ≡ hex_text a ++ hex_text b
  hex_text-append [] b = refl
  hex_text-append (x ∷ a) b = ap (λ r. digit (x / 16) ∷ digit (x % 16) ∷ r) (hex_text-append a b)

  encode_chunk_lem :
      (c : List ℕ) → IsBytes c → Option.map flatten (encode_chunk u c) ≡ some (hex_text c)
  unfolding encode_chunk
  encode_chunk_lem [] h = refl
  encode_chunk_lem (x ∷ c) h =
      let full : nat_beq (suc (length c)) 0 ≡ false = ground arith in
      rw (full, encode_chunk, encode-eq u laws (x ∷ c) h) (ap some (append-nil (hex_text (x ∷ c))))

  encode_stream_lem :
      (chunks : List (List ℕ))
      → All IsBytes chunks
      → Option.map flatten (encode_stream u chunks) ≡ some (hex_text (flatten chunks))
  unfolding encode_stream
  encode_stream_lem [] h = refl
  encode_stream_lem (c ∷ chunks) h =
      joined (encode_chunk u c) (encode_stream u chunks)
      ∙ ap (λ q. do x ← q; y ← Option.map flatten (encode_stream u chunks); some (x ++ y))
          (encode_chunk_lem c h.0)
      ∙ ap (λ q. do x ← some (hex_text c); y ← q; some (x ++ y)) (encode_stream_lem chunks h.1)
      ∙ ap some (sym (hex_text-append c (flatten chunks)))

  flatten-IsBytes : (chunks : List (List ℕ)) → All IsBytes chunks → IsBytes (flatten chunks)
  flatten-IsBytes [] h = tt
  flatten-IsBytes (c ∷ chunks) h =
      All-append (λ b. b < 256) c (flatten chunks) h.0 (flatten-IsBytes chunks h.1)

  -- With a codec that leaves ASCII as it is, a stream of bytes is encoded as the joined bytes are.
  pub encode_stream-eq-encode :
      (chunks : List (List ℕ))
      → All IsBytes chunks
      → Option.map flatten (encode_stream u chunks) ≡ encode u (flatten chunks)
  encode_stream-eq-encode chunks h =
      encode_stream_lem chunks h
      ∙ sym (encode-eq u laws (flatten chunks) (flatten-IsBytes chunks h))

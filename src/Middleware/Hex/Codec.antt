-- ===== src/Middleware/Hex/Codec.antt =====
-- Encoding and decoding of whole texts.
use unikvs.Prelude.{ℕ, ◌/◌, ◌%◌, ◌<◌, false, some, List, [], ◌∷◌, All, ◌≡◌, refl, ap, arith}
use unikvs.Prelude.Maybe.{◌>>=◌}
use unikvs.Middleware.Hex.{
  Utf8, IsAscii, IsUtf8, digit, byte_to_hex, bytes_to_hex, nibble, hex_to_bytes, encode, decode,
  is_odd,
}

-- What a `Uint8Array` holds.
abbrev pub IsBytes : List ℕ → Type 0
IsBytes = All (λ b. b < 256)

nibble-digit : (n : ℕ) → n < 16 → nibble (digit n) ≡ some n
unfolding nibble digit
nibble-digit n h = ground arith

digit-IsAscii : (n : ℕ) → n < 16 → digit n < 128
unfolding digit
digit-IsAscii n h = ground arith

-- The text of some bytes: two digits for each.
abbrev pub hex_text : List ℕ → List ℕ
hex_text [] = []
hex_text (b ∷ bytes) = digit (b / 16) ∷ digit (b % 16) ∷ hex_text bytes

pub bytes_to_hex-eq : (bytes : List ℕ) → IsBytes bytes → bytes_to_hex bytes ≡ some (hex_text bytes)
unfolding bytes_to_hex byte_to_hex
bytes_to_hex-eq [] h = refl
bytes_to_hex-eq (b ∷ bytes) h = ground (arith, bytes_to_hex-eq bytes h.1)

pub hex_text-IsAscii : (bytes : List ℕ) → IsBytes bytes → IsAscii (hex_text bytes)
hex_text-IsAscii [] h = tt
hex_text-IsAscii (b ∷ bytes) h = (
  digit-IsAscii (b / 16) (omega arith),
  (digit-IsAscii (b % 16) (omega arith), hex_text-IsAscii bytes h.1),
)

pub hex_text-even : (bytes : List ℕ) → is_odd (hex_text bytes) ≡ false
hex_text-even [] = refl
hex_text-even (b ∷ bytes) = ground (arith, hex_text-even bytes)

pub hex_to_bytes-hex_text :
    (bytes : List ℕ) → IsBytes bytes → hex_to_bytes (hex_text bytes) ≡ some bytes
unfolding hex_to_bytes
hex_to_bytes-hex_text [] h = refl
hex_to_bytes-hex_text (b ∷ bytes) h =
    rw
      (
        nibble-digit (b / 16) (omega arith),
        nibble-digit (b % 16) (omega arith),
        hex_to_bytes-hex_text bytes h.1,
      )
      (ap (λ (x : ℕ). some (x ∷ bytes)) (omega arith))

module _ (u : Utf8) (laws : IsUtf8 u) where
  pub encode-eq : (bytes : List ℕ) → IsBytes bytes → encode u bytes ≡ some (hex_text bytes)
  unfolding encode
  encode-eq bytes h =
      rw (bytes_to_hex-eq bytes h, laws.encode_ascii (hex_text bytes) (hex_text-IsAscii bytes h))
        refl

  -- With a codec that leaves ASCII as it is, encoding any bytes succeeds, and decoding what it gives
  -- yields the bytes again.
  pub decode-encode : (bytes : List ℕ) → IsBytes bytes → (encode u bytes >>= decode u) ≡ some bytes
  unfolding decode
  decode-encode bytes h =
      rw
        (
          encode-eq bytes h,
          laws.decode_ascii (hex_text bytes) (hex_text-IsAscii bytes h),
          hex_text-even bytes,
        )
        (hex_to_bytes-hex_text bytes h)

-- ===== src/Middleware/Hex.antt =====
-- packages/hex/src/hex.ts, with packages/utils/src/bytes-to-hex.ts (the table, which is what the
-- platform's own `toHex` gives): bytes as hexadecimal text. A text is the list of its code units,
-- `none` is a throw.
--
-- The UTF-8 codec is a library's, and so a parameter: `encode` and `decode` of a whole text, and a
-- decoder that is fed chunk by chunk.
pub mod Codec
pub mod Carry
pub mod Chunks
mod Tests
use unikvs.Prelude.{
  ℕ, ◌+◌, ◌-◌, ◌*◌, ◌/◌, ◌%◌, ◌<◌, Bool, ◌&&◌, Option, none, some, List, [], ◌∷◌, ◌++◌, ltb, leb,
  nat_beq, if◌then◌else◌, length, All, ◌≡◌,
}
use unikvs.Prelude.Maybe.{◌>>=◌}

pub record Utf8 : Type 1 where
  pub State : Type 0
  pub encode : List ℕ → List ℕ
  pub decode : List ℕ → Option (List ℕ)
  pub start : State
  pub feed : State → List ℕ → Option (List ℕ × State)
  pub finish : State → Option (List ℕ)

abbrev pub IsAscii : List ℕ → Type 0
IsAscii = All (λ b. b < 128)

-- What UTF-8 does to ASCII: each code unit is the byte of the same value, and no byte waits for more.
pub record IsUtf8 (u : Utf8) : Type 0 where
  pub encode_ascii : (t : List ℕ) → IsAscii t → u.encode t ≡ t
  pub decode_ascii : (b : List ℕ) → IsAscii b → u.decode b ≡ some b
  pub feed_ascii : (b : List ℕ) → IsAscii b → u.feed u.start b ≡ some (b, u.start)
  pub finish_start : u.finish u.start ≡ some []

-- `i.toString(16)` of a value below 16.
unfoldable pub digit : ℕ → ℕ
digit n = if ltb n 10 then b'0' + n else b'a' + (n - 10)

-- `byte2hex[byte]`
unfoldable pub byte_to_hex : ℕ → Option (List ℕ)
unfolding digit
byte_to_hex b = if ltb b 256 then some (digit (b / 16) ∷ digit (b % 16) ∷ []) else none

unfoldable pub bytes_to_hex : List ℕ → Option (List ℕ)
bytes_to_hex [] = some []
bytes_to_hex (b ∷ bytes) = do cached ← byte_to_hex b; hex ← bytes_to_hex bytes; some (cached ++ hex)

-- `nibbleOrThrow`
unfoldable pub nibble : ℕ → Option ℕ
nibble code =
    if leb 0x30 code && leb code 0x39
    then some (code - 0x30)
    else if leb 0x41 code && leb code 0x46
    then some (code - 0x41 + 10)
    else if leb 0x61 code && leb code 0x66
    then some (code - 0x61 + 10)
    else none

-- `hexToBytesStrict`; past the end `charCodeAt` is `NaN`, which no range holds.
unfoldable pub hex_to_bytes : List ℕ → Option (List ℕ)
hex_to_bytes [] = some []
hex_to_bytes (x ∷ []) = do high ← nibble x; none
hex_to_bytes (x ∷ y ∷ text) = do
  high ← nibble x
  low ← nibble y
  output ← hex_to_bytes text
  some ((high * 16 + low) ∷ output)

abbrev pub is_odd : List ℕ → Bool
is_odd text = nat_beq (length text % 2) 1

-- `slice(0, -1)` and `slice(-1)`
unfoldable pub but_last : List ℕ → List ℕ
but_last [] = []
but_last (x ∷ []) = []
but_last (x ∷ y ∷ text) = x ∷ but_last (y ∷ text)

unfoldable pub last_only : List ℕ → List ℕ
last_only [] = []
last_only (x ∷ []) = x ∷ []
last_only (x ∷ y ∷ text) = last_only (y ∷ text)

-- The chunks that are enqueued for a text of even length, none for the empty one.
unfoldable pub enqueue : List ℕ → Option (List (List ℕ))
enqueue whole =
    if nat_beq (length whole) 0 then some [] else (do bytes ← hex_to_bytes whole; some (bytes ∷ []))

module _ (u : Utf8) where
  -- What `encode` sets as its destination.
  unfoldable pub encode : List ℕ → Option (List ℕ)
  unfolding bytes_to_hex
  encode source = do text ← bytes_to_hex source; some (u.encode text)

  -- What `decode` sets as its destination.
  unfoldable pub decode : List ℕ → Option (List ℕ)
  decode source = do text ← u.decode source; if is_odd text then none else hex_to_bytes text

  -- `transform` of `encodeStream`: the chunks that it enqueues.
  unfoldable pub encode_chunk : List ℕ → Option (List (List ℕ))
  encode_chunk chunk =
      if nat_beq (length chunk) 0 then some [] else (do encoded ← encode chunk; some (encoded ∷ []))

  unfoldable pub encode_stream : List (List ℕ) → Option (List (List ℕ))
  encode_stream [] = some []
  encode_stream (chunk ∷ chunks) = do
    here ← encode_chunk chunk
    later ← encode_stream chunks
    some (here ++ later)

  -- `transform` of `decodeStream`: the decoder's state and the carry go from chunk to chunk.
  unfoldable pub decode_chunk :
      u.State → List ℕ → List ℕ → Option (List (List ℕ) × u.State × List ℕ)
  decode_chunk state carry chunk = do
    (text, state') ← u.feed state chunk
    let combined = carry ++ text
    let whole = if is_odd combined then but_last combined else combined
    let carry' = if is_odd combined then last_only combined else []
    here ← enqueue whole
    some (here, state', carry')

  -- `flush`
  unfoldable pub flush : u.State → List ℕ → Option (List (List ℕ))
  flush state carry = do
    rest ← u.finish state
    if nat_beq (length (carry ++ rest)) 0 then some [] else none

  unfoldable pub decode_from : u.State → List ℕ → List (List ℕ) → Option (List (List ℕ))
  decode_from state carry [] = flush state carry
  decode_from state carry (chunk ∷ chunks) = do
    (here, state', carry') ← decode_chunk state carry chunk
    later ← decode_from state' carry' chunks
    some (here ++ later)

  unfoldable pub decode_stream : List (List ℕ) → Option (List (List ℕ))
  decode_stream chunks = decode_from u.start [] chunks

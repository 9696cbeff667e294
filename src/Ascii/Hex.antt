-- ===== src/Ascii/Hex.antt =====
-- melsec_mc_net/melsec_mc_ascii.c: bytes and words as hexadecimal characters.
pub mod RoundTrip
use melsec_mc_net.Prelude.{
  ℕ, ◌+◌, ◌-◌, ◌*◌, ◌/◌, ◌^◌, ltb, leb, ◌&&◌, bit_and, bit_or, if◌then◌else◌, Option, none, some,
  List, [], ◌∷◌, ◌++◌, drop,
}
use melsec_mc_net.Words.{u8, u16}
use melsec_mc_net.Machine.{M, ◌>>=◌, pure, undefined}

unfoldable pub mc_ascii_to_hex_char : ℕ → ℕ
mc_ascii_to_hex_char nibble =
    let n = bit_and nibble 0x0f in if ltb n 10 then b'0' + n else b'A' + (n - 10)

unfoldable pub mc_ascii_write_hex_byte : ℕ → List ℕ
mc_ascii_write_hex_byte value =
    mc_ascii_to_hex_char (u8 (value / 2 ^ 4)) ∷ mc_ascii_to_hex_char (u8 (bit_and value 0x0f)) ∷ []

unfoldable pub mc_ascii_write_hex_u16_be : ℕ → List ℕ
mc_ascii_write_hex_u16_be value =
    mc_ascii_write_hex_byte (u8 (bit_and (value / 2 ^ 8) 0xff))
    ++ mc_ascii_write_hex_byte (u8 (bit_and value 0xff))

-- `none` is the result -1.
unfoldable pub mc_ascii_hex_to_nibble : ℕ → Option ℕ
mc_ascii_hex_to_nibble c =
    if leb b'0' c && leb c b'9'
    then some (c - b'0')
    else if leb b'A' c && leb c b'F'
    then some (10 + (c - b'A'))
    else if leb b'a' c && leb c b'f'
    then some (10 + (c - b'a'))
    else none

-- The byte of two characters; `none` is the result false.
unfoldable pub pair_value : ℕ → ℕ → Option ℕ
pair_value c0 c1 = elim (mc_ascii_hex_to_nibble c0) [
  | none ↦ none
  | some hi ↦ elim (mc_ascii_hex_to_nibble c1) [
    | none ↦ none
    | some lo ↦ some (u8 (bit_or (hi * 2 ^ 4) lo))
  ]
]

-- The characters from a pointer on; fewer than two are a read out of bounds.
unfoldable pub mc_ascii_hex_pair_to_byte : List ℕ → M (Option ℕ)
mc_ascii_hex_pair_to_byte (c0 ∷ c1 ∷ rest) = pure (pair_value c0 c1)
mc_ascii_hex_pair_to_byte _ = undefined

unfoldable pub mc_ascii_parse_u16_be : List ℕ → M (Option ℕ)
mc_ascii_parse_u16_be ascii4 = do
  b0 ← mc_ascii_hex_pair_to_byte ascii4
  elim b0 [
    | none ↦ pure none
    | some hi ↦ (do
      b1 ← mc_ascii_hex_pair_to_byte (drop 2 ascii4)
      elim b1 [ none ↦ pure none | some lo ↦ pure (some (u16 (bit_or (hi * 2 ^ 8) lo))) ])
  ]

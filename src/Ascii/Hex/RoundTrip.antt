-- ===== src/Ascii/Hex/RoundTrip.antt =====
-- What is written as hexadecimal characters is read back.
use mathlib.Core.Path.{ap₂}
use melsec_mc_net.Prelude.{
  ℕ, ◌+◌, ◌*◌, ◌/◌, ◌%◌, ◌^◌, ◌<◌, ◌≡◌, refl, ap, ◌∙◌, some, List, [], ◌∷◌, ◌++◌, arith, drop,
  bit_and, Option, append_assoc,
}
use melsec_mc_net.Prelude.Bits.{low_mask, fields_or, bit_and_comm}
use melsec_mc_net.Words.{u8}
use melsec_mc_net.Ascii.Digits.{hex_digit, numeral}
use melsec_mc_net.Machine.{World, >>=-eq_some}
use melsec_mc_net.Ascii.Hex.{
  mc_ascii_to_hex_char, mc_ascii_write_hex_byte, mc_ascii_write_hex_u16_be, mc_ascii_hex_to_nibble,
  pair_value, mc_ascii_hex_pair_to_byte, mc_ascii_parse_u16_be,
}

nibble-hex_digit : (n : ℕ) → n < 16 → mc_ascii_hex_to_nibble (hex_digit n) ≡ some n
unfolding mc_ascii_hex_to_nibble
nibble-hex_digit n h = ground arith

to_hex_char-eq : (n : ℕ) → mc_ascii_to_hex_char n ≡ hex_digit (n % 16)
unfolding mc_ascii_to_hex_char
to_hex_char-eq n = ground (arith, bit_and_comm n 15, low_mask 4 n)

pub pair_of_digits :
    (hi lo : ℕ) → hi < 16 → lo < 16 → pair_value (hex_digit hi) (hex_digit lo) ≡ some (hi * 16 + lo)
unfolding pair_value
pair_of_digits hi lo h l =
    rw (pair_value, nibble-hex_digit hi h)
      (rw (nibble-hex_digit lo l) (ap some (ground (arith, fields_or 4 hi lo l))))

write_hex_byte-eq :
    (v : ℕ) → v < 256 → mc_ascii_write_hex_byte v ≡ hex_digit (v / 16) ∷ hex_digit (v % 16) ∷ []
unfolding mc_ascii_write_hex_byte
write_hex_byte-eq v h =
    rw (to_hex_char-eq (u8 (v / 2 ^ 4)), to_hex_char-eq (u8 (bit_and v 0x0f)))
      (ap₂ (λ (a b : ℕ). hex_digit a ∷ hex_digit b ∷ []) (omega arith)
        (ground (arith, bit_and_comm v 15, low_mask 4 v)))

-- The two characters of a byte are read as that byte, whatever follows.
pub pair-write_hex_byte :
    (v : ℕ) (rest : List ℕ) (w : World)
    → v < 256
    → mc_ascii_hex_pair_to_byte (mc_ascii_write_hex_byte v ++ rest) w ≡ some (some v, w)
unfolding mc_ascii_hex_pair_to_byte
pair-write_hex_byte v rest w h =
    rw (write_hex_byte-eq v h, mc_ascii_hex_pair_to_byte)
      (ap (λ (o : Option ℕ). some (o, w))
        (pair_of_digits (v / 16) (v % 16) (omega arith) (omega arith) ∙ ap some (omega arith)))

write_hex_u16_be-eq :
    (v : ℕ)
    → v < 2 ^ 16
    → mc_ascii_write_hex_u16_be v
      ≡ mc_ascii_write_hex_byte (v / 256) ++ mc_ascii_write_hex_byte (v % 256)
unfolding mc_ascii_write_hex_u16_be
write_hex_u16_be-eq v h =
    ap₂ (λ (a b : ℕ). mc_ascii_write_hex_byte a ++ mc_ascii_write_hex_byte b)
      (ground (arith, bit_and_comm (v / 256) 255, low_mask 8 (v / 256)))
      (ground (arith, bit_and_comm v 255, low_mask 8 v))

-- The two characters of a byte, and what is behind them.
drop-write_hex_byte :
    (v : ℕ) (rest : List ℕ) → v < 256 → drop 2 (mc_ascii_write_hex_byte v ++ rest) ≡ rest
drop-write_hex_byte v rest h = rw (write_hex_byte-eq v h) refl

parse_u16_be-pairs :
    (text : List ℕ) (hi lo : ℕ) (w : World)
    → mc_ascii_hex_pair_to_byte text w ≡ some (some hi, w)
    → mc_ascii_hex_pair_to_byte (drop 2 text) w ≡ some (some lo, w)
    → lo < 256
    → hi < 256
    → mc_ascii_parse_u16_be text w ≡ some (some (hi * 256 + lo), w)
unfolding mc_ascii_parse_u16_be
parse_u16_be-pairs text hi lo w first second l h =
    >>=-eq_some (mc_ascii_hex_pair_to_byte text) _ first
    ∙ >>=-eq_some (mc_ascii_hex_pair_to_byte (drop 2 text)) _ second
    ∙ ap (λ (n : ℕ). some (some n, w)) (ground (arith, fields_or 8 hi lo l))

-- A byte is written as two digits, and a 16-bit number as four.
pub write_hex_byte-numeral : (v : ℕ) → v < 256 → mc_ascii_write_hex_byte v ≡ numeral 2 16 v
unfolding numeral
write_hex_byte-numeral v h =
    write_hex_byte-eq v h ∙ ap (λ (n : ℕ). hex_digit n ∷ hex_digit (v % 16) ∷ []) (omega arith)

pub write_hex_u16_be-numeral : (v : ℕ) → v < 2 ^ 16 → mc_ascii_write_hex_u16_be v ≡ numeral 4 16 v
unfolding numeral
write_hex_u16_be-numeral v h =
    write_hex_u16_be-eq v h
    ∙ ap₂ (λ (a b : List ℕ). a ++ b) (write_hex_byte-eq (v / 256) (omega arith))
        (write_hex_byte-eq (v % 256) (omega arith))
    ∙ ap₂ (λ (a b : List ℕ). a ++ b)
        (ap₂ (λ (a b : ℕ). hex_digit a ∷ hex_digit b ∷ []) (omega arith) (omega arith))
        (ap₂ (λ (a b : ℕ). hex_digit a ∷ hex_digit b ∷ []) (omega arith) (omega arith))

-- A 16-bit number that `mc_ascii_write_hex_u16_be` has written is read back by `mc_ascii_parse_u16_be`,
-- whatever follows it.
pub parse_u16_be-write_hex :
    (v : ℕ) (rest : List ℕ) (w : World)
    → v < 2 ^ 16
    → mc_ascii_parse_u16_be (mc_ascii_write_hex_u16_be v ++ rest) w ≡ some (some v, w)
parse_u16_be-write_hex v rest w h =
    let high = mc_ascii_write_hex_byte (v / 256) in
    let low = mc_ascii_write_hex_byte (v % 256) in
    let text : mc_ascii_write_hex_u16_be v ++ rest ≡ high ++ (low ++ rest) =
      ap (λ (t : List ℕ). t ++ rest) (write_hex_u16_be-eq v h) ∙ append_assoc high low rest in
    ap (λ (t : List ℕ). mc_ascii_parse_u16_be t w) text
    ∙ parse_u16_be-pairs (high ++ (low ++ rest)) (v / 256) (v % 256) w
        (pair-write_hex_byte (v / 256) (low ++ rest) w (omega arith))
        (ap (λ (t : List ℕ). mc_ascii_hex_pair_to_byte t w)
            (drop-write_hex_byte (v / 256) (low ++ rest) (omega arith))
          ∙ pair-write_hex_byte (v % 256) rest w (omega arith))
        (omega arith) (omega arith)
    ∙ ap (λ (n : ℕ). some (some n, w)) (omega arith)

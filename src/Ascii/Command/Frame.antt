-- ===== src/Ascii/Command/Frame.antt =====
-- The ASCII frames that are sent, against what a PLC reads in them.
use melsec_mc_net.Prelude.{ℕ, ◌+◌, ◌^◌, ◌<◌, ◌≡◌, refl, ap, ◌∙◌, some, List, [], ◌∷◌, arith, length}
use melsec_mc_net.Words.{u16}
use melsec_mc_net.Ascii.Digits.{numeral, number_of, number_of-numeral_alone}
use melsec_mc_net.Ascii.Hex.{mc_ascii_write_hex_u16_be}
use melsec_mc_net.Ascii.Hex.RoundTrip.{write_hex_byte-numeral, write_hex_u16_be-numeral}
use melsec_mc_net.Ascii.Request.{decode_ascii_frame}
use melsec_mc_net.Ascii.Command.{ascii_frame_text}

-- The fields that are the same in every frame, and the timer.
fixed_fields :
    number_of 16 0 (53 ∷ 48 ∷ 48 ∷ 48 ∷ 70 ∷ 70 ∷ 48 ∷ 51 ∷ 70 ∷ 70 ∷ []) ≡ some 0x5000ff03ff
unfolding number_of
fixed_fields = refl

timer_field : number_of 16 0 (48 ∷ 48 ∷ 49 ∷ 48 ∷ []) ≡ some 16
unfolding number_of
timer_field = refl

byte_field : (v : ℕ) → v < 256 → number_of 16 0 (numeral 2 16 v) ≡ some v
byte_field v h = number_of-numeral_alone 2 16 v (omega arith) (omega arith) h

pub word_field : (v : ℕ) → v < 2 ^ 16 → number_of 16 0 (numeral 4 16 v) ≡ some v
word_field v h = number_of-numeral_alone 4 16 v (omega arith) (omega arith) h

-- A frame of at most 65531 characters of core command is read back: the network and station number,
-- a timer of 16 and the core command itself.
pub decode_ascii_frame-text :
    (core : List ℕ) (net station : ℕ)
    → length core < 65532
    → net < 256
    → station < 256
    → decode_ascii_frame (ascii_frame_text core net station)
      ≡ some (record { network = net; station = station; timer = 16; core = core })
unfolding decode_ascii_frame ascii_frame_text numeral
decode_ascii_frame-text core net station c n s =
    let few : u16 (length core + 4) ≡ length core + 4 = omega arith in
    let count : mc_ascii_write_hex_u16_be (u16 (length core + 4)) ≡ numeral 4 16 (length core + 4) =
      ap mc_ascii_write_hex_u16_be few ∙ write_hex_u16_be-numeral (length core + 4) (omega arith) in
    rw (write_hex_byte-numeral net n) (
      rw (write_hex_byte-numeral station s) (
        rw count (
          rw (fixed_fields, decode_ascii_frame)
            (rw
              (
                byte_field net n,
                byte_field station s,
                word_field (length core + 4) (omega arith),
                timer_field,
              )
              (ground arith)))))

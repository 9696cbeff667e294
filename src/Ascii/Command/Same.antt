-- ===== src/Ascii/Command/Same.antt =====
-- The core commands of the two protocols ask the same.
use native.Mathlib.Nat.{pow-zero, div-one}
use melsec_mc_net.Prelude.{
  ℕ, ◌/◌, ◌%◌, ◌^◌, ◌<◌, ◌≡◌, refl, ap, ◌∙◌, Bool, some, List, [], arith, length, All,
}
use melsec_mc_net.Address.{AddressData}
use melsec_mc_net.Machine.{World}
use melsec_mc_net.Command.{read_core_bytes, write_word_core_bytes}
use melsec_mc_net.Command.Request.{Request, decode_core}
use melsec_mc_net.Command.Frame.{request, unit_of, decode_core-read, decode_core-write_word}
use melsec_mc_net.Ascii.Request.{AsciiRequest, decode_ascii_core}
use melsec_mc_net.Ascii.Command.{
  mc_ascii_build_read_core_command, mc_ascii_build_write_word_core_command,
}
use melsec_mc_net.Ascii.Command.Number.{printed_base}
use melsec_mc_net.Ascii.Command.Words.{words_text, IsByte, IsEven}
use melsec_mc_net.Ascii.Command.Core.{
  HasDigits, ascii_request, build_read-Asks, build_write_word-Asks,
}

-- What a PLC reads in the two commands is the same, but that the device stands in a code in the one
-- and in letters in the other, and the words in bytes in the one and in digits in the other.
pub record Same (binary : Request) (ascii : AsciiRequest) : Type 0 where
  pub command : ascii.command ≡ binary.command
  pub subcommand : ascii.subcommand ≡ binary.subcommand
  pub device_number : ascii.device_number ≡ binary.device_number
  pub points : ascii.points ≡ binary.points
  pub values : ascii.text ≡ words_text binary.values

-- Two core commands in which a PLC reads the same.
pub record SameCommand (a : AddressData) (bytes text : List ℕ) : Type 0 where
  pub binary : Request
  pub ascii : AsciiRequest
  pub binary_read : decode_core bytes ≡ some binary
  pub ascii_read : decode_ascii_core (printed_base a) text ≡ some ascii
  pub same : Same binary ascii

module _ (a : AddressData) (digits : HasDigits a 0) (number : a.address_start < 2 ^ 24) (w : World)
    (m : w.mallocs ≡ []) where
  all_digits : a.address_start / printed_base a ^ 0 ≡ a.address_start % 2 ^ 24
  all_digits =
      ap (λ (n : ℕ). a.address_start / n) (pow-zero (printed_base a))
      ∙ div-one a.address_start
      ∙ omega (arith, number)

  -- The core commands of a read, of words or of bits, at a device number below 2 ^ 24 with at most six
  -- digits, where memory is to be had: in that of the ASCII protocol a PLC reads the same as in that
  -- of the binary one.
  pub build_read-SameCommand :
      (is_bit : Bool)
      → (core : List ℕ) × (mc_ascii_build_read_core_command a is_bit w ≡ some (some core, w))
        × SameCommand a (read_core_bytes a is_bit) core
  unfolding words_text
  build_read-SameCommand is_bit =
      let (core, built, (asks, count)) = build_read-Asks a 0 digits w m is_bit in
      (
        core,
        built,
        record {
          binary = request a 0x0401 (unit_of is_bit) a.length [];
          ascii = ascii_request a 0 0x0401 (unit_of is_bit) [];
          binary_read = decode_core-read a is_bit;
          ascii_read = asks;
          same = record {
            command = refl;
            subcommand = refl;
            device_number = all_digits;
            points = refl;
            values = refl;
          };
        },
      )

  -- The core commands of a write of at least one word, at a device number below 2 ^ 24 with at most
  -- six digits, of as many words as the address has points, where memory is to be had: in that of the
  -- ASCII protocol a PLC reads the same as in that of the binary one, with the same words, whose bytes
  -- stand low byte first in the binary command and high byte first, as digits, in that of the ASCII
  -- protocol.
  pub build_write_word-SameCommand :
      (bytes : List ℕ)
      → 0 < length bytes
      → IsEven bytes
      → All IsByte bytes
      → a.length ≡ length bytes / 2
      → (core : List ℕ) × (mc_ascii_build_write_word_core_command a (some bytes) w
          ≡ some (some core, w))
        × SameCommand a (write_word_core_bytes a bytes) core
  build_write_word-SameCommand bytes pos even small counted =
      let (core, built, (asks, count)) =
        build_write_word-Asks a 0 digits w m bytes pos even small in
      (
        core,
        built,
        record {
          binary = request a 0x1401 0 (length bytes / 2) bytes;
          ascii = ascii_request a 0 0x1401 0 (words_text bytes);
          binary_read = decode_core-write_word a bytes;
          ascii_read = asks;
          same = record {
            command = refl;
            subcommand = refl;
            device_number = all_digits;
            points = ap (λ (n : ℕ). n % 2 ^ 16) counted;
            values = refl;
          };
        },
      )

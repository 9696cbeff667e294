-- ===== src/Plc/Ascii.antt =====
-- The same PLC over the ASCII protocol: it reads the words of a request, serves it, and answers with
-- the words as characters.
pub mod Served
pub mod Sessions
use melsec_mc_net.Prelude.{ℕ, ◌+◌, ◌*◌, ◌/◌, ◌%◌, Option, none, some, List, [], ◌∷◌}
use melsec_mc_net.Command.Request.{Request}
use melsec_mc_net.Response.Frame.{ResponseFrame}
use melsec_mc_net.Ascii.Digits.{number_of}
use melsec_mc_net.Ascii.Request.{AsciiRequest}
use melsec_mc_net.Ascii.Command.Words.{words_text}
use melsec_mc_net.Ascii.Response.Frame.{AsciiResponse}
use melsec_mc_net.Plc.{Memory, answer, serve}

-- The bytes of words of four hexadecimal digits, the low byte of each first.
unfoldable pub words_of : List ℕ → Option (List ℕ)
words_of [] = some []
words_of (a ∷ b ∷ c ∷ d ∷ text) = elim (number_of 16 0 (a ∷ b ∷ c ∷ d ∷ [])) [
  | none ↦ none
  | some v ↦ elim (words_of text) [ none ↦ none | some bytes ↦ some (v % 256 ∷ v / 256 ∷ bytes) ]
]
words_of _ = none

-- The binary request for the same, with the PLC's table of the codes of devices.
abbrev pub translate : (List ℕ → ℕ) → AsciiRequest → List ℕ → Request
translate codes r bytes = record {
  command = r.command;
  subcommand = r.subcommand;
  device_number = r.device_number;
  device_code = codes r.device;
  points = r.points;
  values = bytes;
}

abbrev pub ascii_answer : ResponseFrame → AsciiResponse
ascii_answer f = record {
  start =
      b'D' ∷ b'0' ∷ b'0' ∷ b'0' ∷ b'0' ∷ b'0' ∷ b'F' ∷ b'F' ∷ b'0' ∷ b'3' ∷ b'F' ∷ b'F' ∷ b'0'
      ∷ b'0' ∷ [];
  end_code = f.end0 + 256 * f.end1;
  text = words_text f.values;
}

unfoldable pub ascii_serve : (List ℕ → ℕ) → AsciiRequest → Memory → Memory × AsciiResponse
ascii_serve codes r mem = elim (words_of r.text) [
  | none ↦ (mem, ascii_answer (answer 0x59 0xc0 []))
  | some bytes ↦
      let served = serve (translate codes r bytes) mem in (served.0, ascii_answer served.1)
]

-- ===== src/Plc/Ascii/Served.antt =====
-- What the PLC makes of the words of an ASCII request.
use melsec_mc_net.Ascii.Command.Number.{printed_base}
use native.Mathlib.Nat.{pow-zero, div-one}
use melsec_mc_net.Prelude.{
  ℕ, ◌+◌, ◌*◌, ◌/◌, ◌%◌, ◌^◌, ◌≡◌, refl, ap, ◌∙◌, some, List, [], ◌∷◌, arith, All, Bool-cases, inl,
  inr, ◌==◌,
}
use mathlib.Core.Path.{ap₂}
use melsec_mc_net.Address.{AddressData}
use melsec_mc_net.Command.Request.{Request}
use melsec_mc_net.Command.Frame.{request}
use melsec_mc_net.Ascii.Digits.{number_of, numeral, number_of-numeral_alone}
use melsec_mc_net.Ascii.Request.{AsciiRequest}
use melsec_mc_net.Ascii.Command.Words.{words_text, IsByte, IsEven}
use melsec_mc_net.Ascii.Command.Core.{HasDigits, ascii_request}
use melsec_mc_net.Plc.{Memory, serve}
use melsec_mc_net.Plc.Ascii.{words_of, translate, ascii_answer, ascii_serve}

-- Four digits and what follows.
words_of-digits :
    (a b c d v : ℕ) (text bytes : List ℕ)
    → number_of 16 0 (a ∷ b ∷ c ∷ d ∷ []) ≡ some v
    → words_of text ≡ some bytes
    → words_of (a ∷ b ∷ c ∷ d ∷ text) ≡ some (v % 256 ∷ v / 256 ∷ bytes)
unfolding words_of
words_of-digits a b c d v text bytes e later = rw (e, words_of) (rw (later, words_of) refl)

-- What the words of bytes are read as.
pub words_of-words_text :
    (bytes : List ℕ) → All IsByte bytes → IsEven bytes → words_of (words_text bytes) ≡ some bytes
unfolding words_of words_text numeral
words_of-words_text [] small even = refl
words_of-words_text (b ∷ []) small even = absurd (omega arith)
words_of-words_text (low ∷ high ∷ bytes) (l, (h, small)) even =
    words_of-digits _ _ _ _ (low + 256 * high) (words_text bytes) bytes
      (number_of-numeral_alone 4 16 (low + 256 * high) (omega arith) (omega arith) (omega arith))
      (words_of-words_text bytes small (omega arith))
    ∙ ap₂ (λ (x y : ℕ). some (x ∷ y ∷ bytes)) (omega arith) (omega arith)

pub ascii_serve-eq :
    (codes : List ℕ → ℕ) (r : AsciiRequest) (bytes : List ℕ) (mem : Memory)
    → words_of r.text ≡ some bytes
    → ascii_serve codes r mem ≡ (
      (serve (translate codes r bytes) mem).0,
      ascii_answer (serve (translate codes r bytes) mem).1,
    )
unfolding ascii_serve
ascii_serve-eq codes r bytes mem e = rw (e, ascii_serve) refl

-- The device number of an address, where six digits are enough.
same_number :
    (a : AddressData)
    → HasDigits a 0
    → a.address_start / printed_base a ^ 0 ≡ a.address_start % 2 ^ 24
same_number a digits =
    ap (λ (n : ℕ). a.address_start / n) (pow-zero (printed_base a))
    ∙ div-one a.address_start
    ∙ elim (Bool-cases (a.data_type.from_base == 16)) [
      | inl sixteen ↦ ground (arith, sixteen, digits.fits)
      | inr ten ↦ ground (arith, ten, digits.fits)
    ]

abbrev word_request : ℕ → ℕ → ℕ → ℕ → List ℕ → Request
word_request command number code points bytes = record {
  command = command;
  subcommand = 0;
  device_number = number;
  device_code = code;
  points = points % 2 ^ 16;
  values = bytes;
}

module _ (codes : List ℕ → ℕ) (a : AddressData) (digits : HasDigits a 0)
    (known : codes (ascii_request a 0 0 0 []).device ≡ a.data_type.data_code) where
  -- An ASCII request is the binary one for the same address.
  translated :
      (command : ℕ) (text bytes : List ℕ)
      → translate codes (ascii_request a 0 command 0 text) bytes
        ≡ request a command 0 a.length bytes
  translated command text bytes =
      ap₂ (λ (number code : ℕ). word_request command number code a.length bytes)
        (same_number a digits) known

  pub serves :
      (command : ℕ) (text bytes : List ℕ) (mem : Memory)
      → words_of text ≡ some bytes
      → ascii_serve codes (ascii_request a 0 command 0 text) mem ≡ (
        (serve (request a command 0 a.length bytes) mem).0,
        ascii_answer (serve (request a command 0 a.length bytes) mem).1,
      )
  serves command text bytes mem e =
      ascii_serve-eq codes (ascii_request a 0 command 0 text) bytes mem e
      ∙ ap (λ (q : Request). ((serve q mem).0, ascii_answer (serve q mem).1))
          (translated command text bytes)

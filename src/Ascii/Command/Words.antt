-- ===== src/Ascii/Command/Words.antt =====
-- The data of a command as characters: four hexadecimal digits for each word.
use mathlib.Core.Path.{ap₂}
use melsec_mc_net.Prelude.{
  ℕ, ◌+◌, ◌*◌, ◌/◌, ◌%◌, ◌^◌, ◌<◌, ◌≡◌, refl, sym, ap, ◌∙◌, some, List, [], ◌∷◌, ◌++◌, arith,
  length, All, append_assoc, bit_and,
}
use melsec_mc_net.Prelude.Bits.{low_mask, bit_and_comm}
use melsec_mc_net.Ascii.Digits.{hex_digit, numeral}
use melsec_mc_net.Ascii.Hex.{pair_value}
use melsec_mc_net.Ascii.Hex.RoundTrip.{pair_of_digits, write_hex_byte-numeral}
use melsec_mc_net.Ascii.Builders.{hex_chars}
use melsec_mc_net.Ascii.Command.{le_words_text, swap_words}
use melsec_mc_net.Ascii.Command.Number.{hex_str-eq}
use melsec_mc_net.Ascii.Response.{decode_pairs}

-- The words that bytes stand for, low byte first, in four digits each.
unfoldable pub words_text : List ℕ → List ℕ
words_text (low ∷ high ∷ bytes) = numeral 4 16 (low + 256 * high) ++ words_text bytes
words_text _ = []

abbrev pub IsByte : ℕ → Type 0
IsByte b = b < 256

-- Whether the bytes make whole words.
abbrev pub IsEven : List ℕ → Type 0
IsEven bytes = length bytes % 2 ≡ 0

word_digits :
    (low high : ℕ)
    → IsByte low
    → IsByte high
    → numeral 4 16 (low + 256 * high) ≡ numeral 2 16 high ++ numeral 2 16 low
unfolding numeral
word_digits low high l h =
    ap₂ (λ (a b : List ℕ). a ++ b)
      (ap₂ (λ (a b : ℕ). hex_digit a ∷ hex_digit b ∷ []) (omega arith) (omega arith))
      (ap₂ (λ (a b : ℕ). hex_digit a ∷ hex_digit b ∷ []) (omega arith) (omega arith))

hex_chars-numeral :
    (b : ℕ) (bytes : List ℕ) → IsByte b → hex_chars (b ∷ bytes) ≡ numeral 2 16 b ++ hex_chars bytes
unfolding hex_chars numeral
hex_chars-numeral b bytes h =
    ap₂ (λ (c d : ℕ). c ∷ d ∷ hex_chars bytes)
      (hex_str-eq (bit_and (b / 2 ^ 4) 15)
        ∙ ap hex_digit (ground (arith, bit_and_comm (b / 16) 15, low_mask 4 (b / 16))))
      (hex_str-eq (bit_and b 15) ∙ ap hex_digit (ground (arith, bit_and_comm b 15, low_mask 4 b)))

-- The text of a word write: the bytes of each word change places and are written as characters.
pub hex_chars-swap_words :
    (bytes : List ℕ)
    → All IsByte bytes
    → IsEven bytes
    → hex_chars (swap_words bytes) ≡ words_text bytes
unfolding swap_words words_text hex_chars
hex_chars-swap_words [] small even = refl
hex_chars-swap_words (b ∷ []) small even = absurd (omega arith)
hex_chars-swap_words (low ∷ high ∷ bytes) (l, (h, small)) even =
    hex_chars-numeral high (low ∷ swap_words bytes) h
    ∙ ap (λ (t : List ℕ). numeral 2 16 high ++ t)
        (hex_chars-numeral low (swap_words bytes) l
          ∙ ap (λ (t : List ℕ). numeral 2 16 low ++ t)
              (hex_chars-swap_words bytes small (omega arith)))
    ∙ sym (append_assoc (numeral 2 16 high) (numeral 2 16 low) (words_text bytes))
    ∙ ap (λ (t : List ℕ). t ++ words_text bytes) (sym (word_digits low high l h))

-- The text of a raw command.
pub le_words_text-words_text :
    (bytes : List ℕ) → All IsByte bytes → le_words_text bytes ≡ words_text bytes
unfolding le_words_text words_text
le_words_text-words_text [] small = refl
le_words_text-words_text (b ∷ []) small = refl
le_words_text-words_text (low ∷ high ∷ bytes) (l, (h, small)) =
    ap₂ (λ (a b : List ℕ). a ++ b ++ le_words_text bytes) (write_hex_byte-numeral high h)
      (write_hex_byte-numeral low l)
    ∙ ap₂ (λ (a b : List ℕ). a ++ b) (sym (word_digits low high l h))
        (le_words_text-words_text bytes small)

pub length-words_text :
    (bytes : List ℕ) → IsEven bytes → length (words_text bytes) ≡ 2 * length bytes
unfolding words_text numeral
length-words_text [] even = refl
length-words_text (b ∷ []) even = absurd (omega arith)
length-words_text (low ∷ high ∷ bytes) even = omega (arith, length-words_text bytes (omega arith))

pub swap_words-swap_words : (bytes : List ℕ) → swap_words (swap_words bytes) ≡ bytes
unfolding swap_words
swap_words-swap_words [] = refl
swap_words-swap_words (b ∷ []) = refl
swap_words-swap_words (low ∷ high ∷ bytes) =
    ap (λ (bs : List ℕ). low ∷ high ∷ bs) (swap_words-swap_words bytes)

pub length-swap_words : (bytes : List ℕ) → length (swap_words bytes) ≡ length bytes
unfolding swap_words
length-swap_words [] = refl
length-swap_words (b ∷ []) = refl
length-swap_words (low ∷ high ∷ bytes) = omega (arith, length-swap_words bytes)

decoded_pair :
    (b : ℕ) → IsByte b → pair_value (hex_digit (b / 16 % 16)) (hex_digit (b % 16)) ≡ some b
decoded_pair b h =
    pair_of_digits (b / 16 % 16) (b % 16) (omega arith) (omega arith) ∙ ap some (omega arith)

decode_pairs-byte :
    (b : ℕ) (rest bytes : List ℕ)
    → IsByte b
    → decode_pairs rest ≡ some bytes
    → decode_pairs (numeral 2 16 b ++ rest) ≡ some (b ∷ bytes)
unfolding decode_pairs numeral
decode_pairs-byte b rest bytes h e = rw (decoded_pair b h, decode_pairs) (rw e refl)

-- The text of words is read as their bytes, the high byte of each word first.
pub decode_pairs-words_text :
    (bytes : List ℕ)
    → All IsByte bytes
    → IsEven bytes
    → decode_pairs (words_text bytes) ≡ some (swap_words bytes)
unfolding words_text swap_words decode_pairs numeral
decode_pairs-words_text [] small even = refl
decode_pairs-words_text (b ∷ []) small even = absurd (omega arith)
decode_pairs-words_text (low ∷ high ∷ bytes) (l, (h, small)) even =
    ap (λ (t : List ℕ). decode_pairs (t ++ words_text bytes)) (word_digits low high l h)
    ∙ decode_pairs-byte high (numeral 2 16 low ++ words_text bytes) (low ∷ swap_words bytes) h (
        decode_pairs-byte low (words_text bytes) (swap_words bytes) l
          (decode_pairs-words_text bytes small (omega arith)))

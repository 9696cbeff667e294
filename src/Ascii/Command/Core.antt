-- ===== src/Ascii/Command/Core.antt =====
-- The ASCII core commands, against what a PLC reads in them.
use mathlib.Core.Path.{subst}
use native.Mathlib.Nat.{one-le-pow, div-lt_iff_lt-mul}
use melsec_mc_net.Prelude.{
  ℕ, ◌+◌, ◌*◌, ◌/◌, ◌%◌, ◌^◌, ◌<◌, ◌≤◌, ◌≡◌, refl, ap, ◌∙◌, Bool, true, false, if◌then◌else◌, some,
  List, [], ◌∷◌, ◌++◌, arith, length, All, map, ◌==◌, ◌||◌,
}
use melsec_mc_net.Address.{AddressData}
use melsec_mc_net.Machine.{World, malloc, alloc, malloc-eq_some, alloc-eq_some, >>=-eq_some}
use melsec_mc_net.Command.Frame.{unit_of}
use melsec_mc_net.Ascii.Digits.{numeral, number_of-numeral_alone, pow-add}
use melsec_mc_net.Ascii.Hex.{mc_ascii_write_hex_byte, mc_ascii_write_hex_u16_be}
use melsec_mc_net.Ascii.Hex.RoundTrip.{write_hex_u16_be-numeral}
use melsec_mc_net.Ascii.Request.{AsciiRequest, decode_ascii_core}
use melsec_mc_net.Ascii.Builders.{
  char_at, hex_chars, bit_chars, build_ascii_bytes_from_byte_array,
  build_ascii_bytes_from_bool_array,
}
use melsec_mc_net.Ascii.Command.{
  ascii_core_text, fill_command, mc_ascii_build_read_core_command,
  mc_ascii_build_write_word_core_command, mc_ascii_build_write_bit_core_command, swap_words,
}
use melsec_mc_net.Ascii.Command.Words.{
  words_text, IsByte, IsEven, hex_chars-swap_words, length-words_text,
}
use melsec_mc_net.Ascii.Command.Number.{printed_base, format-numeral}
use melsec_mc_net.Ascii.Command.Frame.{word_field}

-- A device number that is not negative and has six digits and `more` in the base in which it is
-- printed, or at most six.
pub record HasDigits (a : AddressData) (more : ℕ) : Type 0 where
  pub positive : a.address_start < 2 ^ 31
  pub at_most : more ≤ 4
  pub fits : a.address_start < printed_base a ^ (6 + more)
  pub needed : 0 < more → printed_base a ^ (5 + more) ≤ a.address_start

-- The request in a core command: the device number is without the digits that are too many.
abbrev pub ascii_request : AddressData → ℕ → ℕ → ℕ → List ℕ → AsciiRequest
ascii_request a more command unit text = record {
  command = command;
  subcommand = unit;
  device = char_at a.data_type.ascii_code 0 ∷ char_at a.data_type.ascii_code 1 ∷ [];
  device_number = a.address_start / printed_base a ^ more;
  points = a.length % 2 ^ 16;
  text = text;
}

abbrev pub start_of : ℕ → ℕ → List ℕ
start_of command unit = numeral 4 16 command ++ numeral 4 16 unit

printed_base-bounds : (a : AddressData) → (0 < printed_base a) × (printed_base a ≤ 16)
printed_base-bounds a = (ground arith, ground arith)

core_text-decode :
    (command unit : ℕ) (a : AddressData) (number : ℕ) (text : List ℕ)
    → command < 2 ^ 16
    → unit < 2 ^ 16
    → number < printed_base a ^ 6
    → decode_ascii_core
        (printed_base a)
        (ascii_core_text (start_of command unit) a (numeral 6 (printed_base a) number) text)
      ≡ some (record (ascii_request a 0 command unit text) { device_number = number })
unfolding decode_ascii_core ascii_core_text numeral
core_text-decode command unit a number text c u n =
    rw (write_hex_u16_be-numeral (a.length % 2 ^ 16) (omega arith)) (
      rw (word_field command c, decode_ascii_core)
        (rw
          (
            word_field unit u,
            number_of-numeral_alone 6 (printed_base a) number (printed_base-bounds a).0
                (printed_base-bounds a).1 n,
            word_field (a.length % 2 ^ 16) (omega arith),
          )
          refl))

length-core_text :
    (command unit : ℕ) (a : AddressData) (number : ℕ) (text : List ℕ)
    → length (ascii_core_text (start_of command unit) a (numeral 6 (printed_base a) number) text)
      ≡ length text + 20
unfolding ascii_core_text numeral mc_ascii_write_hex_u16_be mc_ascii_write_hex_byte
length-core_text command unit a number text = omega arith

kept_digits :
    (a : AddressData) (more : ℕ)
    → HasDigits a more
    → a.address_start / printed_base a ^ more < printed_base a ^ 6
kept_digits a more h =
    (div-lt_iff_lt-mul (one-le-pow more (printed_base a) (printed_base-bounds a).0)).1
      (subst (λ (m : ℕ). a.address_start < m) (pow-add (printed_base a) 6 more) h.fits)

-- A command in which a PLC reads this request, and its number of characters.
abbrev pub Asks : AddressData → AsciiRequest → ℕ → List ℕ → Type 0
Asks a asked count core =
    (decode_ascii_core (printed_base a) core ≡ some asked) × (length core ≡ count)

bit_chars-map :
    (values : List Bool) → bit_chars values ≡ map (λ (v : Bool). if v then 49 else 48) values
unfolding bit_chars
bit_chars-map [] = refl
bit_chars-map (v ∷ values) = ap (λ (t : List ℕ). (if v then 49 else 48) ∷ t) (bit_chars-map values)

length-bit_chars : (values : List Bool) → length (bit_chars values) ≡ length values
unfolding bit_chars
length-bit_chars [] = refl
length-bit_chars (v ∷ values) = omega (arith, length-bit_chars values)

module _ (a : AddressData) (more : ℕ) (h : HasDigits a more) (w : World) (m : w.mallocs ≡ []) where
  fill_command-Asks :
      (command unit : ℕ) (text : List ℕ)
      → command < 2 ^ 16
      → unit < 2 ^ 16
      → (core : List ℕ) × (fill_command (start_of command unit) a text w ≡ some (some core, w))
        × Asks a (ascii_request a more command unit text) (length text + 20) core
  unfolding fill_command ascii_core_text numeral
  fill_command-Asks command unit text c u =
      let digits = numeral 6 (printed_base a) (a.address_start / printed_base a ^ more) in
      let formats = format-numeral a more h.positive h.at_most h.fits h.needed in
      (
        ascii_core_text (start_of command unit) a digits text,
        >>=-eq_some malloc _ (malloc-eq_some w m) ∙ rw formats refl,
        (
          core_text-decode command unit a (a.address_start / printed_base a ^ more) text c u
              (kept_digits a more h),
          length-core_text command unit a (a.address_start / printed_base a ^ more) text,
        ),
      )

  -- The core command of a read, of words or of bits, where the device number is not negative and
  -- memory is to be had: what a PLC reads in it is command 0x0401 in that unit, for the device and the
  -- points of the address, their number modulo 2 ^ 16, without data; the device number is the first
  -- six digits of the address's.
  pub build_read-Asks :
      (is_bit : Bool)
      → (core : List ℕ) × (mc_ascii_build_read_core_command a is_bit w ≡ some (some core, w))
        × Asks a (ascii_request a more 0x0401 (unit_of is_bit) []) 20 core
  unfolding mc_ascii_build_read_core_command numeral
  build_read-Asks true = fill_command-Asks 0x0401 1 [] (omega arith) (omega arith)
  build_read-Asks false = fill_command-Asks 0x0401 0 [] (omega arith) (omega arith)

  -- The core command of a word write of at least one word of bytes, where the device number is not
  -- negative and memory is to be had: what a PLC reads in it is command 0x1401 in words, for the
  -- device and the points of the address, with exactly the words of the given bytes, in four digits
  -- each; the device number is the first six digits of the address's.
  pub build_write_word-Asks :
      (bytes : List ℕ)
      → 0 < length bytes
      → IsEven bytes
      → All IsByte bytes
      → (core : List ℕ) × (mc_ascii_build_write_word_core_command a (some bytes) w
          ≡ some (some core, w))
        × Asks a (ascii_request a more 0x1401 0 (words_text bytes)) (2 * length bytes + 20) core
  unfolding mc_ascii_build_write_word_core_command numeral build_ascii_bytes_from_byte_array
      swap_words
  build_write_word-Asks [] pos even small = absurd (omega arith)
  build_write_word-Asks (b ∷ []) pos even small = absurd (omega arith)
  build_write_word-Asks (low ∷ high ∷ bytes) pos even small =
      let whole : (length (low ∷ high ∷ bytes) == 0 || length (low ∷ high ∷ bytes) % 2 == 1)
          ≡ false =
        ground arith in
      let (core, fills, (asks, count)) =
        fill_command-Asks 0x1401 0 (words_text (low ∷ high ∷ bytes)) (omega arith) (omega arith) in
      let text = hex_chars-swap_words (low ∷ high ∷ bytes) small even in
      (
        core,
        rw (whole, if◌then◌else◌)
            (>>=-eq_some (alloc (swap_words (low ∷ high ∷ bytes))) _
                (alloc-eq_some (swap_words (low ∷ high ∷ bytes)) w m)
              ∙ >>=-eq_some
                  (build_ascii_bytes_from_byte_array (some (high ∷ low ∷ swap_words bytes))) _
                  (>>=-eq_some (alloc (hex_chars (high ∷ low ∷ swap_words bytes))) _
                      (alloc-eq_some (hex_chars (high ∷ low ∷ swap_words bytes)) w m)
                    ∙ ap (λ (t : List ℕ). some (some t, w)) text)
              ∙ fills),
        (asks, count ∙ ap (λ (n : ℕ). n + 20) (length-words_text (low ∷ high ∷ bytes) even)),
      )

  -- The core command of a bit write of at least one value, where the device number is not negative and
  -- memory is to be had: what a PLC reads in it is command 0x1401 in bits, for the device and the
  -- points of the address, with one character for each value; the device number is the first six
  -- digits of the address's.
  pub build_write_bit-Asks :
      (values : List Bool)
      → 0 < length values
      → (core : List ℕ) × (mc_ascii_build_write_bit_core_command a (some values) w
          ≡ some (some core, w))
        × Asks a
            (ascii_request a more 0x1401 1 (map (λ (v : Bool). if v then 49 else 48) values))
            (length values + 20)
            core
  unfolding mc_ascii_build_write_bit_core_command numeral build_ascii_bytes_from_bool_array
  build_write_bit-Asks [] pos = absurd (omega arith)
  build_write_bit-Asks (v ∷ values) pos =
      let text = bit_chars-map (v ∷ values) in
      let (core, fills, (asks, count)) =
        fill_command-Asks 0x1401 1 (map (λ (b : Bool). if b then 49 else 48) (v ∷ values))
          (omega arith) (omega arith) in
      (
        core,
        >>=-eq_some (build_ascii_bytes_from_bool_array (some (v ∷ values))) _ (
              >>=-eq_some (alloc (bit_chars (v ∷ values))) _
                (alloc-eq_some (bit_chars (v ∷ values)) w m)
              ∙ ap (λ (t : List ℕ). some (some t, w)) text)
            ∙ fills,
        (asks, count ∙ omega (arith, ap length text, length-bit_chars (v ∷ values))),
      )

-- ===== src/Ascii/Command.antt =====
-- melsec_mc_net/melsec_mc_ascii.c: the core commands and the frame.
pub mod Number
pub mod Words
pub mod Frame
pub mod Core
pub mod Same
use melsec_mc_net.Prelude.{
  ℕ, zero, suc, ◌+◌, ◌-◌, ◌/◌, ◌%◌, ltb, ◌==◌, ◌&&◌, ◌||◌, if◌then◌else◌, Bool, true, false, Option,
  none, some, List, [], ◌∷◌, ◌++◌, length, take,
}
use melsec_mc_net.Words.{u16}
use melsec_mc_net.Address.{AddressData}
use melsec_mc_net.Machine.{M, ◌>>=◌, pure, malloc, alloc, Buffer}
use melsec_mc_net.Socket.{is_negative}
use melsec_mc_net.Ascii.Hex.{mc_ascii_write_hex_byte, mc_ascii_write_hex_u16_be}
use melsec_mc_net.Ascii.Builders.{
  hex_str, char_at, build_ascii_bytes_from_byte_array, build_ascii_bytes_from_bool_array,
}

-- Each word of a binary command, [low, high], as four characters with the high byte first.
unfoldable pub le_words_text : List ℕ → List ℕ
le_words_text (low ∷ high ∷ words) =
    mc_ascii_write_hex_byte high ++ mc_ascii_write_hex_byte low ++ le_words_text words
le_words_text _ = []

unfoldable pub mc_ascii_build_core_from_le_words : List ℕ → M Buffer
mc_ascii_build_core_from_le_words raw_cmd =
    if length raw_cmd == 0 || length raw_cmd % 2 == 1
    then pure none
    else alloc (le_words_text raw_cmd)

-- `printf` of an `unsigned` with the conversion `%06u` or `%06X`, in front of `text`: digits as long as
-- there are any, and zeros up to the width. A 32-bit number has at most ten digits.
unfoldable pub print_number : ℕ → ℕ → ℕ → ℕ → List ℕ → List ℕ
print_number zero width base n text = text
print_number (suc left) width base n text =
    let rest = print_number left (width - 1) base (n / base) (hex_str (n % base) ∷ text) in
    if n == 0 && width == 0 then text else rest

-- `snprintf` into seven characters keeps the first six. `none` is the result false.
unfoldable pub mc_ascii_format_device_number : AddressData → Option (List ℕ)
mc_ascii_format_device_number a =
    if is_negative a.address_start
    then none
    else if a.data_type.from_base == 16
    then some (take 6 (print_number 10 6 16 a.address_start []))
    else some (take 6 (print_number 10 6 10 a.address_start []))

-- The command: its start, the device, its number, the number of points, and the data.
unfoldable pub ascii_core_text : List ℕ → AddressData → List ℕ → List ℕ → List ℕ
ascii_core_text start a digits content =
    start
    ++ char_at a.data_type.ascii_code 0 ∷ char_at a.data_type.ascii_code 1 ∷ digits
    ++ mc_ascii_write_hex_u16_be (u16 a.length)
    ++ content

-- The end that the three builders share: the memory, the number, and the text.
unfoldable pub fill_command : List ℕ → AddressData → List ℕ → M Buffer
fill_command start a content = do
  ok ← malloc
  elim ok [
    | false ↦ pure none
    | true ↦ elim (mc_ascii_format_device_number a) [
      | none ↦ pure none
      | some digits ↦ pure (some (ascii_core_text start a digits content))
    ]
  ]

unfoldable pub mc_ascii_build_read_core_command : AddressData → Bool → M Buffer
mc_ascii_build_read_core_command a is_bit =
    fill_command
      (b'0' ∷ b'4' ∷ b'0' ∷ b'1' ∷ b'0' ∷ b'0' ∷ b'0' ∷ (if is_bit then b'1' else b'0') ∷ []) a []

-- The bytes of each word change places.
unfoldable pub swap_words : List ℕ → List ℕ
swap_words (low ∷ high ∷ words) = high ∷ low ∷ swap_words words
swap_words bytes = bytes

unfoldable pub mc_ascii_build_write_word_core_command : AddressData → Buffer → M Buffer
mc_ascii_build_write_word_core_command a none = pure none
mc_ascii_build_write_word_core_command a (some value) =
    if length value == 0 || length value % 2 == 1 then pure none else do
      payload_bytes ← alloc (swap_words value)
      elim payload_bytes [
        | none ↦ pure none
        | some bytes ↦ (do
          payload ← build_ascii_bytes_from_byte_array (some bytes)
          elim payload [
            | none ↦ pure none
            | some text ↦
                fill_command (b'1' ∷ b'4' ∷ b'0' ∷ b'1' ∷ b'0' ∷ b'0' ∷ b'0' ∷ b'0' ∷ []) a text
          ])
      ]

unfoldable pub mc_ascii_build_write_bit_core_command : AddressData → Option (List Bool) → M Buffer
mc_ascii_build_write_bit_core_command a value = do
  payload ← build_ascii_bytes_from_bool_array value
  elim payload [
    | none ↦ pure none
    | some text ↦ fill_command (b'1' ∷ b'4' ∷ b'0' ∷ b'1' ∷ b'0' ∷ b'0' ∷ b'0' ∷ b'1' ∷ []) a text
  ]

unfoldable pub ascii_frame_text : List ℕ → ℕ → ℕ → List ℕ
ascii_frame_text core network_number station_number =
    b'5' ∷ b'0' ∷ b'0' ∷ b'0' ∷ []
    ++ mc_ascii_write_hex_byte network_number
    ++ b'F' ∷ b'F' ∷ b'0' ∷ b'3' ∷ b'F' ∷ b'F' ∷ []
    ++ mc_ascii_write_hex_byte station_number
    ++ mc_ascii_write_hex_u16_be (u16 (length core + 4))
    ++ b'0' ∷ b'0' ∷ b'1' ∷ b'0' ∷ core

unfoldable pub pack_mc_ascii_command : Buffer → ℕ → ℕ → M Buffer
pack_mc_ascii_command none network_number station_number = pure none
pack_mc_ascii_command (some []) network_number station_number = pure none
pack_mc_ascii_command (some (b ∷ core)) network_number station_number =
    alloc (ascii_frame_text (b ∷ core) network_number station_number)

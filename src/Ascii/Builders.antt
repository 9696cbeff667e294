-- ===== src/Ascii/Builders.antt =====
-- melsec_mc_net/melsec_helper.c: the builders of ASCII text, the ASCII core commands and the check sum.
pub mod CheckSum
use melsec_mc_net.Prelude.{
  ℕ, zero, suc, ◌+◌, ◌-◌, ◌*◌, ◌/◌, ◌^◌, ltb, ◌==◌, ◌&&◌, not, bit_and, if◌then◌else◌, Bool, true,
  false, Option, none, some, List, [], ◌∷◌, ◌++◌, length, take, drop, get_elem?,
}
use melsec_mc_net.Words.{u8, u16}
use melsec_mc_net.Address.{DataType, AddressData}
use melsec_mc_net.Machine.{M, ◌>>=◌, pure, undefined, checked, malloc, alloc, Buffer}

-- `hex_str[n]`, for an index below 16
unfoldable pub hex_str : ℕ → ℕ
hex_str n = if ltb n 10 then b'0' + n else b'A' + (n - 10)

unfoldable pub hex_chars : List ℕ → List ℕ
hex_chars [] = []
hex_chars (b ∷ bytes) =
    hex_str (bit_and (b / 2 ^ 4) 0x0f) ∷ hex_str (bit_and b 0x0f) ∷ hex_chars bytes

unfoldable pub build_ascii_bytes_from_ushort : ℕ → M Buffer
build_ascii_bytes_from_ushort content =
    alloc (hex_chars (u8 (bit_and 0xff content) ∷ u8 (bit_and 0xff (content / 2 ^ 8)) ∷ []))

unfoldable pub build_ascii_bytes_from_int : ℕ → M Buffer
build_ascii_bytes_from_int content = alloc (
    hex_chars (
      u8 (bit_and 0xff content)
      ∷ u8 (bit_and 0xff (content / 2 ^ 8))
      ∷ u8 (bit_and 0xff (content / 2 ^ 16))
      ∷ u8 (bit_and 0xff (content / 2 ^ 24))
      ∷ []))

unfoldable pub build_bytes_from_address : ℕ → DataType → M Buffer
build_bytes_from_address address type = build_ascii_bytes_from_int address

-- The memory is filled without a check for NULL.
unfoldable pub build_ascii_bytes_from_byte_array : Buffer → M Buffer
build_ascii_bytes_from_byte_array none = pure none
build_ascii_bytes_from_byte_array (some []) = pure none
build_ascii_bytes_from_byte_array (some (b ∷ content)) = do
  out ← alloc (hex_chars (b ∷ content))
  elim out [ none ↦ undefined | some text ↦ pure (some text) ]

unfoldable pub bit_chars : List Bool → List ℕ
bit_chars [] = []
bit_chars (v ∷ values) = (if v then 0x31 else 0x30) ∷ bit_chars values

-- The memory is filled without a check for NULL.
unfoldable pub build_ascii_bytes_from_bool_array : Option (List Bool) → M Buffer
build_ascii_bytes_from_bool_array none = pure none
build_ascii_bytes_from_bool_array (some []) = pure none
build_ascii_bytes_from_bool_array (some (v ∷ values)) = do
  out ← alloc (bit_chars (v ∷ values))
  elim out [ none ↦ undefined | some text ↦ pure (some text) ]

-- `ascii_code[i]`, of ten characters
abbrev pub char_at : List ℕ → ℕ → ℕ
char_at text i = elim (get_elem? text i) [ none ↦ 0 | some c ↦ c ]

-- The text of the three ASCII core commands: the command and subcommand, the device, six characters
-- of the device number and the four of the number of points, then the data. The characters are those of
-- `build_bytes_from_address` and `build_ascii_bytes_from_ushort`, which have the low byte first.
unfoldable pub build_ascii_core_command : List ℕ → AddressData → ℕ → List ℕ → M Buffer
build_ascii_core_command start a points content = do
  ok ← malloc
  elim ok [
    | false ↦ pure none
    | true ↦ (do
      number ← build_bytes_from_address a.address_start a.data_type
      elim number [
        | none ↦ pure none
        | some digits ↦ (do
          count ← build_ascii_bytes_from_ushort (u16 points)
          elim count [
            | none ↦ pure none
            | some chars ↦ pure (
                some (
                  start
                  ++ char_at a.data_type.ascii_code 0
                    ∷ char_at a.data_type.ascii_code 1
                    ∷ take 6 digits
                  ++ chars
                  ++ content))
          ])
      ])
  ]

unfoldable pub build_ascii_read_core_command : AddressData → Bool → M Buffer
build_ascii_read_core_command a is_bit =
    build_ascii_core_command
      (0x30 ∷ 0x34 ∷ 0x30 ∷ 0x31 ∷ 0x30 ∷ 0x30 ∷ 0x30 ∷ (if is_bit then 0x31 else 0x30) ∷ []) a
      a.length []

-- the characters of a buffer, or none of NULL
abbrev pub text_of : Buffer → List ℕ
text_of none = []
text_of (some text) = text

unfoldable pub build_ascii_write_word_core_command : AddressData → Buffer → M Buffer
build_ascii_write_word_core_command a value = do
  buffer ← build_ascii_bytes_from_byte_array value
  build_ascii_core_command (0x31 ∷ 0x34 ∷ 0x30 ∷ 0x31 ∷ 0x30 ∷ 0x30 ∷ 0x30 ∷ 0x30 ∷ []) a a.length
      (text_of buffer)

unfoldable pub build_ascii_write_bit_core_command : AddressData → Option (List Bool) → M Buffer
build_ascii_write_bit_core_command a value = do
  buffer ← build_ascii_bytes_from_bool_array value
  build_ascii_core_command (0x31 ∷ 0x34 ∷ 0x30 ∷ 0x31 ∷ 0x30 ∷ 0x30 ∷ 0x30 ∷ 0x31 ∷ []) a a.length
      (text_of buffer)

abbrev pub sum_of : List ℕ → ℕ
sum_of [] = 0
sum_of (b ∷ bytes) = b + sum_of bytes

-- The sum of the bytes but the first and the last two.
unfoldable pub calculate_crc : List ℕ → M Buffer
calculate_crc content =
    build_ascii_bytes_from_ushort (u16 (sum_of (drop 1 (take (length content - 2) content))))

-- Without two bytes at the end, or without memory, it reads out of bounds.
unfoldable pub check_crc : Buffer → M Bool
check_crc none = pure false
check_crc (some content) = if ltb (length content) 2 then undefined else do
  crc ← calculate_crc content
  elim crc [
    | none ↦ undefined
    | some chars ↦ (do
      c0 ← checked (get_elem? chars 0)
      c1 ← checked (get_elem? chars 1)
      d0 ← checked (get_elem? content (length content - 2))
      d1 ← checked (get_elem? content (length content - 1))
      pure (c0 == d0 && not (c1 == d1)))
  ]

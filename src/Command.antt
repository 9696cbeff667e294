-- ===== src/Command.antt =====
-- melsec_mc_net/melsec_helper.c: the binary core commands, and melsec_mc_bin.c: `pack_mc_command`
-- and `extract_actual_bool_data`. The bytes that a function fills its allocation with are a
-- definition of their own, named after it. Memory that is released is not modelled.
pub mod Request
pub mod Control
pub mod Frame
pub mod Bits
use melsec_mc_net.Prelude.{
  ℕ, zero, suc, ◌+◌, ◌*◌, ◌/◌, ◌%◌, ◌^◌, ltb, ◌==◌, bit_and, if◌then◌else◌, Bool, true, false,
  Option, none, some, List, [], ◌∷◌, ◌++◌, length, get_elem?,
}
use melsec_mc_net.Words.{u8}
use melsec_mc_net.Address.{AddressData}
use melsec_mc_net.Machine.{M, ◌>>=◌, pure, checked, alloc, Buffer, buffer_length}

-- The start of a core command: command, subcommand, device number and device code. The arithmetic on
-- an `int` is that on its bit pattern, since each byte is a cast.
unfoldable pub read_core_bytes : AddressData → Bool → List ℕ
read_core_bytes a is_bit =
    0x01
    ∷ 0x04
    ∷ (if is_bit then 0x01 else 0x00)
    ∷ 0x00
    ∷ u8 (a.address_start % 256)
    ∷ u8 (a.address_start / 2 ^ 8)
    ∷ u8 (a.address_start / 2 ^ 16)
    ∷ a.data_type.data_code
    ∷ u8 (a.length % 256)
    ∷ u8 (a.length / 2 ^ 8)
    ∷ []

unfoldable pub build_read_core_command : AddressData → Bool → M Buffer
unfolding read_core_bytes alloc
build_read_core_command a is_bit = alloc (read_core_bytes a is_bit)

-- The number of words comes from the data, and not from the address.
unfoldable pub write_word_core_bytes : AddressData → List ℕ → List ℕ
write_word_core_bytes a value =
    0x01
    ∷ 0x14
    ∷ 0x00
    ∷ 0x00
    ∷ u8 (a.address_start % 256)
    ∷ u8 (a.address_start / 2 ^ 8)
    ∷ u8 (a.address_start / 2 ^ 16)
    ∷ a.data_type.data_code
    ∷ u8 (length value / 2 % 256)
    ∷ u8 (length value / 2 / 2 ^ 8)
    ∷ value

-- No data is data of length 0.
abbrev pub contents : Buffer → List ℕ
contents none = []
contents (some bytes) = bytes

unfoldable pub build_write_word_core_command : AddressData → Buffer → M Buffer
unfolding write_word_core_bytes alloc
build_write_word_core_command a value = alloc (write_word_core_bytes a (contents value))

-- One byte of `trans_bool_array_to_byte_data`: the two values at `i * 2`.
unfoldable pub trans_byte : Bool → Bool → ℕ
trans_byte first second = (if first then 0x10 else 0) + (if second then 0x01 else 0)

-- The loop at index `i`, with `left` rounds to go; `none` is a read past the end of the array. The
-- second value of a pair is read only while its index is less than the number of bytes.
unfoldable pub trans_loop : List Bool → ℕ → ℕ → ℕ → Option (List ℕ)
unfolding trans_byte
trans_loop values len zero i = some []
trans_loop values len (suc left) i = elim (get_elem? values (i * 2)) [
  | none ↦ none
  | some first ↦ elim (if ltb (i * 2 + 1) len then get_elem? values (i * 2 + 1) else some false) [
    | none ↦ none
    | some second ↦ elim (trans_loop values len left (i + 1)) [
      | none ↦ none
      | some bytes ↦ some (trans_byte first second ∷ bytes)
    ]
  ]
]

unfoldable pub trans_bytes : List Bool → Option (List ℕ)
unfolding trans_loop
trans_bytes values = let len = (length values + 1) / 2 in trans_loop values len len 0

unfoldable pub trans_bool_array_to_byte_data : Option (List Bool) → M Buffer
trans_bool_array_to_byte_data none = pure none
trans_bool_array_to_byte_data (some values) = do bytes ← checked (trans_bytes values); alloc bytes

unfoldable pub write_bit_core_bytes : AddressData → List ℕ → List ℕ
write_bit_core_bytes a buffer =
    0x01
    ∷ 0x14
    ∷ 0x01
    ∷ 0x00
    ∷ u8 (a.address_start % 256)
    ∷ u8 (a.address_start / 2 ^ 8)
    ∷ u8 (a.address_start / 2 ^ 16)
    ∷ a.data_type.data_code
    ∷ u8 (a.length % 256)
    ∷ u8 (a.length / 2 ^ 8)
    ∷ buffer

unfoldable pub build_write_bit_core_command : AddressData → Option (List Bool) → M Buffer
build_write_bit_core_command a value = do
  buffer ← trans_bool_array_to_byte_data value
  elim buffer [ none ↦ pure none | some bytes ↦ alloc (write_bit_core_bytes a bytes) ]

-- The header of `pack_mc_command` and the core behind it.
unfoldable pub frame_bytes : List ℕ → ℕ → ℕ → List ℕ
frame_bytes core network_number station_number =
    let rest_len = length core + 2 in
    0x50
    ∷ 0x00
    ∷ network_number
    ∷ 0xff
    ∷ 0xff
    ∷ 0x03
    ∷ station_number
    ∷ u8 rest_len
    ∷ u8 (rest_len / 2 ^ 8)
    ∷ 0x0a
    ∷ 0x00
    ∷ core

unfoldable pub pack_mc_command : Buffer → ℕ → ℕ → M Buffer
unfolding frame_bytes alloc
pack_mc_command none network_number station_number = pure none
pack_mc_command (some []) network_number station_number = pure none
pack_mc_command (some (b ∷ core)) network_number station_number =
    alloc (frame_bytes (b ∷ core) network_number station_number)

-- One byte of a bit response holds two values.
unfoldable pub extract_bits : List ℕ → List ℕ
extract_bits [] = []
extract_bits (b ∷ bytes) =
    (if bit_and b 0x10 == 0x10 then 0x01 else 0x00)
    ∷ (if bit_and b 0x01 == 0x01 then 0x01 else 0x00)
    ∷ extract_bits bytes

-- Without memory the response stays as it is.
unfoldable pub extract_actual_bool_data : Buffer → M Buffer
extract_actual_bool_data none = pure none
extract_actual_bool_data (some []) = pure (some [])
extract_actual_bool_data (some (b ∷ bytes)) = do
  content ← alloc (extract_bits (b ∷ bytes))
  elim content [ none ↦ pure (some (b ∷ bytes)) | some bits ↦ pure (some bits) ]

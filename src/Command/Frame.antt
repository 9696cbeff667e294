-- ===== src/Command/Frame.antt =====
-- The frames that are sent, against what a PLC reads in them.
use melsec_mc_net.Prelude.{
  ℕ, ◌/◌, ◌%◌, ◌∙◌, ◌+◌, ◌^◌, ◌<◌, ◌≡◌, if◌then◌else◌, Bool, true, false, some, List, [], arith,
  length,
}
use melsec_mc_net.Address.{AddressData}
use melsec_mc_net.Command.{
  read_core_bytes, write_word_core_bytes, write_bit_core_bytes, frame_bytes,
  build_read_core_command, build_write_word_core_command, build_write_bit_core_command, trans_bytes,
  trans_bool_array_to_byte_data,
}
use melsec_mc_net.Machine.{World, alloc, alloc-eq_some, >>=-eq_some}
use melsec_mc_net.Command.Request.{Request, decode_core, decode_frame}

-- A frame of at most 65533 bytes of core command is read back: the network and station number, a
-- timer of 10 and the core command itself.
pub decode_frame-frame_bytes :
    (core : List ℕ) (net station : ℕ)
    → length core < 65534
    → decode_frame (frame_bytes core net station)
      ≡ some (record { network = net; station = station; timer = 10; core = core })
unfolding decode_frame frame_bytes
decode_frame-frame_bytes core net station h = ground arith

pub length-frame_bytes :
    (core : List ℕ) (net station : ℕ) → length (frame_bytes core net station) ≡ length core + 11
unfolding frame_bytes
length-frame_bytes core net station = omega arith

-- The request in a core command, over the low 24 bits of the device number and the low 16 bits of the
-- number of points.
abbrev pub request : AddressData → ℕ → ℕ → ℕ → List ℕ → Request
request a command unit points values = record {
  command = command;
  subcommand = unit;
  device_number = a.address_start % 2 ^ 24;
  device_code = a.data_type.data_code;
  points = points % 2 ^ 16;
  values = values;
}

abbrev pub unit_of : Bool → ℕ
unit_of is_bit = if is_bit then 1 else 0

-- The core command of a read, of words or of bits: what a PLC reads in it is command 0x0401 in that
-- unit, for the device of the address, with its number below 2 ^ 24 and its number of points below
-- 2 ^ 16 taken modulo these, and no data.
pub decode_core-read :
    (a : AddressData) (is_bit : Bool)
    → decode_core (read_core_bytes a is_bit) ≡ some (request a 0x0401 (unit_of is_bit) a.length [])
unfolding decode_core read_core_bytes
decode_core-read a true = ground arith
decode_core-read a false = ground arith

-- The core command of a word write: what a PLC reads in it is command 0x1401 in words, for the device
-- of the address, its number modulo 2 ^ 24, for half as many points as there are bytes, modulo
-- 2 ^ 16, and exactly the bytes that are given.
pub decode_core-write_word :
    (a : AddressData) (value : List ℕ)
    → decode_core (write_word_core_bytes a value)
      ≡ some (request a 0x1401 0 (length value / 2) value)
unfolding decode_core write_word_core_bytes
decode_core-write_word a value = ground arith

-- The core command of a bit write: what a PLC reads in it is command 0x1401 in bits, for the device
-- of the address, its number modulo 2 ^ 24 and its number of points modulo 2 ^ 16, and exactly the
-- packed bytes that are given.
pub decode_core-write_bit :
    (a : AddressData) (buffer : List ℕ)
    → decode_core (write_bit_core_bytes a buffer) ≡ some (request a 0x1401 1 a.length buffer)
unfolding decode_core write_bit_core_bytes
decode_core-write_bit a buffer = ground arith

pub build_read_core_command-eq_some :
    (a : AddressData) (is_bit : Bool) (w : World)
    → w.mallocs ≡ []
    → build_read_core_command a is_bit w ≡ some (some (read_core_bytes a is_bit), w)
unfolding build_read_core_command
build_read_core_command-eq_some a is_bit w m = alloc-eq_some (read_core_bytes a is_bit) w m

pub build_write_word_core_command-eq_some :
    (a : AddressData) (bytes : List ℕ) (w : World)
    → w.mallocs ≡ []
    → build_write_word_core_command a (some bytes) w
      ≡ some (some (write_word_core_bytes a bytes), w)
unfolding build_write_word_core_command
build_write_word_core_command-eq_some a bytes w m =
    alloc-eq_some (write_word_core_bytes a bytes) w m

pub build_write_bit_core_command-eq_some :
    (a : AddressData) (values : List Bool) (bytes : List ℕ) (w : World)
    → w.mallocs ≡ []
    → trans_bytes values ≡ some bytes
    → build_write_bit_core_command a (some values) w ≡ some (some (write_bit_core_bytes a bytes), w)
unfolding build_write_bit_core_command trans_bool_array_to_byte_data
build_write_bit_core_command-eq_some a values bytes w m e = rw e (
    >>=-eq_some (alloc bytes) _ (alloc-eq_some bytes w m)
    ∙ alloc-eq_some (write_bit_core_bytes a bytes) w m)

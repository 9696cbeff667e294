-- ===== src/Address/Devices.antt =====
-- The devices of the MC protocol that melsec_mc_comm.c names, as a table: how each is written, its
-- code in a binary command, its two characters in an ASCII command, and the base of its numbers.
use melsec_mc_net.Prelude.{ℕ, ◌+◌, ◌*◌, ltb, if◌then◌else◌, Bool, true, false, List, [], ◌∷◌, map}

pub data Device : Type 0 where
  intermediate_relay input_relay output_relay data_register link_register latch_relay : Device
  annunciator edge_relay link_relay file_register step_relay : Device
  accumulative_timer_value accumulative_timer_contact accumulative_timer_coil : Device
  index_register file_register_area timer_coil timer_contact timer_value : Device
  counter_value counter_contact counter_coil : Device

abbrev pub letters : Device → List ℕ
letters intermediate_relay = b'M' ∷ []
letters input_relay = b'X' ∷ []
letters output_relay = b'Y' ∷ []
letters data_register = b'D' ∷ []
letters link_register = b'W' ∷ []
letters latch_relay = b'L' ∷ []
letters annunciator = b'F' ∷ []
letters edge_relay = b'V' ∷ []
letters link_relay = b'B' ∷ []
letters file_register = b'R' ∷ []
letters step_relay = b'S' ∷ []
letters accumulative_timer_value = b'S' ∷ b'N' ∷ []
letters accumulative_timer_contact = b'S' ∷ b'S' ∷ []
letters accumulative_timer_coil = b'S' ∷ b'C' ∷ []
letters index_register = b'Z' ∷ []
letters file_register_area = b'Z' ∷ b'R' ∷ []
letters timer_coil = b'T' ∷ b'C' ∷ []
letters timer_contact = b'T' ∷ b'S' ∷ []
letters timer_value = b'T' ∷ b'N' ∷ []
letters counter_value = b'C' ∷ b'N' ∷ []
letters counter_contact = b'C' ∷ b'S' ∷ []
letters counter_coil = b'C' ∷ b'C' ∷ []

abbrev pub device_code : Device → ℕ
device_code intermediate_relay = 0x90
device_code input_relay = 0x9c
device_code output_relay = 0x9d
device_code data_register = 0xa8
device_code link_register = 0xb4
device_code latch_relay = 0x92
device_code annunciator = 0x93
device_code edge_relay = 0x94
device_code link_relay = 0xa0
device_code file_register = 0xaf
device_code step_relay = 0x98
device_code accumulative_timer_value = 0xc8
device_code accumulative_timer_contact = 0xc7
device_code accumulative_timer_coil = 0xc6
device_code index_register = 0xcc
device_code file_register_area = 0xb0
device_code timer_coil = 0xc0
device_code timer_contact = 0xc1
device_code timer_value = 0xc2
device_code counter_value = 0xc5
device_code counter_contact = 0xc4
device_code counter_coil = 0xc3

abbrev pub number_base : Device → ℕ
number_base input_relay = 16
number_base output_relay = 16
number_base link_register = 16
number_base link_relay = 16
number_base file_register_area = 16
number_base _ = 10

-- The two characters: a device of one letter is padded with a star.
abbrev pub padded : List ℕ → List ℕ
padded (c ∷ []) = c ∷ b'*' ∷ []
padded cs = cs

-- A digit as a character, and a device's letters in either case.
abbrev pub digit_char : ℕ → ℕ
digit_char n = if ltb n 10 then n + 48 else n + 55

abbrev pub spelled : Bool → Device → List ℕ
spelled true dev = letters dev
spelled false dev = map (λ (c : ℕ). c + 32) (letters dev)

-- The number that digits stand for, most significant first.
abbrev pub number_from : ℕ → ℕ → List ℕ → ℕ
number_from base acc [] = acc
number_from base acc (n ∷ ns) = number_from base (acc * base + n) ns

abbrev pub number_of : ℕ → List ℕ → ℕ
number_of base ns = number_from base 0 ns

-- the letters with which a device begins, in either case
abbrev pub initials : List ℕ
initials =
    b'M' ∷ b'X' ∷ b'Y' ∷ b'D' ∷ b'W' ∷ b'L' ∷ b'F' ∷ b'V' ∷ b'B' ∷ b'R' ∷ b'S' ∷ b'Z' ∷ b'T' ∷ b'C'
    ∷ b'm' ∷ b'x' ∷ b'y' ∷ b'd' ∷ b'w' ∷ b'l' ∷ b'f' ∷ b'v' ∷ b'b' ∷ b'r' ∷ b's' ∷ b'z' ∷ b't'
    ∷ b'c' ∷ []

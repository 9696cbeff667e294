-- ===== src/Address.antt =====
-- melsec_mc_net/melsec_mc_comm.c: from the text of a device address to the fields of a command.
-- A C string is the list of its characters, without the terminator, and NULL is `none`. An `int` is
-- its bit pattern; `long` has 64 bits.
pub mod Strtol
pub mod Length
pub mod Devices
pub mod Digits
pub mod Parse
use Strtol.{strtol}
use melsec_mc_net.Prelude.{
  ℕ, ◌-◌, ◌==◌, ◌||◌, if◌then◌else◌, Bool, Option, none, some, List, [], ◌∷◌, ◌++◌, length,
  replicate,
}
use melsec_mc_net.Words.{u32}

-- `melsec_mc_data_type`; `ascii_code` has ten characters.
pub record DataType : Type 0 where
  pub data_code : ℕ
  pub data_type : ℕ
  pub ascii_code : List ℕ
  pub from_base : ℕ

-- `melsec_mc_address_data`
pub record AddressData : Type 0 where
  pub data_type : DataType
  pub address_start : ℕ
  pub length : ℕ

-- `memset` of the structure, then `strcpy` of the text.
unfoldable pub mc_create_data_type : ℕ → ℕ → List ℕ → ℕ → DataType
mc_create_data_type code type ascii_code from_base = record {
  data_code = code;
  data_type = type;
  ascii_code = ascii_code ++ replicate (10 - length ascii_code) 0;
  from_base = from_base;
}

-- what `memset` leaves
abbrev pub zeroed : DataType
zeroed = record { data_code = 0; data_type = 0; ascii_code = replicate 10 0; from_base = 0 }

-- The cast of a `long` to `int` keeps the low 32 bits.
unfoldable pub mc_convert_string_to_int : List ℕ → ℕ → ℕ
unfolding strtol
mc_convert_string_to_int address frombase = u32 (strtol address frombase)

-- `rejected` is the result false; `fault` is a read behind the terminator of the string.
pub data Analysis : Type 0 where
  rejected : Analysis
  parsed : AddressData → Analysis
  fault : Analysis

-- one `case` of the switch, from its data type and `real_addr`
unfoldable pub located : ℕ → DataType → List ℕ → Analysis
unfolding mc_convert_string_to_int
located length t real_addr = parsed (record {
  data_type = t;
  address_start = mc_convert_string_to_int real_addr t.from_base;
  length = length;
})

-- `c` is the letter, in upper or lower case.
abbrev pub is_letter : ℕ → ℕ → ℕ → Bool
is_letter c upper lower = c == upper || c == lower

-- `address[1]`, where the terminator is a character too
abbrev pub second : List ℕ → ℕ
second [] = 0
second (c ∷ cs) = c

-- `address + 2`, where there is a second character
abbrev pub tail : List ℕ → List ℕ
tail [] = []
tail (c ∷ cs) = cs

-- case 'S'
unfoldable pub analyse_s : ℕ → List ℕ → Analysis
unfolding located mc_create_data_type
analyse_s len rest =
    if is_letter (second rest) b'N' b'n'
    then located len (mc_create_data_type 0xc8 0x00 (b'S' ∷ b'N' ∷ []) 10) (tail rest)
    else if is_letter (second rest) b'S' b's'
    then located len (mc_create_data_type 0xc7 0x01 (b'S' ∷ b'S' ∷ []) 10) (tail rest)
    else if is_letter (second rest) b'C' b'c'
    then located len (mc_create_data_type 0xc6 0x01 (b'S' ∷ b'C' ∷ []) 10) (tail rest)
    else located len (mc_create_data_type 0x98 0x01 (b'S' ∷ b'*' ∷ []) 10) rest

-- case 'Z'
unfoldable pub analyse_z : ℕ → List ℕ → Analysis
unfolding located mc_create_data_type
analyse_z len rest =
    if is_letter (second rest) b'R' b'r'
    then located len (mc_create_data_type 0xb0 0x00 (b'Z' ∷ b'R' ∷ []) 16) (tail rest)
    else located len (mc_create_data_type 0xcc 0x00 (b'Z' ∷ b'*' ∷ []) 10) rest

-- case 'T': `address + 2` points behind the terminator if there is no second character.
unfoldable pub analyse_t : ℕ → List ℕ → Analysis
unfolding located mc_create_data_type
analyse_t len [] = fault
analyse_t len (c ∷ real_addr) =
    if is_letter c b'C' b'c'
    then located len (mc_create_data_type 0xc0 0x01 (b'T' ∷ b'C' ∷ []) 10) real_addr
    else if is_letter c b'S' b's'
    then located len (mc_create_data_type 0xc1 0x01 (b'T' ∷ b'S' ∷ []) 10) real_addr
    else if is_letter c b'N' b'n'
    then located len (mc_create_data_type 0xc2 0x01 (b'T' ∷ b'N' ∷ []) 10) real_addr
    else located len zeroed real_addr

-- case 'C'
unfoldable pub analyse_c : ℕ → List ℕ → Analysis
unfolding located mc_create_data_type
analyse_c len [] = fault
analyse_c len (c ∷ real_addr) =
    if is_letter c b'N' b'n'
    then located len (mc_create_data_type 0xc5 0x01 (b'C' ∷ b'N' ∷ []) 10) real_addr
    else if is_letter c b'S' b's'
    then located len (mc_create_data_type 0xc4 0x01 (b'C' ∷ b'S' ∷ []) 10) real_addr
    else if is_letter c b'C' b'c'
    then located len (mc_create_data_type 0xc3 0x01 (b'C' ∷ b'C' ∷ []) 10) real_addr
    else located len zeroed real_addr

-- the switch on the first character
unfoldable pub analyse : ℕ → ℕ → List ℕ → Analysis
unfolding located mc_create_data_type analyse_s analyse_z analyse_t analyse_c
analyse len c rest =
    if is_letter c b'M' b'm'
    then located len (mc_create_data_type 0x90 0x01 (b'M' ∷ b'*' ∷ []) 10) rest
    else if is_letter c b'X' b'x'
    then located len (mc_create_data_type 0x9c 0x01 (b'X' ∷ b'*' ∷ []) 16) rest
    else if is_letter c b'Y' b'y'
    then located len (mc_create_data_type 0x9d 0x01 (b'Y' ∷ b'*' ∷ []) 16) rest
    else if is_letter c b'D' b'd'
    then located len (mc_create_data_type 0xa8 0x01 (b'D' ∷ b'*' ∷ []) 10) rest
    else if is_letter c b'W' b'w'
    then located len (mc_create_data_type 0xb4 0x00 (b'W' ∷ b'*' ∷ []) 16) rest
    else if is_letter c b'L' b'l'
    then located len (mc_create_data_type 0x92 0x01 (b'L' ∷ b'*' ∷ []) 10) rest
    else if is_letter c b'F' b'f'
    then located len (mc_create_data_type 0x93 0x01 (b'F' ∷ b'*' ∷ []) 10) rest
    else if is_letter c b'V' b'v'
    then located len (mc_create_data_type 0x94 0x01 (b'V' ∷ b'*' ∷ []) 10) rest
    else if is_letter c b'B' b'b'
    then located len (mc_create_data_type 0xa0 0x01 (b'B' ∷ b'*' ∷ []) 16) rest
    else if is_letter c b'R' b'r'
    then located len (mc_create_data_type 0xaf 0x01 (b'R' ∷ b'*' ∷ []) 10) rest
    else if is_letter c b'S' b's'
    then analyse_s len rest
    else if is_letter c b'Z' b'z'
    then analyse_z len rest
    else if is_letter c b'T' b't'
    then analyse_t len rest
    else if is_letter c b'C' b'c'
    then analyse_c len rest
    else parsed (record { data_type = zeroed; address_start = 0; length = len })

unfoldable pub mc_analysis_address : Option (List ℕ) → ℕ → Analysis
unfolding analyse
mc_analysis_address none length = rejected
mc_analysis_address (some []) length = rejected
mc_analysis_address (some (c ∷ rest)) length = analyse length c rest

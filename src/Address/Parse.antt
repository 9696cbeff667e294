-- ===== src/Address/Parse.antt =====
-- What `mc_analysis_address` does with a device of the table, and with anything else.
use melsec_mc_net.Prelude.{
  ℕ, ◌-◌, ◌^◌, ◌≤◌, ◌<◌, ◌==◌, ◌≡◌, refl, ap, ◌≢◌, Bool, true, false, none, some, List, [], ◌∷◌,
  ◌++◌, map, arith, All, length, replicate,
}
use melsec_mc_net.Address.{
  DataType, zeroed, second, mc_create_data_type, mc_convert_string_to_int, Analysis, rejected,
  parsed, located, analyse_s, analyse_z, mc_analysis_address,
}
use melsec_mc_net.Address.Devices.{
  Device, intermediate_relay, input_relay, output_relay, link_register, link_relay, step_relay,
  accumulative_timer_value, index_register, file_register_area, letters, device_code, number_base,
  padded, digit_char, spelled, number_of, initials,
}
use melsec_mc_net.Address.Digits.{strtol_ten, strtol_sixteen}

module _ (len code type : ℕ) (text ns : List ℕ) where
  abbrev found : ℕ → Analysis
  found base = parsed (record {
    data_type = mc_create_data_type code type text base;
    address_start = number_of base ns;
    length = len;
  })

  located_ten :
      All (λ n. n < 10) ns
      → number_of 10 ns < 2 ^ 31
      → located len (mc_create_data_type code type text 10) (map digit_char ns) ≡ found 10
  unfolding located mc_convert_string_to_int mc_create_data_type
  located_ten h fits = rw (strtol_ten ns h) (ap start_at (omega arith))
    where
      start_at : ℕ → Analysis
      start_at a = parsed (record {
        data_type = mc_create_data_type code type text 10;
        address_start = a;
        length = len;
      })

  located_sixteen :
      All (λ n. n < 16) ns
      → number_of 16 ns < 2 ^ 31
      → located len (mc_create_data_type code type text 16) (map digit_char ns) ≡ found 16
  unfolding located mc_convert_string_to_int mc_create_data_type
  located_sixteen h fits = rw (strtol_sixteen ns h) (ap start_at (omega arith))
    where
      start_at : ℕ → Analysis
      start_at a = parsed (record {
        data_type = mc_create_data_type code type text 16;
        address_start = a;
        length = len;
      })

-- A decimal digit is none of the second letters.
second_is_digit :
    (ns : List ℕ) (c : ℕ)
    → All (λ n. n < 10) ns
    → 58 ≤ c
    → (second (map digit_char ns) == c) ≡ false
second_is_digit [] c h le = ground arith
second_is_digit (n ∷ ns) c h le = ground arith

-- What the analysis of a device's address has to be.
abbrev pub Names : Analysis → Device → List ℕ → ℕ → Type 0
Names a dev ns len =
    (t : DataType) × (a
      ≡ parsed
          (record { data_type = t; address_start = number_of (number_base dev) ns; length = len }))
    × (t.data_code ≡ device_code dev)
    × (t.ascii_code ≡ padded (letters dev) ++ replicate 8 0)
    × (t.from_base ≡ number_base dev)

-- the field `data_type` that the code gives the device
abbrev unit_of : Device → ℕ
unit_of link_register = 0
unit_of accumulative_timer_value = 0
unit_of index_register = 0
unit_of file_register_area = 0
unit_of _ = 1

Names-found :
    (a : Analysis) (dev : Device) (ns : List ℕ) (len : ℕ)
    → a ≡ found len (device_code dev) (unit_of dev) (padded (letters dev)) ns (number_base dev)
    → Names a dev ns len
unfolding mc_create_data_type
Names-found a dev ns len e = (
  mc_create_data_type (device_code dev) (unit_of dev) (padded (letters dev)) (number_base dev),
  e,
  refl,
  padded_text dev,
  refl,
)
  where
    padded_text :
        (dev : Device)
        → padded (letters dev) ++ replicate (10 - length (padded (letters dev))) 0
          ≡ padded (letters dev) ++ replicate 8 0
    padded_text intermediate_relay = refl
    padded_text _ = refl

module _ (ns : List ℕ) (len : ℕ) where
  step_relay_read :
      All (λ n. n < 10) ns
      → number_of 10 ns < 2 ^ 31
      → analyse_s len (map digit_char ns) ≡ found len 0x98 1 (b'S' ∷ b'*' ∷ []) ns 10
  unfolding analyse_s
  step_relay_read h fits =
      simp
        (
          second_is_digit ns b'N' h (omega arith),
          second_is_digit ns b'n' h (omega arith),
          second_is_digit ns b'S' h (omega arith),
          second_is_digit ns b's' h (omega arith),
          second_is_digit ns b'C' h (omega arith),
          second_is_digit ns b'c' h (omega arith),
        )
        (located_ten len 0x98 1 (b'S' ∷ b'*' ∷ []) ns h fits)

  index_register_read :
      All (λ n. n < 10) ns
      → number_of 10 ns < 2 ^ 31
      → analyse_z len (map digit_char ns) ≡ found len 0xcc 0 (b'Z' ∷ b'*' ∷ []) ns 10
  unfolding analyse_z
  index_register_read h fits =
      simp (second_is_digit ns b'R' h (omega arith), second_is_digit ns b'r' h (omega arith))
        (located_ten len 0xcc 0 (b'Z' ∷ b'*' ∷ []) ns h fits)

found_by_analysis :
    (upper : Bool) (dev : Device) (ns : List ℕ) (len : ℕ)
    → All (λ n. n < number_base dev) ns
    → number_of (number_base dev) ns < 2 ^ 31
    → mc_analysis_address (some (spelled upper dev ++ map digit_char ns)) len
      ≡ found len (device_code dev) (unit_of dev) (padded (letters dev)) ns (number_base dev)
unfolding mc_analysis_address
found_by_analysis true step_relay ns len h fits = step_relay_read ns len h fits
found_by_analysis false step_relay ns len h fits = step_relay_read ns len h fits
found_by_analysis true index_register ns len h fits = index_register_read ns len h fits
found_by_analysis false index_register ns len h fits = index_register_read ns len h fits
found_by_analysis true input_relay ns len h fits =
    located_sixteen len 0x9c 1 (b'X' ∷ b'*' ∷ []) ns h fits
found_by_analysis false input_relay ns len h fits =
    located_sixteen len 0x9c 1 (b'X' ∷ b'*' ∷ []) ns h fits
found_by_analysis true output_relay ns len h fits =
    located_sixteen len 0x9d 1 (b'Y' ∷ b'*' ∷ []) ns h fits
found_by_analysis false output_relay ns len h fits =
    located_sixteen len 0x9d 1 (b'Y' ∷ b'*' ∷ []) ns h fits
found_by_analysis true link_register ns len h fits =
    located_sixteen len 0xb4 0 (b'W' ∷ b'*' ∷ []) ns h fits
found_by_analysis false link_register ns len h fits =
    located_sixteen len 0xb4 0 (b'W' ∷ b'*' ∷ []) ns h fits
found_by_analysis true link_relay ns len h fits =
    located_sixteen len 0xa0 1 (b'B' ∷ b'*' ∷ []) ns h fits
found_by_analysis false link_relay ns len h fits =
    located_sixteen len 0xa0 1 (b'B' ∷ b'*' ∷ []) ns h fits
found_by_analysis true file_register_area ns len h fits =
    located_sixteen len 0xb0 0 (b'Z' ∷ b'R' ∷ []) ns h fits
found_by_analysis false file_register_area ns len h fits =
    located_sixteen len 0xb0 0 (b'Z' ∷ b'R' ∷ []) ns h fits
found_by_analysis _ dev ns len h fits =
    located_ten len (device_code dev) (unit_of dev) (padded (letters dev)) ns h fits

-- An address that spells a device of the table, in upper or in lower case, followed by the digits of
-- a number below 2 ^ 31 in the device's base, is parsed to that device's code, text and base, to that
-- number and to the length that the caller gives.
pub mc_analysis_address-Names :
    (upper : Bool) (dev : Device) (ns : List ℕ) (len : ℕ)
    → All (λ n. n < number_base dev) ns
    → number_of (number_base dev) ns < 2 ^ 31
    → Names (mc_analysis_address (some (spelled upper dev ++ map digit_char ns)) len) dev ns len
mc_analysis_address-Names upper dev ns len h fits =
    Names-found _ dev ns len (found_by_analysis upper dev ns len h fits)

-- NULL and the empty text are rejected; a text that begins with no device's
-- letter is accepted, and parsed to a device code, a base and a number that are all zero.
pub mc_analysis_address-unknown :
    (c : ℕ) (rest : List ℕ) (len : ℕ)
    → All (λ k. c ≢ k) initials
    → (mc_analysis_address none len ≡ rejected)
      × (mc_analysis_address (some []) len ≡ rejected)
      × (mc_analysis_address (some (c ∷ rest)) len
          ≡ parsed (record { data_type = zeroed; address_start = 0; length = len }))
unfolding mc_analysis_address
mc_analysis_address-unknown c rest len h = (refl, refl, ground arith)

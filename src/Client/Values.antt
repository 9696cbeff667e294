-- ===== src/Client/Values.antt =====
-- Reads and writes of an address, in bytes.
use melsec_mc_net.Prelude.{ℕ, ◌&&◌, if◌then◌else◌, Bool, true, false, Option, none, some, List}
use melsec_mc_net.Address.{AddressData, Analysis, rejected, parsed, fault, mc_analysis_address}
use melsec_mc_net.Machine.{
  M, ◌>>=◌, pure, undefined, Buffer, ErrorCode, success, invalid_parameter, parse_address_failed,
}
use melsec_mc_net.Socket.{is_positive}
use melsec_mc_net.Command.{
  build_read_core_command, build_write_word_core_command, build_write_bit_core_command,
  extract_actual_bool_data,
}
use melsec_mc_net.Response.{mc_parse_read_response, mc_parse_write_response}
use melsec_mc_net.Transaction.{exchange}

-- The address data, or `none` for the result false.
unfoldable pub analysed : Analysis → M (Option AddressData)
analysed rejected = pure none
analysed (parsed a) = pure (some a)
analysed fault = undefined

abbrev pub Text : Type 0
Text = Option (List ℕ)

-- Whether a pointer is not NULL.
abbrev pub given {ℓ} : {A : Type ℓ} → Option A → Bool
given none = false
given (some a) = true

abbrev pub nothing_stored : Buffer → ErrorCode → ErrorCode × Buffer
nothing_stored before code = (code, before)

unfoldable pub parse_bits : Buffer → Buffer → M (ErrorCode × Buffer)
parse_bits before response = do
  result ← mc_parse_read_response response true before
  elim result.0 [
    | success ↦ (do bits ← extract_actual_bool_data result.1; pure (success, bits))
    | code ↦ pure (code, result.1)
  ]

unfoldable pub read_bool_value : ℕ → Text → ℕ → Buffer → M (ErrorCode × Buffer)
read_bool_value fd address length before =
    if is_positive fd && given address && is_positive length
    then (do
      found ← analysed (mc_analysis_address address length)
      elim found [
        | none ↦ pure (parse_address_failed, before)
        | some a ↦ (do
          core_cmd ← build_read_core_command a true
          exchange fd (nothing_stored before) (parse_bits before) core_cmd)
      ])
    else pure (invalid_parameter, before)

unfoldable pub read_address_data : ℕ → AddressData → Buffer → M (ErrorCode × Buffer)
read_address_data fd a before =
    if is_positive fd
    then (do
      core_cmd ← build_read_core_command a false
      exchange fd (nothing_stored before) (λ response. mc_parse_read_response response true before)
          core_cmd)
    else pure (invalid_parameter, before)

unfoldable pub read_word_value : ℕ → Text → ℕ → Buffer → M (ErrorCode × Buffer)
read_word_value fd address length before =
    if is_positive fd && given address && is_positive length
    then (do
      found ← analysed (mc_analysis_address address length)
      elim found [
        | none ↦ pure (parse_address_failed, before)
        | some a ↦ read_address_data fd a before
      ])
    else pure (invalid_parameter, before)

-- the parser that every write ends with
unfoldable pub parse_code : Buffer → M ErrorCode
parse_code response = do result ← mc_parse_write_response response false none; pure result.0

abbrev pub the_code : ErrorCode → ErrorCode
the_code code = code

unfoldable pub write_bool_value : ℕ → Text → ℕ → Option (List Bool) → M ErrorCode
write_bool_value fd address length in_bytes =
    if is_positive fd && given address && is_positive length && given in_bytes
    then (do
      found ← analysed (mc_analysis_address address length)
      elim found [
        | none ↦ pure parse_address_failed
        | some a ↦ (do
          core_cmd ← build_write_bit_core_command a in_bytes
          exchange fd the_code parse_code core_cmd)
      ])
    else pure invalid_parameter

unfoldable pub write_address_data : ℕ → AddressData → Buffer → M ErrorCode
write_address_data fd a in_bytes = do
  core_cmd ← build_write_word_core_command a in_bytes
  exchange fd the_code parse_code core_cmd

-- It leaves the descriptor and the pointers to the functions that it calls.
unfoldable pub write_word_value : ℕ → Text → ℕ → Buffer → M ErrorCode
write_word_value fd address length in_bytes = do
  found ← analysed (mc_analysis_address address length)
  elim found [ none ↦ pure parse_address_failed | some a ↦ write_address_data fd a in_bytes ]

-- ===== src/Ascii/Values.antt =====
-- melsec_mc_net/melsec_mc_ascii.c: reads and writes of an address, in bytes, and the raw commands.
pub mod Safety
use melsec_mc_net.Prelude.{
  ℕ, ltb, ◌&&◌, if◌then◌else◌, Bool, true, false, Option, none, some, List, [], length,
}
use melsec_mc_net.Address.{AddressData, mc_analysis_address}
use melsec_mc_net.Machine.{
  M, ◌>>=◌, ◌>>◌, pure, Buffer, ErrorCode, success, invalid_parameter, parse_address_failed,
  build_core_cmd_failed, response_header_failed,
}
use melsec_mc_net.Socket.{is_positive}
use melsec_mc_net.Response.{Reply, release}
use melsec_mc_net.Transaction.{response_buffer}
use melsec_mc_net.Client.{Text, given, analysed, nothing_stored, the_code}
use melsec_mc_net.Ascii.Command.{
  mc_ascii_build_core_from_le_words, mc_ascii_build_read_core_command,
  mc_ascii_build_write_word_core_command, mc_ascii_build_write_bit_core_command,
  pack_mc_ascii_command,
}
use melsec_mc_net.Ascii.Response.{
  ascii_min_response_header_size, ascii_send_and_receive_transaction, mc_ascii_parse_read_response,
  mc_ascii_parse_write_response,
}

-- The text that is common to the functions that exchange a command. A read asks for `least` characters of
-- response; the others do not ask, and have 0 here.
module _ {ℓ} {A : Type ℓ} (fd : ℕ) (fails : ErrorCode → A) (least : ℕ) (parse : Buffer → M A) where
  unfoldable pub ascii_finish : Reply → M A
  ascii_finish reply = elim reply.code [
    | success ↦
        if ltb reply.read_count least
        then (do release reply.response; pure (fails response_header_failed))
        else (do
          parsed ← parse (response_buffer reply.response)
          release reply.response
          pure parsed)
    | code ↦ (do release reply.response; pure (fails code))
  ]

  unfoldable pub ascii_exchange : Buffer → M A
  ascii_exchange core_cmd w =
      (do
        cmd ←
            pack_mc_ascii_command core_cmd w.network_address.network_number
              w.network_address.station_number
        elim cmd [
          | none ↦ pure (fails build_core_cmd_failed)
          | some bytes ↦ (do
            reply ← ascii_send_and_receive_transaction fd (some bytes)
            ascii_finish reply)
        ])
        w

-- An exchange of a core command, unless it could not be built.
unfoldable pub ascii_call {ℓ} :
    {A : Type ℓ} → ℕ → (ErrorCode → A) → ℕ → (Buffer → M A) → M Buffer → M A
ascii_call fd fails least parse build = do
  core_cmd ← build
  elim core_cmd [
    | none ↦ pure (fails build_core_cmd_failed)
    | some bytes ↦ ascii_exchange fd fails least parse (some bytes)
  ]

unfoldable pub ascii_read_value : Bool → ℕ → Text → ℕ → Buffer → M (ErrorCode × Buffer)
ascii_read_value is_bit fd address length before =
    if is_positive fd && given address && is_positive length
    then (do
      found ← analysed (mc_analysis_address address length)
      elim found [
        | none ↦ pure (parse_address_failed, before)
        | some a ↦
            ascii_call fd (nothing_stored before) ascii_min_response_header_size
              (λ response. mc_ascii_parse_read_response response is_bit before)
              (mc_ascii_build_read_core_command a is_bit)
      ])
    else pure (invalid_parameter, before)

unfoldable pub ascii_read_bool_value : ℕ → Text → ℕ → Buffer → M (ErrorCode × Buffer)
ascii_read_bool_value = ascii_read_value true

unfoldable pub ascii_read_word_value : ℕ → Text → ℕ → Buffer → M (ErrorCode × Buffer)
ascii_read_word_value = ascii_read_value false

-- the parser that every write ends with
unfoldable pub ascii_parse_code : Buffer → M ErrorCode
ascii_parse_code response = do
  result ← mc_ascii_parse_write_response response false none
  pure result.0

unfoldable pub ascii_write_bool_value : ℕ → Text → ℕ → Option (List Bool) → M ErrorCode
ascii_write_bool_value fd address length in_bytes =
    if is_positive fd && given address && is_positive length && given in_bytes
    then (do
      found ← analysed (mc_analysis_address address length)
      elim found [
        | none ↦ pure parse_address_failed
        | some a ↦
            ascii_call fd the_code 0 ascii_parse_code
              (mc_ascii_build_write_bit_core_command a in_bytes)
      ])
    else pure invalid_parameter

unfoldable pub ascii_write_word_value : ℕ → Text → ℕ → Buffer → M ErrorCode
ascii_write_word_value fd address length in_bytes =
    if is_positive fd && given address && is_positive length && given in_bytes
    then (do
      found ← analysed (mc_analysis_address address length)
      elim found [
        | none ↦ pure parse_address_failed
        | some a ↦
            ascii_call fd the_code 0 ascii_parse_code
              (mc_ascii_build_write_word_core_command a in_bytes)
      ])
    else pure invalid_parameter

-- `wanted` is whether `out_payload` is not NULL; it points at NULL before.
unfoldable pub mc_ascii_execute_raw_command : ℕ → List ℕ → Bool → M (ErrorCode × Buffer)
mc_ascii_execute_raw_command fd raw_cmd wanted =
    if is_positive fd && ltb 0 (length raw_cmd)
    then ascii_call fd (nothing_stored none) 0
        (λ response. mc_ascii_parse_write_response response wanted none)
        (mc_ascii_build_core_from_le_words raw_cmd)
    else pure (invalid_parameter, none)

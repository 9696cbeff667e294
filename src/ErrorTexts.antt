-- ===== src/ErrorTexts.antt =====
-- melsec_mc_net/error_handler.c: the texts of the error codes. A code is an `int` by its bit pattern.
pub mod Agree
use melsec_mc_net.Prelude.{ℕ, ◌==◌, if◌then◌else◌, Option, none, some, List, [], ◌∷◌}
use Prim.Native.String.{String}
use melsec_mc_net.Machine.{
  ErrorCode, success, error_failed, malloc_failed, invalid_parameter, parse_address_failed,
  build_core_cmd_failed, socket_send_failed, socket_recv_failed, response_header_failed,
  connection_closed, unknown_error,
}

-- The number of a code in `mc_error_code_e`.
unfoldable pub number : ErrorCode → ℕ
number success = 0
number error_failed = 1
number malloc_failed = 2
number invalid_parameter = 3
number parse_address_failed = 4
number build_core_cmd_failed = 5
number socket_send_failed = 6
number socket_recv_failed = 7
number response_header_failed = 8
number connection_closed = 9
number unknown_error = 99

-- `mc_error_info_t`
pub record ErrorInfo : Type 0 where
  pub code : ℕ
  pub message : String
  pub recovery_hint : String

abbrev info : ErrorCode → String → String → ErrorInfo
info c m h = record { code = number c; message = m; recovery_hint = h }

unfoldable pub error_info_table : List ErrorInfo
unfolding number
error_info_table =
    info success "Operation successful" "No recovery needed"
    ∷ info error_failed "Operation failed"
        "Please check PLC connection status and communication parameters"
    ∷ info malloc_failed "Memory allocation error" "Please check system memory usage"
    ∷ info invalid_parameter "Parameter error" "Please check if input parameters are correct"
    ∷ info parse_address_failed "Address parsing error"
        "Please check if PLC address format is correct"
    ∷ info build_core_cmd_failed "Core command building error"
        "Please check if command format is correct"
    ∷ info socket_send_failed "Command sending error" "Please check if network connection is normal"
    ∷ info socket_recv_failed "Command receiving error"
        "Please check if network connection is normal"
    ∷ info response_header_failed "Incomplete response header error"
        "Please check if PLC response data is correct"
    ∷ info connection_closed "Connection closed" "Please check if network connection is normal"
    ∷ info unknown_error "Unknown error" "Please contact technical support"
    ∷ []

-- The loop that the three functions share: the first entry of the code.
unfoldable pub find_info : ℕ → List ErrorInfo → Option ErrorInfo
find_info code [] = none
find_info code (e ∷ entries) =
    let rest = find_info code entries in if e.code == code then some e else rest

unfoldable pub mc_get_error_message : ℕ → String
mc_get_error_message error_code = elim (find_info error_code error_info_table) [
  | none ↦ "Undefined error"
  | some e ↦ e.message
]

unfoldable pub mc_get_error_recovery_hint : ℕ → String
mc_get_error_recovery_hint error_code = elim (find_info error_code error_info_table) [
  | none ↦ "Please contact technical support"
  | some e ↦ e.recovery_hint
]

unfoldable pub mc_get_error_info : ℕ → ErrorInfo
unfolding number
mc_get_error_info error_code = elim (find_info error_code error_info_table) [
  | none ↦ info unknown_error "Undefined error" "Please contact technical support"
  | some e ↦ e
]

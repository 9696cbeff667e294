-- ===== src/Client/Remote.antt =====
-- Remote control of the PLC, and its type.
use melsec_mc_net.Prelude.{ℕ, ◌++◌, if◌then◌else◌, true, none, some, List, [], ◌∷◌}
use melsec_mc_net.Machine.{
  M, ◌>>=◌, pure, undefined, alloc, Buffer, ErrorCode, success, malloc_failed, invalid_parameter,
}
use melsec_mc_net.Socket.{is_positive}
use melsec_mc_net.Command.{contents}
use melsec_mc_net.Response.{mc_parse_write_response}
use melsec_mc_net.Transaction.{exchange}
use melsec_mc_net.Client.Values.{parse_code, the_code}

-- The copy of a constant command, checked for NULL, and its exchange.
unfoldable pub execute : ℕ → List ℕ → M ErrorCode
execute fd core_cmd_temp = do
  core_cmd ← alloc core_cmd_temp
  elim core_cmd [
    | none ↦ pure malloc_failed
    | some bytes ↦ exchange fd the_code parse_code (some bytes)
  ]

abbrev pub run_command : List ℕ
run_command = 0x01 ∷ 0x10 ∷ 0x00 ∷ 0x00 ∷ 0x01 ∷ 0x00 ∷ 0x00 ∷ 0x00 ∷ []

abbrev pub stop_command : List ℕ
stop_command = 0x02 ∷ 0x10 ∷ 0x00 ∷ 0x00 ∷ 0x01 ∷ 0x00 ∷ []

abbrev pub reset_command : List ℕ
reset_command = 0x06 ∷ 0x10 ∷ 0x00 ∷ 0x00 ∷ 0x01 ∷ 0x00 ∷ []

abbrev pub type_command : List ℕ
type_command = 0x01 ∷ 0x01 ∷ 0x00 ∷ 0x00 ∷ 0x01 ∷ 0x00 ∷ []

unfoldable pub mc_remote_run : ℕ → M ErrorCode
mc_remote_run fd = if is_positive fd then execute fd run_command else pure invalid_parameter

-- Neither the descriptor nor the memory is checked here: `memcpy` into NULL is undefined.
unfoldable pub mc_remote_stop : ℕ → M ErrorCode
mc_remote_stop fd = do
  core_cmd ← alloc stop_command
  elim core_cmd [ none ↦ undefined | some bytes ↦ exchange fd the_code parse_code (some bytes) ]

unfoldable pub mc_remote_reset : ℕ → M ErrorCode
mc_remote_reset fd = if is_positive fd then execute fd reset_command else pure invalid_parameter

-- The text is terminated by a zero byte.
unfoldable pub type_text : ErrorCode × Buffer → M (ErrorCode × Buffer)
type_text result = elim result.0 [
  | success ↦ (do
    out ← alloc (contents result.1 ++ 0 ∷ [])
    elim out [ none ↦ pure (malloc_failed, none) | some text ↦ pure (success, some text) ])
  | code ↦ pure (code, none)
]

abbrev pub no_type : ErrorCode → ErrorCode × Buffer
no_type code = (code, none)

unfoldable pub mc_read_plc_type : ℕ → M (ErrorCode × Buffer)
mc_read_plc_type fd =
    if is_positive fd
    then (do
      core_cmd ← alloc type_command
      elim core_cmd [
        | none ↦ pure (malloc_failed, none)
        | some bytes ↦
            exchange fd no_type
              (λ response. mc_parse_write_response response true none >>= type_text) (some bytes)
      ])
    else pure (invalid_parameter, none)

-- ===== src/Ascii/Typed.antt =====
-- melsec_mc_net/melsec_mc_ascii.c: the typed reads and writes, and remote control.
use melsec_mc_net.Prelude.{
  ℕ, ◌+◌, ◌/◌, ◌-◌, ltb, leb, ◌&&◌, ◌++◌, if◌then◌else◌, Bool, true, false, Option, none, some,
  List, [], ◌∷◌, length, take, replicate,
}
use melsec_mc_net.Words.Scalar.{
  Scalar, short, ushort, int32, uint32, int64, uint64, float, double, encode, decode,
}
use melsec_mc_net.Machine.{
  M, ◌>>=◌, pure, undefined, malloc, alloc, Buffer, buffer_length, ErrorCode, success,
  malloc_failed, invalid_parameter,
}
use melsec_mc_net.Socket.{is_positive}
use melsec_mc_net.Command.{contents}
use melsec_mc_net.Client.{
  Text, given, decoded, first_is_set, even_up, run_command, stop_command, reset_command,
  type_command,
}
use melsec_mc_net.Ascii.Values.{
  ascii_read_bool_value, ascii_read_word_value, ascii_write_bool_value, ascii_write_word_value,
  mc_ascii_execute_raw_command,
}

unfoldable pub mc_ascii_read_bool : ℕ → Text → M (ErrorCode × Option Bool)
mc_ascii_read_bool fd address =
    if is_positive fd && given address
    then (do result ← ascii_read_bool_value fd address 1 none; decoded first_is_set 1 result)
    else pure (invalid_parameter, none)

-- The text of the eight functions that follow, over the words that they ask for and the bytes
-- without which they store nothing.
unfoldable pub ascii_read_scalar : Scalar → ℕ → ℕ → ℕ → Text → M (ErrorCode × Option ℕ)
ascii_read_scalar type words minimum fd address =
    if is_positive fd && given address
    then (do
      result ← ascii_read_word_value fd address words none
      decoded (decode type) minimum result)
    else pure (invalid_parameter, none)

unfoldable pub mc_ascii_read_short : ℕ → Text → M (ErrorCode × Option ℕ)
mc_ascii_read_short = ascii_read_scalar short 1 2

unfoldable pub mc_ascii_read_ushort : ℕ → Text → M (ErrorCode × Option ℕ)
mc_ascii_read_ushort = ascii_read_scalar ushort 1 2

unfoldable pub mc_ascii_read_int32 : ℕ → Text → M (ErrorCode × Option ℕ)
mc_ascii_read_int32 = ascii_read_scalar int32 2 4

unfoldable pub mc_ascii_read_uint32 : ℕ → Text → M (ErrorCode × Option ℕ)
mc_ascii_read_uint32 = ascii_read_scalar uint32 2 4

unfoldable pub mc_ascii_read_int64 : ℕ → Text → M (ErrorCode × Option ℕ)
mc_ascii_read_int64 = ascii_read_scalar int64 4 8

unfoldable pub mc_ascii_read_uint64 : ℕ → Text → M (ErrorCode × Option ℕ)
mc_ascii_read_uint64 = ascii_read_scalar uint64 4 8

unfoldable pub mc_ascii_read_float : ℕ → Text → M (ErrorCode × Option ℕ)
mc_ascii_read_float = ascii_read_scalar float 2 4

unfoldable pub mc_ascii_read_double : ℕ → Text → M (ErrorCode × Option ℕ)
mc_ascii_read_double = ascii_read_scalar double 4 8

-- The string is terminated; the byte that rounds its length up is not copied.
unfoldable pub ascii_string_of : ℕ → ErrorCode × Buffer → M (ErrorCode × Buffer)
ascii_string_of length result = elim result.0 [
  | success ↦
      if leb (even_up length) (buffer_length result.1)
      then (do
        out ← alloc (take length (contents result.1) ++ replicate (even_up length + 1 - length) 0)
        pure (if given out then success else malloc_failed, out))
      else pure (success, none)
  | code ↦ pure (code, none)
]

unfoldable pub mc_ascii_read_string : ℕ → Text → ℕ → M (ErrorCode × Buffer)
mc_ascii_read_string fd address length =
    if is_positive fd && given address && is_positive length
    then (do
      result ← ascii_read_word_value fd address (even_up length / 2) none
      ascii_string_of length result)
    else pure (invalid_parameter, none)

unfoldable pub mc_ascii_write_bool : ℕ → Text → Bool → M ErrorCode
mc_ascii_write_bool fd address val =
    if is_positive fd && given address
    then (do
      ok ← malloc
      if ok then ascii_write_bool_value fd address 1 (some (val ∷ [])) else pure malloc_failed)
    else pure invalid_parameter

-- The text of the eight functions that follow; here the memory is checked.
unfoldable pub ascii_write_scalar : Scalar → ℕ → ℕ → Text → ℕ → M ErrorCode
ascii_write_scalar type words fd address val =
    if is_positive fd && given address
    then (do
      write_data ← alloc (encode type val)
      elim write_data [
        | none ↦ pure malloc_failed
        | some bytes ↦ ascii_write_word_value fd address words (some bytes)
      ])
    else pure invalid_parameter

unfoldable pub mc_ascii_write_short : ℕ → Text → ℕ → M ErrorCode
mc_ascii_write_short = ascii_write_scalar short 1

unfoldable pub mc_ascii_write_ushort : ℕ → Text → ℕ → M ErrorCode
mc_ascii_write_ushort = ascii_write_scalar ushort 1

unfoldable pub mc_ascii_write_int32 : ℕ → Text → ℕ → M ErrorCode
mc_ascii_write_int32 = ascii_write_scalar int32 2

unfoldable pub mc_ascii_write_uint32 : ℕ → Text → ℕ → M ErrorCode
mc_ascii_write_uint32 = ascii_write_scalar uint32 2

unfoldable pub mc_ascii_write_int64 : ℕ → Text → ℕ → M ErrorCode
mc_ascii_write_int64 = ascii_write_scalar int64 4

unfoldable pub mc_ascii_write_uint64 : ℕ → Text → ℕ → M ErrorCode
mc_ascii_write_uint64 = ascii_write_scalar uint64 4

unfoldable pub mc_ascii_write_float : ℕ → Text → ℕ → M ErrorCode
mc_ascii_write_float = ascii_write_scalar float 2

unfoldable pub mc_ascii_write_double : ℕ → Text → ℕ → M ErrorCode
mc_ascii_write_double = ascii_write_scalar double 4

-- `val` is the whole of the caller's memory: to copy more than there is, is undefined.
unfoldable pub mc_ascii_write_string : ℕ → Text → ℕ → Buffer → M ErrorCode
mc_ascii_write_string fd address len none = pure invalid_parameter
mc_ascii_write_string fd address len (some val) =
    if is_positive fd && given address && is_positive len
    then (do
      ok ← malloc
      elim ok [
        | false ↦ pure malloc_failed
        | true ↦
            if ltb (length val) len
            then undefined
            else ascii_write_word_value fd address (even_up len / 2)
                (some (take len val ++ replicate (even_up len - len) 0))
      ])
    else pure invalid_parameter

unfoldable pub ascii_remote : List ℕ → ℕ → M ErrorCode
ascii_remote raw_cmd fd = do result ← mc_ascii_execute_raw_command fd raw_cmd false; pure result.0

unfoldable pub mc_ascii_remote_run : ℕ → M ErrorCode
mc_ascii_remote_run = ascii_remote run_command

unfoldable pub mc_ascii_remote_stop : ℕ → M ErrorCode
mc_ascii_remote_stop = ascii_remote stop_command

unfoldable pub mc_ascii_remote_reset : ℕ → M ErrorCode
mc_ascii_remote_reset = ascii_remote reset_command

unfoldable pub mc_ascii_read_plc_type : ℕ → M (ErrorCode × Buffer)
mc_ascii_read_plc_type fd = do
  payload ← mc_ascii_execute_raw_command fd type_command true
  elim payload.0 [
    | success ↦ (do
      out ← alloc (contents payload.1 ++ 0 ∷ [])
      elim out [ none ↦ pure (malloc_failed, none) | some text ↦ pure (success, some text) ])
    | code ↦ pure (code, none)
  ]

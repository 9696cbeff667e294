-- ===== src/Client/Typed.antt =====
-- The typed reads and writes.
use melsec_mc_net.Prelude.{
  ℕ, ◌+◌, ◌/◌, ◌%◌, ◌-◌, ltb, leb, ◌==◌, ◌&&◌, ◌||◌, not, ◌++◌, if◌then◌else◌, Bool, true, false,
  Option, none, some, List, [], ◌∷◌, length, take, replicate,
}
use melsec_mc_net.Words.Scalar.{
  Scalar, short, ushort, int32, uint32, int64, uint64, float, double, encode, decode,
}
use melsec_mc_net.Machine.{
  M, ◌>>=◌, pure, undefined, checked, malloc, alloc, Buffer, buffer_length, ErrorCode, success,
  malloc_failed, invalid_parameter, build_core_cmd_failed,
}
use melsec_mc_net.Socket.{is_positive, is_negative}
use melsec_mc_net.Command.{contents}
use melsec_mc_net.Client.Values.{
  Text, given, read_bool_value, read_word_value, write_bool_value, write_word_value,
}

-- The value is decoded after a success, if the buffer has the bytes that the caller asks for.
unfoldable pub decoded {ℓ} :
    {A : Type ℓ} → (List ℕ → Option A) → ℕ → ErrorCode × Buffer → M (ErrorCode × Option A)
decoded read minimum result = elim result.0 [
  | success ↦
      if leb minimum (buffer_length result.1)
      then (do value ← checked (read (contents result.1)); pure (success, some value))
      else pure (success, none)
  | code ↦ pure (code, none)
]

abbrev pub first_is_set : List ℕ → Option Bool
first_is_set [] = none
first_is_set (b ∷ bytes) = some (not (b == 0))

unfoldable pub mc_read_bool : ℕ → Text → M (ErrorCode × Option Bool)
mc_read_bool fd address =
    if is_positive fd && given address
    then (do result ← read_bool_value fd address 1 none; decoded first_is_set 1 result)
    else pure (invalid_parameter, none)

-- The text of the eight functions that follow, over the words that they ask for and the bytes
-- without which they store nothing.
unfoldable pub read_scalar : Scalar → ℕ → ℕ → ℕ → Text → M (ErrorCode × Option ℕ)
read_scalar type words minimum fd address =
    if is_positive fd && given address
    then (do result ← read_word_value fd address words none; decoded (decode type) minimum result)
    else pure (invalid_parameter, none)

-- It is content with one byte.
unfoldable pub mc_read_short : ℕ → Text → M (ErrorCode × Option ℕ)
mc_read_short = read_scalar short 1 1

unfoldable pub mc_read_ushort : ℕ → Text → M (ErrorCode × Option ℕ)
mc_read_ushort = read_scalar ushort 1 2

unfoldable pub mc_read_int32 : ℕ → Text → M (ErrorCode × Option ℕ)
mc_read_int32 = read_scalar int32 2 4

unfoldable pub mc_read_uint32 : ℕ → Text → M (ErrorCode × Option ℕ)
mc_read_uint32 = read_scalar uint32 2 4

unfoldable pub mc_read_int64 : ℕ → Text → M (ErrorCode × Option ℕ)
mc_read_int64 = read_scalar int64 4 8

unfoldable pub mc_read_uint64 : ℕ → Text → M (ErrorCode × Option ℕ)
mc_read_uint64 = read_scalar uint64 4 8

unfoldable pub mc_read_float : ℕ → Text → M (ErrorCode × Option ℕ)
mc_read_float = read_scalar float 2 4

unfoldable pub mc_read_double : ℕ → Text → M (ErrorCode × Option ℕ)
mc_read_double = read_scalar double 4 8

-- An odd length is rounded up to whole words.
abbrev pub even_up : ℕ → ℕ
even_up length = if length % 2 == 1 then length + 1 else length

-- The string is not terminated.
unfoldable pub string_of : ℕ → ErrorCode × Buffer → M (ErrorCode × Buffer)
string_of read_len result = elim result.0 [
  | success ↦
      if leb read_len (buffer_length result.1)
      then (do
        text ← alloc (take read_len (contents result.1))
        pure (if given text then success else malloc_failed, text))
      else pure (success, none)
  | code ↦ pure (code, none)
]

unfoldable pub mc_read_string : ℕ → Text → ℕ → M (ErrorCode × Buffer)
mc_read_string fd address length =
    if is_positive fd && given address && is_positive length
    then (do
      result ← read_word_value fd address (even_up length / 2) none
      string_of (even_up length) result)
    else pure (invalid_parameter, none)

unfoldable pub mc_write_bool : ℕ → Text → Bool → M ErrorCode
mc_write_bool fd address val =
    if is_positive fd && given address
    then (do
      ok ← malloc
      if ok then write_bool_value fd address 1 (some (val ∷ [])) else pure malloc_failed)
    else pure invalid_parameter

-- The text of the eight functions that follow. The value is converted into memory that is not
-- checked: into NULL that is undefined.
unfoldable pub write_scalar : Scalar → ℕ → ℕ → Text → ℕ → M ErrorCode
write_scalar type words fd address val =
    if is_positive fd && given address
    then (do
      write_data ← alloc (encode type val)
      elim write_data [
        | none ↦ undefined
        | some bytes ↦ write_word_value fd address words (some bytes)
      ])
    else pure invalid_parameter

unfoldable pub mc_write_short : ℕ → Text → ℕ → M ErrorCode
mc_write_short = write_scalar short 1

unfoldable pub mc_write_ushort : ℕ → Text → ℕ → M ErrorCode
mc_write_ushort = write_scalar ushort 1

unfoldable pub mc_write_int32 : ℕ → Text → ℕ → M ErrorCode
mc_write_int32 = write_scalar int32 2

unfoldable pub mc_write_uint32 : ℕ → Text → ℕ → M ErrorCode
mc_write_uint32 = write_scalar uint32 2

unfoldable pub mc_write_int64 : ℕ → Text → ℕ → M ErrorCode
mc_write_int64 = write_scalar int64 4

unfoldable pub mc_write_uint64 : ℕ → Text → ℕ → M ErrorCode
mc_write_uint64 = write_scalar uint64 4

unfoldable pub mc_write_float : ℕ → Text → ℕ → M ErrorCode
mc_write_float = write_scalar float 2

unfoldable pub mc_write_double : ℕ → Text → ℕ → M ErrorCode
mc_write_double = write_scalar double 4

-- `val` is the whole of the caller's memory: to copy more than there is, is undefined. A negative
-- length asks for more memory than there can be.
unfoldable pub mc_write_string : ℕ → Text → ℕ → Buffer → M ErrorCode
mc_write_string fd address len none = pure invalid_parameter
mc_write_string fd address len (some val) =
    if not (is_positive fd && given address)
    then pure invalid_parameter
    else if is_negative len
    then pure build_core_cmd_failed
    else do
      ok ← malloc
      elim (not ok || ltb (length val) len) [
        | false ↦
            write_word_value fd address (even_up len / 2)
              (some (take len val ++ replicate (even_up len - len) 0))
        | true ↦ if ok then undefined else pure build_core_cmd_failed
      ]

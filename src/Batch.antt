-- ===== src/Batch.antt =====
-- melsec_mc_net/melsec_mc_bin_batch.c: reads and writes of several values. A result pointer is never NULL
-- here, and `none` beside a code stands for nothing stored.
pub mod Transfer
pub mod Bools
pub mod BitReads
use melsec_mc_net.Prelude.{
  ℕ, zero, suc, ◌*◌, ◌^◌, ◌<◌, ltb, leb, ◌==◌, ◌&&◌, not, ◌++◌, if◌then◌else◌, Bool, true, false,
  Option, none, some, List, [], ◌∷◌, length, take, drop, map,
}
use melsec_mc_net.Words.Scalar.{Scalar, short, ushort, int32, uint32, float, width, encode, decode}
use melsec_mc_net.Machine.{
  M, ◌>>=◌, pure, undefined, checked, malloc, buffer_length, ErrorCode, success, malloc_failed,
  invalid_parameter,
}
use melsec_mc_net.Socket.{is_positive}
use melsec_mc_net.Command.{contents}
use melsec_mc_net.Client.{
  Text, given, read_bool_value, read_word_value, write_bool_value, write_word_value,
}

-- A product of two positive `int`s: an overflow is undefined.
unfoldable pub int_product : ℕ → ℕ → M ℕ
int_product m n = if ltb (m * n) (2 ^ 31) then pure (m * n) else undefined

-- The loop that decodes one value after the other.
unfoldable pub read_values : (List ℕ → Option ℕ) → ℕ → ℕ → List ℕ → Option (List ℕ)
read_values read size zero bytes = some []
read_values read size (suc n) bytes = elim (read bytes) [
  | none ↦ none
  | some value ↦ elim (read_values read size n (drop size bytes)) [
    | none ↦ none
    | some values ↦ some (value ∷ values)
  ]
]

-- After a success with too few bytes, nothing is stored.
unfoldable pub store_values : Scalar → ℕ → List ℕ → M (ErrorCode × Option (List ℕ))
store_values type count bytes = do
  least ← int_product count (width type)
  elim (leb least (length bytes)) [
    | true ↦ (do
      values ← checked (read_values (decode type) (width type) count bytes)
      pure (success, some values))
    | false ↦ pure (success, none)
  ]

-- The text of the five functions that follow, over the words of a value.
unfoldable pub read_batch : Scalar → ℕ → ℕ → Text → ℕ → M (ErrorCode × Option (List ℕ))
read_batch type words fd address count =
    if is_positive fd && given address && is_positive count
    then (do
      points ← int_product count words
      result ← read_word_value fd address points none
      elim result.0 [
        | success ↦ store_values type count (contents result.1)
        | code ↦ pure (code, none)
      ])
    else pure (invalid_parameter, none)

unfoldable pub mc_read_short_batch : ℕ → Text → ℕ → M (ErrorCode × Option (List ℕ))
mc_read_short_batch = read_batch short 1

unfoldable pub mc_read_ushort_batch : ℕ → Text → ℕ → M (ErrorCode × Option (List ℕ))
mc_read_ushort_batch = read_batch ushort 1

unfoldable pub mc_read_int32_batch : ℕ → Text → ℕ → M (ErrorCode × Option (List ℕ))
mc_read_int32_batch = read_batch int32 2

unfoldable pub mc_read_uint32_batch : ℕ → Text → ℕ → M (ErrorCode × Option (List ℕ))
mc_read_uint32_batch = read_batch uint32 2

unfoldable pub mc_read_float_batch : ℕ → Text → ℕ → M (ErrorCode × Option (List ℕ))
mc_read_float_batch = read_batch float 2

unfoldable pub mc_read_bool_batch : ℕ → Text → ℕ → M (ErrorCode × Option (List Bool))
mc_read_bool_batch fd address count =
    if is_positive fd && given address && is_positive count
    then (do
      result ← read_bool_value fd address count none
      elim result.0 [
        | success ↦ pure (
          success,
          if leb count (buffer_length result.1)
              then some (map (λ b. not (b == 0)) (take count (contents result.1)))
              else none,
        )
        | code ↦ pure (code, none)
      ])
    else pure (invalid_parameter, none)

-- The bytes of the values, one behind the other.
unfoldable pub write_values : (ℕ → List ℕ) → List ℕ → List ℕ
write_values write [] = []
write_values write (v ∷ values) = write v ++ write_values write values

-- The text of the five functions that follow. `values` is the caller's memory: to read more than there
-- is, is undefined.
unfoldable pub write_batch : Scalar → ℕ → ℕ → Text → ℕ → Option (List ℕ) → M ErrorCode
write_batch type words fd address count none = pure invalid_parameter
write_batch type words fd address count (some values) =
    if is_positive fd && given address && is_positive count
    then (do
      size ← int_product count (width type)
      ok ← malloc
      elim ok [
        | false ↦ pure malloc_failed
        | true ↦
            if ltb (length values) count
            then undefined
            else write_word_value fd address (count * words)
                (some (write_values (encode type) (take count values)))
      ])
    else pure invalid_parameter

unfoldable pub mc_write_short_batch : ℕ → Text → ℕ → Option (List ℕ) → M ErrorCode
mc_write_short_batch = write_batch short 1

unfoldable pub mc_write_ushort_batch : ℕ → Text → ℕ → Option (List ℕ) → M ErrorCode
mc_write_ushort_batch = write_batch ushort 1

unfoldable pub mc_write_int32_batch : ℕ → Text → ℕ → Option (List ℕ) → M ErrorCode
mc_write_int32_batch = write_batch int32 2

unfoldable pub mc_write_uint32_batch : ℕ → Text → ℕ → Option (List ℕ) → M ErrorCode
mc_write_uint32_batch = write_batch uint32 2

unfoldable pub mc_write_float_batch : ℕ → Text → ℕ → Option (List ℕ) → M ErrorCode
mc_write_float_batch = write_batch float 2

unfoldable pub mc_write_bool_batch : ℕ → Text → ℕ → Option (List Bool) → M ErrorCode
mc_write_bool_batch fd address count none = pure invalid_parameter
mc_write_bool_batch fd address count (some values) =
    if is_positive fd && given address && is_positive count
    then (do
      ok ← malloc
      elim ok [
        | false ↦ pure malloc_failed
        | true ↦
            if ltb (length values) count
            then undefined
            else write_bool_value fd address count (some (take count values))
      ])
    else pure invalid_parameter

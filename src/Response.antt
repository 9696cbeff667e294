-- ===== src/Response.antt =====
-- melsec_mc_net/melsec_helper.c: the parsing of a response frame; melsec_mc_net/melsec_mc_bin.c:
-- `mc_read_response`.
pub mod Frame
pub mod Read
use melsec_mc_net.Prelude.{
  ℕ, ◌+◌, ◌-◌, ◌*◌, ◌^◌, ltb, leb, ◌==◌, ◌&&◌, ◌||◌, bit_or, if◌then◌else◌, Bool, true, false,
  Option, none, some, List, [], ◌∷◌, ◌++◌, length, take, drop, get_elem?,
}
use melsec_mc_net.Words.{u16}
use melsec_mc_net.Machine.{
  World, M, ◌>>=◌, ◌>>◌, pure, undefined, checked, malloc, Buffer, ErrorCode, success, error_failed,
  malloc_failed, invalid_parameter, response_header_failed,
}
use melsec_mc_net.Socket.{is_positive, mc_recv_exact}

abbrev pub min_response_header_size : ℕ
min_response_header_size = 11

-- `memcpy` from `response + 11`; `none` is a read behind the end of the response.
unfoldable pub payload : List ℕ → ℕ → Option (List ℕ)
payload response count =
    if leb (11 + count) (length response) then some (take count (drop 11 response)) else none

-- The two fields that both parsers read: the length field less the end code, wrapped to 16 bits, and
-- the end code with its bytes swapped.
unfoldable pub response_fields : List ℕ → M (ℕ × ℕ)
response_fields response = do
  count0 ← checked (get_elem? response 8)
  count1 ← checked (get_elem? response 7)
  code0 ← checked (get_elem? response 9)
  code1 ← checked (get_elem? response 10)
  pure (u16 (count0 * 256 + count1 + 2 ^ 16 - 2), u16 (code0 * 256 + code1))

abbrev pub verdict : ℕ → ℕ → ℕ → ErrorCode
verdict rs_count rs_code len =
    if rs_code == 0 && rs_count + 11 == len then success else error_failed

-- The copy that both parsers make into `data`.
unfoldable pub copy_payload : ErrorCode → List ℕ → ℕ → M (ErrorCode × Buffer)
copy_payload ret response rs_count = do
  ok ← malloc
  elim ok [
    | true ↦ (do bytes ← checked (payload response rs_count); pure (ret, some bytes))
    | false ↦ pure (malloc_failed, none)
  ]

-- `wanted` is whether `data` is not NULL, and `before` what it points at; the result has what it
-- points at afterwards.
unfoldable pub mc_parse_read_response : Buffer → Bool → Buffer → M (ErrorCode × Buffer)
mc_parse_read_response none wanted before = pure (invalid_parameter, before)
mc_parse_read_response (some []) wanted before = pure (invalid_parameter, before)
mc_parse_read_response (some (b ∷ bs)) wanted before = do
  fields ← response_fields (b ∷ bs)
  let ret = verdict fields.0 fields.1 (length (b ∷ bs))
  if ltb 0 fields.0 && wanted then copy_payload ret (b ∷ bs) fields.0 else pure (ret, before)

-- Fewer than three bytes behind the end code are not copied.
unfoldable pub mc_parse_write_response : Buffer → Bool → Buffer → M (ErrorCode × Buffer)
mc_parse_write_response none wanted before = pure (invalid_parameter, before)
mc_parse_write_response (some []) wanted before = pure (invalid_parameter, before)
mc_parse_write_response (some (b ∷ bs)) wanted before = do
  fields ← response_fields (b ∷ bs)
  let ret = verdict fields.0 fields.1 (length (b ∷ bs))
  if ltb 2 fields.0 && wanted then copy_payload ret (b ∷ bs) fields.0 else pure (ret, before)

-- `response->data` of a caller: NULL, an allocation, or a pointer to memory that has been released.
pub data Pointer : Type 0 where
  null : Pointer
  live : List ℕ → Pointer
  dangling : Pointer

-- `RELEASE_DATA`, which leaves the pointer as it is. Releasing memory twice is undefined.
unfoldable pub release : Pointer → M (Unit {0})
release null = pure tt
release (live bytes) = pure tt
release dangling = undefined

-- What an exchange hands back: the code, the response and `*read_count`.
pub record Reply : Type 0 where
  pub code : ErrorCode
  pub response : Pointer
  pub read_count : ℕ

abbrev pub refused : ErrorCode → Reply
refused code = record { code = code; response = null; read_count = 0 }

-- `header[7] | header[8] << 8`
unfoldable pub length_field : List ℕ → M ℕ
length_field header = do
  low ← checked (get_elem? header 7)
  high ← checked (get_elem? header 8)
  pure (bit_or low (high * 2 ^ 8))

-- The payload. Where it does not come, `response->data` is released and keeps its value.
unfoldable pub read_payload : List ℕ → ℕ → M Reply
read_payload header total_len =
    let remain = total_len - min_response_header_size in
    if ltb 0 remain
    then (do
      received ← mc_recv_exact remain
      elim received.0 [
        | success ↦ pure (record {
          code = success;
          response = live (header ++ received.1);
          read_count = total_len;
        })
        | code ↦ pure (record { code = code; response = dangling; read_count = 0 })
      ])
    else pure (record { code = success; response = live header; read_count = total_len })

unfoldable pub read_body : List ℕ → M Reply
read_body header = do
  payload_with_end_code ← length_field header
  let total_len = payload_with_end_code + 9
  elim (ltb payload_with_end_code 2 || ltb total_len min_response_header_size) [
    | true ↦ pure (refused response_header_failed)
    | false ↦ (do
      ok ← malloc
      if ok then read_payload header total_len else pure (refused malloc_failed))
  ]

-- `*read_count` is positive where the code tests it last.
unfoldable pub mc_read_response : ℕ → M Reply
mc_read_response fd =
    if is_positive fd
    then (do
      received ← mc_recv_exact min_response_header_size
      elim received.0 [ success ↦ read_body received.1 | code ↦ pure (refused code) ])
    else pure (refused invalid_parameter)

-- ===== src/Ascii/Response.antt =====
-- melsec_mc_net/melsec_mc_ascii.c: the reading and the parsing of a response.
pub mod Frame
pub mod Read
pub mod Safety
use melsec_mc_net.Prelude.{
  ℕ, ◌+◌, ◌-◌, ◌/◌, ◌%◌, ltb, ◌==◌, ◌&&◌, ◌||◌, not, if◌then◌else◌, Bool, true, false, Option, none,
  some, List, [], ◌∷◌, ◌++◌, length, drop, map,
}
use melsec_mc_net.Machine.{
  M, ◌>>=◌, pure, malloc, alloc, Buffer, ErrorCode, success, error_failed, malloc_failed,
  invalid_parameter, response_header_failed,
}
use melsec_mc_net.Socket.{is_positive, mc_recv_exact}
use melsec_mc_net.Response.{Reply, live, refused}
use melsec_mc_net.Transaction.{transaction}
use melsec_mc_net.Ascii.Hex.{pair_value, mc_ascii_parse_u16_be}
use melsec_mc_net.Ascii.Command.{swap_words}

abbrev pub ascii_min_response_header_size : ℕ
ascii_min_response_header_size = 22

abbrev pub ascii_min_recv_header_size : ℕ
ascii_min_recv_header_size = 18

-- The end code and the data. Where they do not come, the caller's response is still NULL.
unfoldable pub ascii_read_rest : List ℕ → ℕ → M Reply
ascii_read_rest header total_len =
    let remain = total_len - ascii_min_recv_header_size in
    if ltb 0 remain
    then (do
      received ← mc_recv_exact remain
      elim received.0 [
        | success ↦ pure (record {
          code = success;
          response = live (header ++ received.1);
          read_count = total_len;
        })
        | code ↦ pure (refused code)
      ])
    else pure (record { code = success; response = live header; read_count = total_len })

unfoldable pub ascii_read_body : List ℕ → M Reply
ascii_read_body header = do
  field ← mc_ascii_parse_u16_be (drop 14 header)
  elim field [
    | none ↦ pure (refused response_header_failed)
    | some payload_with_end_code ↦
        let total_len = ascii_min_recv_header_size + payload_with_end_code in
        elim (ltb payload_with_end_code 4 || ltb total_len ascii_min_response_header_size) [
          | true ↦ pure (refused response_header_failed)
          | false ↦ (do
            ok ← malloc
            if ok then ascii_read_rest header total_len else pure (refused malloc_failed))
        ]
  ]

unfoldable pub mc_ascii_read_response : ℕ → M Reply
mc_ascii_read_response fd =
    if is_positive fd
    then (do
      received ← mc_recv_exact ascii_min_recv_header_size
      elim received.0 [ success ↦ ascii_read_body received.1 | code ↦ pure (refused code) ])
    else pure (refused invalid_parameter)

-- `mc_send_and_receive_transaction` of the ASCII protocol
unfoldable pub ascii_send_and_receive_transaction : ℕ → Buffer → M Reply
ascii_send_and_receive_transaction = transaction mc_ascii_read_response

unfoldable pub mc_ascii_parse_response_end_code : Buffer → M ErrorCode
mc_ascii_parse_response_end_code none = pure response_header_failed
mc_ascii_parse_response_end_code (some response) =
    if ltb (length response) ascii_min_response_header_size then pure response_header_failed else do
      end_code ← mc_ascii_parse_u16_be (drop 18 response)
      elim end_code [
        | none ↦ pure response_header_failed
        | some n ↦ pure (if n == 0 then success else error_failed)
      ]

abbrev pub bit_of_char : ℕ → ℕ
bit_of_char c = if c == b'1' then 0x01 else 0x00

-- The bytes of the pairs of characters, or `none` at a pair that is not hexadecimal.
unfoldable pub decode_pairs : List ℕ → Option (List ℕ)
decode_pairs (c0 ∷ c1 ∷ text) = elim (pair_value c0 c1) [
  | none ↦ none
  | some b ↦ elim (decode_pairs text) [ none ↦ none | some bytes ↦ some (b ∷ bytes) ]
]
decode_pairs _ = some []

abbrev pub swap_even : List ℕ → List ℕ
swap_even bytes = if length bytes % 2 == 0 then swap_words bytes else bytes

-- The part that the two parsers share: memory, and the bytes of the text.
unfoldable pub parse_text : (List ℕ → List ℕ) → List ℕ → M (ErrorCode × Buffer)
parse_text order text = if length text % 2 == 1 then pure (response_header_failed, none) else do
  ok ← malloc
  elim ok [
    | false ↦ pure (malloc_failed, none)
    | true ↦ elim (decode_pairs text) [
      | none ↦ pure (response_header_failed, none)
      | some bytes ↦ pure (success, some (order bytes))
    ]
  ]

-- The data behind the 22 characters of the header.
abbrev pub text_behind : Buffer → List ℕ
text_behind none = []
text_behind (some response) = drop ascii_min_response_header_size response

unfoldable pub parse_bits_text : List ℕ → M (ErrorCode × Buffer)
parse_bits_text text = do
  bits ← alloc (map bit_of_char text)
  elim bits [ none ↦ pure (malloc_failed, none) | some bytes ↦ pure (success, some bytes) ]

unfoldable pub parse_data : Bool → List ℕ → M (ErrorCode × Buffer)
parse_data is_bit [] = pure (success, none)
parse_data is_bit (c ∷ text) =
    if is_bit then parse_bits_text (c ∷ text) else parse_text swap_even (c ∷ text)

-- `before` is what `out_data`, which is not NULL, points at.
unfoldable pub mc_ascii_parse_read_response : Buffer → Bool → Buffer → M (ErrorCode × Buffer)
mc_ascii_parse_read_response none is_bit before = pure (invalid_parameter, before)
mc_ascii_parse_read_response (some response) is_bit before =
    if ltb (length response) ascii_min_response_header_size
    then pure (invalid_parameter, before)
    else do
      ret ← mc_ascii_parse_response_end_code (some response)
      elim ret [
        | success ↦ parse_data is_bit (text_behind (some response))
        | code ↦ pure (code, none)
      ]

unfoldable pub parse_payload : List ℕ → M (ErrorCode × Buffer)
parse_payload [] = pure (success, none)
parse_payload (c ∷ text) = parse_text (λ bytes. bytes) (c ∷ text)

-- `wanted` is whether `out_data` is not NULL.
unfoldable pub mc_ascii_parse_write_response : Buffer → Bool → Buffer → M (ErrorCode × Buffer)
mc_ascii_parse_write_response response wanted before = do
  ret ← mc_ascii_parse_response_end_code response
  elim ret [
    | success ↦ if not wanted then pure (success, before) else parse_payload (text_behind response)
    | code ↦ pure (code, before)
  ]

-- ===== src/Ascii/Response/Safety.antt =====
-- The reading and parsing of an ASCII response return whatever comes from the network, and the
-- caller is never left with memory that has been released.
use melsec_mc_net.Prelude.{
  ℕ, ◌+◌, ◌-◌, ◌≤◌, ltb, ◌==◌, ◌||◌, not, ◌≡◌, ◌≢◌, Bool, some, none, List, [], ◌∷◌, arith, length,
  drop, length-drop, map, ◌%◌,
}
use melsec_mc_net.Machine.{World, pure, malloc, alloc, Buffer}
use melsec_mc_net.Machine.Returns.{
  Returns, Anything, pure-Returns, >>=-Returns, on_code-Returns, on_option-Returns, on_bool-Returns,
  on_test-Returns, malloc-Returns, alloc-Returns,
}
use melsec_mc_net.Socket.{is_positive, mc_recv_exact}
use melsec_mc_net.Response.{Reply, dangling, refused}
use melsec_mc_net.Transaction.Returns.{recv-Returns}
use melsec_mc_net.Ascii.Hex.{mc_ascii_hex_pair_to_byte, mc_ascii_parse_u16_be}
use melsec_mc_net.Ascii.Response.{
  ascii_read_rest, ascii_read_body, mc_ascii_read_response, mc_ascii_parse_response_end_code,
  decode_pairs, parse_text, parse_bits_text, parse_data, parse_payload, swap_even, bit_of_char,
  text_behind, mc_ascii_parse_read_response, mc_ascii_parse_write_response,
}

pair-Returns :
    (text : List ℕ) (w : World)
    → 2 ≤ length text
    → Returns Anything (mc_ascii_hex_pair_to_byte text) w
unfolding mc_ascii_hex_pair_to_byte
pair-Returns [] w h = absurd (omega arith)
pair-Returns (a ∷ []) w h = absurd (omega arith)
pair-Returns (a ∷ b ∷ text) w h = pure-Returns _ w tt

pub parse_u16_be-Returns :
    (text : List ℕ) (w : World) → 4 ≤ length text → Returns Anything (mc_ascii_parse_u16_be text) w
unfolding mc_ascii_parse_u16_be
parse_u16_be-Returns text w h =
    >>=-Returns (mc_ascii_hex_pair_to_byte text) _ w (pair-Returns text w (omega arith))
      (λ first v p. on_option-Returns _ _ first v (pure-Returns _ v tt) (λ hi e.
        >>=-Returns (mc_ascii_hex_pair_to_byte (drop 2 text)) _ v
          (pair-Returns (drop 2 text) v (omega (arith, length-drop 2 text)))
          (λ second u q.
            on_option-Returns _ _ second u (pure-Returns _ u tt) (λ lo d. pure-Returns _ u tt))))

-- The caller has no memory that has been released.
abbrev pub NotDangling : Reply → Type 0
NotDangling reply = reply.response ≢ dangling

read_rest-Returns :
    (header : List ℕ) (n : ℕ) (w : World) → Returns NotDangling (ascii_read_rest header n) w
unfolding ascii_read_rest
read_rest-Returns header n w =
    on_test-Returns _ _ (ltb 0 (n - 18)) w
      (λ more. >>=-Returns (mc_recv_exact (n - 18)) _ w (recv-Returns (n - 18) w) (λ got v p.
        on_code-Returns _ (λ c. pure (refused c)) got.0 v (λ ok. pure-Returns _ v (λ e. cc))
          (λ c. pure-Returns _ v (λ e. cc))))
      (λ nothing. pure-Returns _ w (λ e. cc))

read_body-Returns :
    (header : List ℕ) (w : World)
    → length header ≡ 18
    → Returns NotDangling (ascii_read_body header) w
unfolding ascii_read_body
read_body-Returns header w e =
    >>=-Returns (mc_ascii_parse_u16_be (drop 14 header)) _ w
      (parse_u16_be-Returns (drop 14 header) w (omega (arith, length-drop 14 header)))
      (λ field v p. on_option-Returns _ _ field v (pure-Returns _ v (λ d. cc)) (λ n at.
        on_bool-Returns _ _ (ltb n 4 || ltb (18 + n) 22) v (λ short. pure-Returns _ v (λ d. cc))
          (λ long. >>=-Returns malloc _ v (malloc-Returns v) (λ ok u q.
            on_test-Returns _ _ ok u (λ had. read_rest-Returns header (18 + n) u)
              (λ missing. pure-Returns _ u (λ d. cc))))))

-- Whatever comes from the network and whatever memory is to be had, `mc_ascii_read_response` returns, and
-- the response that it leaves to the caller is not one that has been released.
pub mc_ascii_read_response-NotDangling :
    (fd : ℕ) (w : World) → Returns NotDangling (mc_ascii_read_response fd) w
unfolding mc_ascii_read_response
mc_ascii_read_response-NotDangling fd w =
    on_test-Returns _ _ (is_positive fd) w
      (λ positive. >>=-Returns (mc_recv_exact 18) _ w (recv-Returns 18 w) (λ got v p.
        on_code-Returns _ (λ c. pure (refused c)) got.0 v (λ ok. read_body-Returns got.1 v (p ok))
          (λ c. pure-Returns _ v (λ e. cc))))
      (λ negative. pure-Returns _ w (λ e. cc))

end_code-Returns :
    (response : Buffer) (w : World) → Returns Anything (mc_ascii_parse_response_end_code response) w
unfolding mc_ascii_parse_response_end_code
end_code-Returns none w = pure-Returns _ w tt
end_code-Returns (some response) w =
    on_test-Returns _ _ (ltb (length response) 22) w (λ short. pure-Returns _ w tt)
      (λ long.
        >>=-Returns (mc_ascii_parse_u16_be (drop 18 response)) _ w
          (parse_u16_be-Returns (drop 18 response) w
            (ground (arith, length-drop 18 response, long)))
          (λ code v p.
            on_option-Returns _ _ code v (pure-Returns _ v tt) (λ n e. pure-Returns _ v tt)))

parse_text-Returns :
    (order : List ℕ → List ℕ) (text : List ℕ) (w : World)
    → Returns Anything (parse_text order text) w
unfolding parse_text
parse_text-Returns order text w =
    on_test-Returns _ _ (length text % 2 == 1) w (λ odd. pure-Returns _ w tt)
      (λ even. >>=-Returns malloc _ w (malloc-Returns w) (λ ok v p.
        on_bool-Returns _ _ ok v
          (λ had.
            on_option-Returns _ _ (decode_pairs text) v (pure-Returns _ v tt)
              (λ bytes e. pure-Returns _ v tt))
          (λ missing. pure-Returns _ v tt)))

parse_data-Returns :
    (is_bit : Bool) (text : List ℕ) (w : World) → Returns Anything (parse_data is_bit text) w
unfolding parse_data parse_bits_text
parse_data-Returns is_bit [] w = pure-Returns _ w tt
parse_data-Returns is_bit (c ∷ text) w =
    on_test-Returns _ _ is_bit w
      (λ bits.
        >>=-Returns (alloc (map bit_of_char (c ∷ text))) _ w
          (alloc-Returns (map bit_of_char (c ∷ text)) w)
          (λ out v p.
            on_option-Returns _ _ out v (pure-Returns _ v tt) (λ bytes e. pure-Returns _ v tt)))
      (λ words. parse_text-Returns swap_even (c ∷ text) w)

pub parse_read-Returns :
    (response : Buffer) (is_bit : Bool) (before : Buffer) (w : World)
    → Returns Anything (mc_ascii_parse_read_response response is_bit before) w
unfolding mc_ascii_parse_read_response
parse_read-Returns none is_bit before w = pure-Returns _ w tt
parse_read-Returns (some response) is_bit before w =
    on_test-Returns _ _ (ltb (length response) 22) w (λ short. pure-Returns _ w tt)
      (λ long.
        >>=-Returns (mc_ascii_parse_response_end_code (some response)) _ w
          (end_code-Returns (some response) w)
          (λ ret v p.
            on_code-Returns _ (λ c. pure (c, none)) ret v
              (λ ok. parse_data-Returns is_bit (text_behind (some response)) v)
              (λ c. pure-Returns _ v tt)))

parse_payload-Returns : (text : List ℕ) (w : World) → Returns Anything (parse_payload text) w
unfolding parse_payload
parse_payload-Returns [] w = pure-Returns _ w tt
parse_payload-Returns (c ∷ text) w = parse_text-Returns (λ bytes. bytes) (c ∷ text) w

pub parse_write-Returns :
    (response : Buffer) (wanted : Bool) (before : Buffer) (w : World)
    → Returns Anything (mc_ascii_parse_write_response response wanted before) w
unfolding mc_ascii_parse_write_response
parse_write-Returns response wanted before w =
    >>=-Returns (mc_ascii_parse_response_end_code response) _ w (end_code-Returns response w)
      (λ ret v p.
        on_code-Returns _ (λ c. pure (c, before)) ret v
          (λ ok.
            on_test-Returns _ _ (not wanted) v (λ unwanted. pure-Returns _ v tt)
              (λ asked. parse_payload-Returns (text_behind response) v))
          (λ c. pure-Returns _ v tt))

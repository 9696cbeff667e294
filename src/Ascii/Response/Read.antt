-- ===== src/Ascii/Response/Read.antt =====
-- What `mc_ascii_read_response` takes from a connection.
use melsec_mc_net.Prelude.{
  ℕ, ◌+◌, ◌-◌, ◌<◌, ltb, if◌then◌else◌, ◌≡◌, sym, ap, ◌∙◌, true, false, some, List, [], ◌++◌, arith,
  length, drop, ◌||◌, append-nil, append_assoc,
}
use melsec_mc_net.Machine.{World, malloc, success, >>=-eq_some, malloc-eq_some, RecvEvent}
use melsec_mc_net.Socket.{is_positive, mc_recv_exact}
use melsec_mc_net.Socket.Receive.{incoming}
use melsec_mc_net.Response.{Reply, live}
use melsec_mc_net.Response.Read.{recv_front}
use melsec_mc_net.Ascii.Digits.{numeral}
use melsec_mc_net.Ascii.Hex.{mc_ascii_parse_u16_be}
use melsec_mc_net.Ascii.Response.{ascii_read_rest, ascii_read_body, mc_ascii_read_response}
use melsec_mc_net.Ascii.Response.Frame.{
  AsciiResponse, HasFields, front_of, rest_of, ascii_frame_of, length-front_of, length-rest_of,
  length-ascii_frame_of, drop_start, parse_u16_be-numeral,
}

add-sub_cancel : (n : ℕ) → 18 + n - 18 ≡ n
add-sub_cancel n = omega arith

if_pos_test : (n : ℕ) → 0 < n → ltb 0 n ≡ true
if_pos_test n h = ground arith

received_all :
    (header got : List ℕ) (n : ℕ) (w v : World)
    → 0 < n
    → mc_recv_exact n w ≡ some ((success, got), v)
    → ascii_read_rest header (18 + n) w
      ≡ some (record { code = success; response = live (header ++ got); read_count = 18 + n }, v)
unfolding ascii_read_rest
received_all header got n w v pos e =
    rw (add-sub_cancel n, if_pos_test n pos, if◌then◌else◌) (>>=-eq_some (mc_recv_exact n) _ e)

module _ (r : AsciiResponse) (valid : HasFields r) where
  abbrev pub ascii_whole : Reply
  ascii_whole = record {
    code = success;
    response = live (ascii_frame_of r);
    read_count = length (ascii_frame_of r);
  }

  count_field :
      (w : World)
      → mc_ascii_parse_u16_be (drop 14 (front_of r)) w ≡ some (some (length r.text + 4), w)
  count_field w =
      ap (λ (t : List ℕ). mc_ascii_parse_u16_be t w)
        (drop_start r valid ∙ sym (append-nil (numeral 4 16 (length r.text + 4))))
      ∙ parse_u16_be-numeral (length r.text + 4) [] w (omega (arith, valid.text_length))

  read_rest-whole :
      (rest : List ℕ) (w : World)
      → incoming w.recvs ≡ rest_of r ++ rest
      → (later : List RecvEvent) × (ascii_read_rest (front_of r) (18 + (length r.text + 4)) w
          ≡ some (ascii_whole, record w { recvs = later }))
        × (incoming later ≡ rest)
  unfolding ascii_read_rest
  read_rest-whole rest w e =
      let (later, returns, left, end) =
        recv_front (length r.text + 4) (rest_of r) rest w e (length-rest_of r valid) in
      (
        later,
        received_all (front_of r) (rest_of r) (length r.text + 4) w (record w { recvs = later })
              (omega arith) returns
            ∙ ap
                (λ (n : ℕ). some (
                  record { code = success; response = live (ascii_frame_of r); read_count = n },
                  record w { recvs = later },
                ))
                (omega (arith, length-ascii_frame_of r valid)),
        left,
      )

  long_enough : (ltb (length r.text + 4) 4 || ltb (18 + (length r.text + 4)) 22) ≡ false
  long_enough = ground arith

  -- A response whose fields are well formed and that arrives whole on a positive descriptor, in whatever
  -- chunks: where memory is to be had, `mc_ascii_read_response` returns success with exactly the
  -- characters of the frame and their number, and takes nothing of what follows.
  pub mc_ascii_read_response-whole :
      (fd : ℕ) (rest : List ℕ) (w : World)
      → is_positive fd ≡ true
      → w.mallocs ≡ []
      → incoming w.recvs ≡ ascii_frame_of r ++ rest
      → (later : List RecvEvent) × (mc_ascii_read_response fd w
          ≡ some (ascii_whole, record w { recvs = later }))
        × (incoming later ≡ rest)
  unfolding mc_ascii_read_response ascii_read_body
  mc_ascii_read_response-whole fd rest w ready m e =
      let (mid, header_returns, mid_left, mid_end) =
        recv_front 18 (front_of r) (rest_of r ++ rest) w
          (e ∙ append_assoc (front_of r) (rest_of r) rest) (length-front_of r valid) in
      let v : World = record w { recvs = mid } in
      let (later, returns, left) = read_rest-whole rest v mid_left in
      (
        later,
        rw (ready, if◌then◌else◌)
            (>>=-eq_some (mc_recv_exact 18) _ header_returns
              ∙ >>=-eq_some (mc_ascii_parse_u16_be (drop 14 (front_of r))) _ (count_field v)
              ∙ rw long_enough (>>=-eq_some malloc _ (malloc-eq_some v m) ∙ returns)),
        left,
      )

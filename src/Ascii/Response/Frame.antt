-- ===== src/Ascii/Response/Frame.antt =====
-- What the parsers of an ASCII response make of a frame whose length field is right.
use melsec_mc_net.Prelude.{
  ℕ, ◌+◌, ◌^◌, ◌%◌, ◌<◌, ◌==◌, ltb, if◌then◌else◌, ◌≡◌, refl, sym, ap, ◌∙◌, Bool, true, false, some,
  none, List, [], ◌∷◌, ◌++◌, arith, length, drop, drop-append, length-append, append_assoc, All,
  map,
}
use melsec_mc_net.Machine.{
  World, malloc, alloc, Buffer, ErrorCode, success, error_failed, >>=-eq_some, malloc-eq_some,
  alloc-eq_some,
}
use melsec_mc_net.Ascii.Digits.{numeral, length-numeral}
use melsec_mc_net.Ascii.Hex.{mc_ascii_parse_u16_be}
use melsec_mc_net.Ascii.Hex.RoundTrip.{parse_u16_be-write_hex, write_hex_u16_be-numeral}
use melsec_mc_net.Ascii.Command.{swap_words}
use melsec_mc_net.Ascii.Command.Words.{
  words_text, IsByte, IsEven, decode_pairs-words_text, length-words_text, swap_words-swap_words,
  length-swap_words,
}
use melsec_mc_net.Ascii.Response.{
  mc_ascii_parse_response_end_code, mc_ascii_parse_read_response, mc_ascii_parse_write_response,
  parse_text, parse_bits_text, parse_data, swap_even, bit_of_char,
}

-- A response frame by the manual: 14 characters, the number of characters that follow the length
-- field, the end code, and the data.
pub record AsciiResponse : Type 0 where
  pub start : List ℕ
  pub end_code : ℕ
  pub text : List ℕ

abbrev pub front_of : AsciiResponse → List ℕ
front_of r = r.start ++ numeral 4 16 (length r.text + 4)

abbrev pub rest_of : AsciiResponse → List ℕ
rest_of r = numeral 4 16 r.end_code ++ r.text

abbrev pub ascii_frame_of : AsciiResponse → List ℕ
ascii_frame_of r = front_of r ++ rest_of r

pub record HasFields (r : AsciiResponse) : Type 0 where
  pub start_length : length r.start ≡ 14
  pub text_length : length r.text < 65532
  pub code_range : r.end_code < 2 ^ 16

-- The code that a response stands for: success exactly for the end code 0.
abbrev pub ascii_code_of : AsciiResponse → ErrorCode
ascii_code_of r = if r.end_code == 0 then success else error_failed

pub parse_u16_be-numeral :
    (v : ℕ) (rest : List ℕ) (w : World)
    → v < 2 ^ 16
    → mc_ascii_parse_u16_be (numeral 4 16 v ++ rest) w ≡ some (some v, w)
parse_u16_be-numeral v rest w h =
    ap (λ (t : List ℕ). mc_ascii_parse_u16_be (t ++ rest) w) (sym (write_hex_u16_be-numeral v h))
    ∙ parse_u16_be-write_hex v rest w h

drop_exact : (n : ℕ) (front rest : List ℕ) → length front ≡ n → drop n (front ++ rest) ≡ rest
drop_exact n front rest e = ap (λ (k : ℕ). drop k (front ++ rest)) (sym e) ∙ drop-append front rest

parse_text-words :
    (order : List ℕ → List ℕ) (bytes : List ℕ) (w : World)
    → IsEven bytes
    → All IsByte bytes
    → w.mallocs ≡ []
    → parse_text order (words_text bytes) w ≡ some ((success, some (order (swap_words bytes))), w)
unfolding parse_text
parse_text-words order bytes w even small m =
    let pairs : (length (words_text bytes) % 2 == 1) ≡ false =
      ground (arith, length-words_text bytes even, even) in
    rw (pairs, if◌then◌else◌)
      (>>=-eq_some malloc _ (malloc-eq_some w m)
        ∙ rw (decode_pairs-words_text bytes small even) refl)

parse_data-some :
    (is_bit : Bool) (text : List ℕ) (w : World)
    → 0 < length text
    → parse_data is_bit text w
      ≡ (if is_bit then parse_bits_text text else parse_text swap_even text) w
unfolding parse_data
parse_data-some is_bit [] w pos = absurd (omega arith)
parse_data-some is_bit (c ∷ text) w pos = refl

in_order : (bytes : List ℕ) → IsEven bytes → swap_even (swap_words bytes) ≡ bytes
in_order bytes even =
    let pairs : (length (swap_words bytes) % 2 == 0) ≡ true =
      ground (arith, length-swap_words bytes, even) in
    rw (pairs, if◌then◌else◌) (swap_words-swap_words bytes)

module _ (r : AsciiResponse) (valid : HasFields r) where
  pub length-front_of : length (front_of r) ≡ 18
  length-front_of = omega (
    arith,
    length-append r.start (numeral 4 16 (length r.text + 4)),
    length-numeral 4 16 (length r.text + 4),
    valid.start_length,
  )

  pub length-rest_of : length (rest_of r) ≡ length r.text + 4
  length-rest_of =
      omega (arith, length-append (numeral 4 16 r.end_code) r.text, length-numeral 4 16 r.end_code)

  pub length-ascii_frame_of : length (ascii_frame_of r) ≡ length r.text + 22
  length-ascii_frame_of =
      omega (arith, length-append (front_of r) (rest_of r), length-front_of, length-rest_of)

  -- The length field, the end code and the data stand where they are looked for.
  pub drop_start : drop 14 (front_of r) ≡ numeral 4 16 (length r.text + 4)
  drop_start = drop_exact 14 r.start (numeral 4 16 (length r.text + 4)) valid.start_length

  drop_front : drop 18 (ascii_frame_of r) ≡ rest_of r
  drop_front = drop_exact 18 (front_of r) (rest_of r) length-front_of

  drop_header : drop 22 (ascii_frame_of r) ≡ r.text
  drop_header =
      ap (drop 22) (sym (append_assoc (front_of r) (numeral 4 16 r.end_code) r.text))
      ∙ drop_exact 22 (front_of r ++ numeral 4 16 r.end_code) r.text (
          omega (
            arith,
            length-append (front_of r) (numeral 4 16 r.end_code),
            length-front_of,
            length-numeral 4 16 r.end_code,
          ))

  not_short : ltb (length (ascii_frame_of r)) 22 ≡ false
  not_short = ground (arith, length-ascii_frame_of)

  parse_end_code-frame :
      (w : World)
      → mc_ascii_parse_response_end_code (some (ascii_frame_of r)) w ≡ some (ascii_code_of r, w)
  unfolding mc_ascii_parse_response_end_code
  parse_end_code-frame w =
      rw (not_short, if◌then◌else◌)
        (>>=-eq_some (mc_ascii_parse_u16_be (drop 18 (ascii_frame_of r))) _ (
          ap (λ (t : List ℕ). mc_ascii_parse_u16_be t w) drop_front
          ∙ parse_u16_be-numeral r.end_code r.text w valid.code_range))

  -- An answer without data, or with another end code than 0.
  pub parse_read-refused :
      (is_bit : Bool) (before : Buffer) (w : World)
      → 0 < r.end_code
      → mc_ascii_parse_read_response (some (ascii_frame_of r)) is_bit before w
        ≡ some ((error_failed, none), w)
  unfolding mc_ascii_parse_read_response
  parse_read-refused is_bit before w bad =
      let code : ascii_code_of r ≡ error_failed = ground (arith, bad) in
      rw (not_short, if◌then◌else◌)
        (>>=-eq_some (mc_ascii_parse_response_end_code (some (ascii_frame_of r))) _
          (parse_end_code-frame w ∙ ap (λ (c : ErrorCode). some (c, w)) code))

  -- A write's answer is parsed to its code; no data are asked for.
  pub parse_write-frame :
      (before : Buffer) (w : World)
      → mc_ascii_parse_write_response (some (ascii_frame_of r)) false before w
        ≡ some ((ascii_code_of r, before), w)
  unfolding mc_ascii_parse_write_response
  parse_write-frame before w =
      >>=-eq_some (mc_ascii_parse_response_end_code (some (ascii_frame_of r))) _
        (parse_end_code-frame w)
      ∙ ground arith

  module _ (done : r.end_code ≡ 0) where
    succeeds :
        (w : World)
        → mc_ascii_parse_response_end_code (some (ascii_frame_of r)) w ≡ some (success, w)
    succeeds w =
        let code : ascii_code_of r ≡ success = ground (arith, done) in
        parse_end_code-frame w ∙ ap (λ (c : ErrorCode). some (c, w)) code

    -- The answer to a read of words: bytes that make whole words come as four digits a word, and are
    -- stored as those bytes, low byte first.
    pub parse_read-words :
        (bytes : List ℕ) (before : Buffer) (w : World)
        → r.text ≡ words_text bytes
        → 0 < length bytes
        → IsEven bytes
        → All IsByte bytes
        → w.mallocs ≡ []
        → mc_ascii_parse_read_response (some (ascii_frame_of r)) false before w
          ≡ some ((success, some bytes), w)
    unfolding mc_ascii_parse_read_response
    parse_read-words bytes before w text pos even small m =
        rw (not_short, if◌then◌else◌)
          (>>=-eq_some (mc_ascii_parse_response_end_code (some (ascii_frame_of r))) _ (succeeds w)
            ∙ ap (λ (t : List ℕ). parse_data false t w) (drop_header ∙ text)
            ∙ parse_data-some false (words_text bytes) w
                (omega (arith, length-words_text bytes even))
            ∙ parse_text-words swap_even bytes w even small m
            ∙ ap (λ (bs : List ℕ). some ((success, some bs), w)) (in_order bytes even))

    -- The answer to a read of bits: a character for each is stored as a byte for each.
    pub parse_read-bits :
        (before : Buffer) (w : World)
        → 0 < length r.text
        → w.mallocs ≡ []
        → mc_ascii_parse_read_response (some (ascii_frame_of r)) true before w
          ≡ some ((success, some (map bit_of_char r.text)), w)
    unfolding mc_ascii_parse_read_response parse_bits_text
    parse_read-bits before w pos m =
        rw (not_short, if◌then◌else◌)
          (>>=-eq_some (mc_ascii_parse_response_end_code (some (ascii_frame_of r))) _ (succeeds w)
            ∙ ap (λ (t : List ℕ). parse_data true t w) drop_header
            ∙ parse_data-some true r.text w pos
            ∙ >>=-eq_some (alloc (map bit_of_char r.text)) _
                (alloc-eq_some (map bit_of_char r.text) w m))

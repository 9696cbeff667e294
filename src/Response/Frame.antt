-- ===== src/Response/Frame.antt =====
-- What the parsers of a response make of a frame whose length field is right.
use melsec_mc_net.Prelude.{
  ℕ, ◌+◌, ◌*◌, ◌^◌, ◌%◌, ◌<◌, ◌==◌, ltb, if◌then◌else◌, ◌≡◌, ap, ◌∙◌, Bool, some, List, [], ◌∷◌,
  ◌++◌, arith, length, take-length, ◌&&◌,
}
use melsec_mc_net.Machine.{
  World, checked, malloc, Buffer, ErrorCode, success, error_failed, >>=-eq_some,
}
use melsec_mc_net.Response.{
  payload, response_fields, verdict, copy_payload, mc_parse_read_response, mc_parse_write_response,
}

-- A response frame by the manual: seven bytes of header, the number of bytes that follow the length
-- field, the end code and the data, all numbers with the low byte first.
pub record ResponseFrame : Type 0 where
  pub h0 : ℕ
  pub h1 : ℕ
  pub h2 : ℕ
  pub h3 : ℕ
  pub h4 : ℕ
  pub h5 : ℕ
  pub h6 : ℕ
  pub low : ℕ
  pub high : ℕ
  pub end0 : ℕ
  pub end1 : ℕ
  pub values : List ℕ

abbrev pub header_of : ResponseFrame → List ℕ
header_of f = f.h0 ∷ f.h1 ∷ f.h2 ∷ f.h3 ∷ f.h4 ∷ f.h5 ∷ f.h6 ∷ f.low ∷ f.high ∷ f.end0 ∷ f.end1 ∷ []

abbrev pub frame_of : ResponseFrame → List ℕ
frame_of f = header_of f ++ f.values

-- The length field counts the end code and the data, and the fields are bytes.
pub record IsWellFormed (f : ResponseFrame) : Type 0 where
  pub counted : f.low + 256 * f.high ≡ length f.values + 2
  pub low_byte : f.low < 256
  pub high_byte : f.high < 256
  pub end0_byte : f.end0 < 256
  pub end1_byte : f.end1 < 256

-- The code that a frame stands for: success exactly for the end code 0.
abbrev pub code_of : ResponseFrame → ErrorCode
code_of f = if f.end0 + 256 * f.end1 == 0 then success else error_failed

abbrev pub copied : ℕ → Bool → Buffer → List ℕ → Buffer
copied least wanted before values =
    if ltb least (length values) && wanted then some values else before

module _ (f : ResponseFrame) (valid : IsWellFormed f) (w : World) where
  fields_eq :
      response_fields (frame_of f) w ≡ some ((length f.values, (f.end0 * 256 + f.end1) % 2 ^ 16), w)
  unfolding response_fields
  fields_eq =
      ap (λ (n : ℕ). some ((n, (f.end0 * 256 + f.end1) % 2 ^ 16), w)) (omega (arith, valid.counted))

  payload_eq : payload (frame_of f) (length f.values) ≡ some f.values
  unfolding payload
  payload_eq = ground (arith, take-length f.values)

  verdict_eq :
      verdict (length f.values) ((f.end0 * 256 + f.end1) % 2 ^ 16) (length (frame_of f)) ≡ code_of f
  verdict_eq = ground arith

  copy_eq :
      w.mallocs ≡ []
      → (ret : ErrorCode)
      → copy_payload ret (frame_of f) (length f.values) w ≡ some ((ret, some f.values), w)
  unfolding copy_payload malloc
  copy_eq e ret = rw (e, copy_payload) (rw (payload_eq, checked))

  -- `mc_parse_read_response` reads a well-formed frame without an access out of bounds; where memory is
  -- to be had, the code is success exactly if the end code is 0, and the data, if there are any and a
  -- place for them is given, are stored whatever the end code.
  pub mc_parse_read_response-frame :
      (wanted : Bool) (before : Buffer)
      → w.mallocs ≡ []
      → mc_parse_read_response (some (frame_of f)) wanted before w
        ≡ some ((code_of f, copied 0 wanted before f.values), w)
  unfolding mc_parse_read_response
  mc_parse_read_response-frame wanted before e =
      >>=-eq_some (response_fields (frame_of f)) _ fields_eq
      ∙ ground (arith, verdict_eq, copy_eq e (code_of f))

  -- `mc_parse_write_response` reads a well-formed frame without an access out of bounds; where memory
  -- is to be had, the code is success exactly if the end code is 0, and the data, if there are more than
  -- two bytes of them and a place for them is given, are stored whatever the end code.
  pub mc_parse_write_response-frame :
      (wanted : Bool) (before : Buffer)
      → w.mallocs ≡ []
      → mc_parse_write_response (some (frame_of f)) wanted before w
        ≡ some ((code_of f, copied 2 wanted before f.values), w)
  unfolding mc_parse_write_response
  mc_parse_write_response-frame wanted before e =
      >>=-eq_some (response_fields (frame_of f)) _ fields_eq
      ∙ ground (arith, verdict_eq, copy_eq e (code_of f))

-- ===== src/Client/Strings.antt =====
-- The read and the write of a string, and reads whose response has too few bytes.
use melsec_mc_net.Prelude.{
  take-length, sym, refl, ℕ, ◌+◌, ◌-◌, ◌*◌, ◌/◌, ◌^◌, ◌<◌, ◌≤◌, ltb, leb, not, ◌||◌, ◌≡◌, ap, ◌∙◌,
  true, false, some, none, List, [], ◌++◌, arith, length, take, replicate, length-append,
  length-take, length-replicate, if◌then◌else◌,
}
use melsec_mc_net.Address.{AddressData, parsed, mc_analysis_address}
use melsec_mc_net.Words.Scalar.{Scalar, decode}
use melsec_mc_net.Machine.{
  World, >>=-eq_some, Buffer, buffer_length, ErrorCode, success, alloc-eq_some, alloc, malloc,
  malloc-eq_some,
}
use melsec_mc_net.Socket.{is_positive, is_negative}
use melsec_mc_net.Socket.Receive.{incoming}
use melsec_mc_net.Socket.Send.{capacity}
use melsec_mc_net.Command.Frame.{request}
use melsec_mc_net.Response.Frame.{ResponseFrame, IsWellFormed, frame_of, code_of, copied}
use melsec_mc_net.Transaction.Session.{IsReady}
use melsec_mc_net.Client.Values.{read_word_value}
use melsec_mc_net.Client.Typed.{
  decoded, read_scalar, even_up, string_of, mc_read_string, mc_write_string,
}
use melsec_mc_net.Client.Exchanges.{
  Requested, read_word_value-Requested, write_word_value-Requested,
}

-- The bytes of a string, with a zero if their number is odd.
abbrev pub padded : ℕ → List ℕ → List ℕ
padded len val = take len val ++ replicate (even_up len - len) 0

pub length-padded :
    (len : ℕ) (val : List ℕ) → len ≤ length val → length (padded len val) ≡ even_up len
length-padded len val h = ground (
  arith,
  length-append (take len val) (replicate (even_up len - len) 0),
  length-take len val h,
  length-replicate {A = ℕ} (even_up len - len) 0,
)

string_of-eq :
    (len : ℕ) (text : List ℕ) (w : World)
    → w.mallocs ≡ []
    → len ≤ length text
    → string_of len (success, some text) w ≡ some ((success, some (take len text)), w)
unfolding string_of
string_of-eq len text w m h =
    let enough : leb len (length text) ≡ true = ground arith in
    rw (enough, if◌then◌else◌)
      (>>=-eq_some (alloc (take len text)) _ (alloc-eq_some (take len text) w m))

pub words-IsPositive : (len : ℕ) → 0 < len → len + 1 < 2 ^ 31 → is_positive (even_up len / 2) ≡ true
words-IsPositive len pos small = ground arith

module _ (fd : ℕ) (w : World) (ready : IsReady fd w) (f : ResponseFrame) (valid : IsWellFormed f)
    (rest : List ℕ) (comes : incoming w.recvs ≡ frame_of f ++ rest) (address : List ℕ)
    (a : AddressData) where
  -- A read of a string of a positive length below 2 ^ 31 - 1, on a ready descriptor, at an address
  -- that is parsed, where the system takes the frame at once and the PLC answers with a well-formed
  -- response with the end code 0 and at least as many bytes as the length rounded up to whole words:
  -- the result is success with the first of these bytes, as many as that length, without a terminating
  -- zero of its own, and the PLC was asked, once, for words of the address's device, from its number
  -- modulo 2 ^ 24 on, as many as its number of points modulo 2 ^ 16.
  pub mc_read_string-value :
      (len : ℕ)
      → 0 < len
      → len + 1 < 2 ^ 31
      → mc_analysis_address (some address) (even_up len / 2) ≡ parsed a
      → 21 ≤ capacity w.sends
      → f.end0 + 256 * f.end1 ≡ 0
      → even_up len ≤ length f.values
      → (v : World) × (mc_read_string fd (some address) len w
          ≡ some ((success, some (take (even_up len) f.values)), v))
        × Requested (request a 0x0401 0 a.length []) rest fd w v
  unfolding mc_read_string
  mc_read_string-value len pos small parses fits zero_code enough =
      let (v, returns, done) =
        read_word_value-Requested fd w ready f valid rest comes address (even_up len / 2) a none
          (words-IsPositive len pos small) parses fits in
      let good : (code_of f, copied 0 true none f.values) ≡ (success, some f.values) =
        ground (arith, zero_code, enough) in
      let positive : is_positive len ≡ true = ground arith in
      (
        v,
        rw (ready.positive, positive, if◌then◌else◌)
            (>>=-eq_some (read_word_value fd (some address) (even_up len / 2) none) _ returns
              ∙ ap (λ (r : ErrorCode × Buffer). string_of (even_up len) r v) good
              ∙ string_of-eq (even_up len) f.values v
                  (ap (λ (u : World). u.mallocs) done.after.world ∙ ready.memory) enough),
        done,
      )

  -- A write of a string of a length below 65523, of which the caller has as many bytes, on a ready
  -- descriptor, at an address that is parsed, where the system takes the frame at once and a
  -- well-formed response comes whole: the PLC is asked, once, to write exactly the bytes of the
  -- string, and a zero if their number is odd, and the code tells whether it answers with the end code
  -- 0.
  pub mc_write_string-Requested :
      (len : ℕ) (val : List ℕ)
      → len ≤ length val
      → len < 65523
      → mc_analysis_address (some address) (even_up len / 2) ≡ parsed a
      → len + 22 ≤ capacity w.sends
      → (v : World) × (mc_write_string fd (some address) len (some val) w ≡ some (code_of f, v))
        × Requested (request a 0x1401 0 (length (padded len val) / 2) (padded len val)) rest fd w v
  unfolding mc_write_string
  mc_write_string-Requested len val has short parses fits =
      let len_eq = length-padded len val has in
      let not_negative : is_negative len ≡ false = ground arith in
      let covers : ltb (length val) len ≡ false = ground arith in
      let (v, returns, done) =
        write_word_value-Requested fd w ready f valid rest comes address (even_up len / 2) a
          (padded len val) parses (ground (arith, len_eq)) (ground (arith, len_eq)) in
      (
        v,
        rw (ready.positive, not_negative, if◌then◌else◌, not)
            (>>=-eq_some malloc _ (malloc-eq_some w ready.memory) ∙ rw (covers, ◌||◌) returns),
        done,
      )

  -- A read of a number, of any of the eight types: on a ready descriptor, at an address that is
  -- parsed, where the system takes the frame at once and the PLC answers with a well-formed response
  -- with the end code 0 and fewer bytes than the function asks for: the result is success, no value is
  -- stored, and the PLC was asked, once, for words of the address's device, from its number modulo 2 ^
  -- 24 on, as many as its number of points modulo 2 ^ 16.
  pub read_scalar-short :
      (s : Scalar) (words minimum : ℕ)
      → mc_analysis_address (some address) words ≡ parsed a
      → is_positive words ≡ true
      → 21 ≤ capacity w.sends
      → f.end0 + 256 * f.end1 ≡ 0
      → length f.values < minimum
      → (v : World) × (read_scalar s words minimum fd (some address) w ≡ some ((success, none), v))
        × Requested (request a 0x0401 0 a.length []) rest fd w v
  unfolding read_scalar decoded
  read_scalar-short s words minimum parses pos fits zero_code few =
      let (v, returns, done) =
        read_word_value-Requested fd w ready f valid rest comes address words a none pos parses
          fits in
      let good : code_of f ≡ success = ground (arith, zero_code) in
      let too_few : leb minimum (buffer_length (copied 0 true none f.values)) ≡ false =
        ground (arith, few) in
      (
        v,
        rw (ready.positive, if◌then◌else◌)
            (>>=-eq_some (read_word_value fd (some address) words none) _ returns
              ∙ ap
                  (λ (c : ErrorCode). decoded (decode s) minimum (c, copied 0 true none f.values) v)
                  good
              ∙ rw (too_few, if◌then◌else◌) refl),
        done,
      )

take-padded :
    (len : ℕ) (val : List ℕ)
    → len ≤ length val
    → take (even_up len) (padded len val) ≡ padded len val
take-padded len val has =
    sym (ap (λ (n : ℕ). take n (padded len val)) (length-padded len val has))
    ∙ take-length (padded len val)

-- Two connections, or two moments of one, each ready for a transaction, and what the PLC answers there.
module _ (fd : ℕ) (w u : World) (ready_w : IsReady fd w) (ready_u : IsReady fd u)
    (f g : ResponseFrame) (valid_f : IsWellFormed f) (valid_g : IsWellFormed g)
    (rest_w rest_u : List ℕ) (comes_w : incoming w.recvs ≡ frame_of f ++ rest_w)
    (comes_u : incoming u.recvs ≡ frame_of g ++ rest_u) (address : List ℕ) (a : AddressData) where
  -- A string of a positive length below 65523, of which the caller has as many bytes, at an address
  -- that is parsed, on a descriptor that is ready when it is written and when it is read, where the
  -- system takes the frames at once and the PLC answers both with well-formed responses: the write
  -- asks the PLC once to store the bytes of the string and a zero if their number is odd; if it
  -- answers the read with the end code 0 and the bytes that it was asked to store, the read returns
  -- success and these bytes, without a terminating zero of its own, and the PLC was asked once for the
  -- words of the string. In both requests the device number is that of the address modulo 2 ^ 24.
  pub mc_read_string-mc_write_string :
      (len : ℕ) (val : List ℕ)
      → 0 < len
      → len ≤ length val
      → len < 65523
      → mc_analysis_address (some address) (even_up len / 2) ≡ parsed a
      → len + 22 ≤ capacity w.sends
      → 21 ≤ capacity u.sends
      → g.end0 + 256 * g.end1 ≡ 0
      → g.values ≡ padded len val
      → ((v : World) × (mc_write_string fd (some address) len (some val) w ≡ some (code_of f, v))
          × Requested
              (request a 0x1401 0 (length (padded len val) / 2) (padded len val))
              rest_w
              fd
              w
              v)
        × ((v : World) × (mc_read_string fd (some address) len u
              ≡ some ((success, some (padded len val)), v))
            × Requested (request a 0x0401 0 a.length []) rest_u fd u v)
  mc_read_string-mc_write_string len val pos has short parses fits_w fits_u good stored =
      let (v, returns, done) =
        mc_read_string-value fd u ready_u g valid_g rest_u comes_u address a len pos (omega arith)
          parses fits_u good (omega (arith, ap length stored, length-padded len val has)) in
      (
        mc_write_string-Requested fd w ready_w f valid_f rest_w comes_w address a len val has short
            parses fits_w,
        (
          v,
          returns
              ∙ ap (λ (bytes : List ℕ). some ((success, some bytes), v))
                  (ap (take (even_up len)) stored ∙ take-padded len val has),
          done,
        ),
      )

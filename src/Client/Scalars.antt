-- ===== src/Client/Scalars.antt =====
-- The reads and writes of the eight numeric types, from the address to the value.
use mathlib.Core.Path.{ap₂, subst}
use melsec_mc_net.Prelude.{
  ℕ, ◌+◌, ◌*◌, ◌/◌, ◌^◌, ◌<◌, ◌≤◌, leb, ◌≡◌, sym, ap, ◌∙◌, true, some, none, Option, List, [], ◌++◌,
  arith, length, if◌then◌else◌, append-nil,
}
use melsec_mc_net.Address.{AddressData, parsed, mc_analysis_address}
use melsec_mc_net.Words.Scalar.{
  Scalar, short, ushort, int32, uint32, int64, uint64, float, double, width, encode, decode,
}
use melsec_mc_net.Words.LittleEndian.{le_bytes, length-le_bytes}
use melsec_mc_net.Words.RoundTrip.{decode-encode, encode-eq-le_bytes}
use melsec_mc_net.Machine.{
  World, checked, >>=-eq_some, Buffer, ErrorCode, success, error_failed, alloc-eq_some, alloc,
}
use melsec_mc_net.Socket.{is_positive}
use melsec_mc_net.Socket.Receive.{incoming}
use melsec_mc_net.Socket.Send.{capacity}
use melsec_mc_net.Command.Frame.{request}
use melsec_mc_net.Response.Frame.{ResponseFrame, IsWellFormed, frame_of, code_of, copied}
use melsec_mc_net.Transaction.Session.{IsReady}
use melsec_mc_net.Client.Values.{read_word_value}
use melsec_mc_net.Client.Typed.{decoded, read_scalar, write_scalar}
use melsec_mc_net.Client.Exchanges.{
  Requested, read_word_value-Requested, write_word_value-Requested,
}

pub length-encode : (s : Scalar) (x : ℕ) → length (encode s x) ≡ width s
length-encode s x = rw encode-eq-le_bytes (length-le_bytes (width s) x)

pub width-bounds : (s : Scalar) → (0 < width s) × (width s ≤ 8)
width-bounds short = (omega arith, omega arith)
width-bounds ushort = (omega arith, omega arith)
width-bounds int32 = (omega arith, omega arith)
width-bounds uint32 = (omega arith, omega arith)
width-bounds int64 = (omega arith, omega arith)
width-bounds uint64 = (omega arith, omega arith)
width-bounds float = (omega arith, omega arith)
width-bounds double = (omega arith, omega arith)

pub decoded-success :
    (s : Scalar) (x minimum : ℕ) (w : World)
    → x < 256 ^ width s
    → minimum ≤ width s
    → decoded (decode s) minimum (success, some (encode s x)) w ≡ some ((success, some x), w)
unfolding decoded
decoded-success s x minimum w small least =
    let enough : leb minimum (length (encode s x)) ≡ true = ground (arith, length-encode s x) in
    let read : decode s (encode s x) ≡ some x =
      ap (decode s) (sym (append-nil (encode s x))) ∙ decode-encode s x [] small in
    rw (enough, if◌then◌else◌)
      (>>=-eq_some (checked (decode s (encode s x))) _ (ap (λ (o : Option ℕ). checked o w) read))

module _ (fd : ℕ) (w : World) (ready : IsReady fd w) (f : ResponseFrame) (valid : IsWellFormed f)
    (rest : List ℕ) (comes : incoming w.recvs ≡ frame_of f ++ rest) (s : Scalar) (address : List ℕ)
    (words : ℕ) (a : AddressData)
    (parses : mc_analysis_address (some address) words ≡ parsed a) where
  -- A read of a number, of any of the eight types: on a ready descriptor, at an address that is
  -- parsed, where the system takes the frame at once and the PLC answers with a well-formed response
  -- with the end code 0 and the bytes of a value that fits the type, the result is success with that
  -- value, and the PLC was asked, once, for words of the address's device, from its number modulo 2 ^
  -- 24 on, as many as its number of points modulo 2 ^ 16.
  pub read_scalar-value :
      (minimum x : ℕ)
      → is_positive words ≡ true
      → 21 ≤ capacity w.sends
      → f.end0 + 256 * f.end1 ≡ 0
      → f.values ≡ encode s x
      → x < 256 ^ width s
      → minimum ≤ width s
      → (v : World) × (read_scalar s words minimum fd (some address) w
          ≡ some ((success, some x), v))
        × Requested (request a 0x0401 0 a.length []) rest fd w v
  unfolding read_scalar
  read_scalar-value minimum x pos fits zero_code values small least =
      let (v, returns, done) =
        read_word_value-Requested fd w ready f valid rest comes address words a none pos parses
          fits in
      let good : (code_of f, copied 0 true none f.values) ≡ (success, some (encode s x)) =
        ground (arith, zero_code, values, length-encode s x, width-bounds s) in
      (
        v,
        rw (ready.positive, if◌then◌else◌)
            (>>=-eq_some (read_word_value fd (some address) words none) _ returns
              ∙ ap (λ (r : ErrorCode × Buffer). decoded (decode s) minimum r v) good
              ∙ decoded-success s x minimum v small least),
        done,
      )

  -- A read of a number, of any of the eight types: on a ready descriptor, at an address that is
  -- parsed, where the system takes the frame at once and the PLC answers with a well-formed response
  -- with another end code than 0, whatever data come with it, the result is the general error and no
  -- value, and the PLC was asked for the words of the address, once.
  pub read_scalar-refused :
      (minimum : ℕ)
      → is_positive words ≡ true
      → 21 ≤ capacity w.sends
      → 0 < f.end0 + 256 * f.end1
      → (v : World) × (read_scalar s words minimum fd (some address) w
          ≡ some ((error_failed, none), v))
        × Requested (request a 0x0401 0 a.length []) rest fd w v
  unfolding read_scalar decoded
  read_scalar-refused minimum pos fits bad_code =
      let (v, returns, done) =
        read_word_value-Requested fd w ready f valid rest comes address words a none pos parses
          fits in
      let bad : code_of f ≡ error_failed = ground (arith, bad_code) in
      (
        v,
        rw (ready.positive, if◌then◌else◌)
            (>>=-eq_some (read_word_value fd (some address) words none) _ returns
              ∙ ap
                  (λ (c : ErrorCode). decoded (decode s) minimum (c, copied 0 true none f.values) v)
                  bad),
        done,
      )

  -- A write of a number, of any of the eight types, on a ready descriptor, at an address that is
  -- parsed, where the system takes the frame at once and a well-formed response comes whole: the PLC
  -- is asked, once, to write the bytes of the value, low byte first, to as many words as the type has,
  -- from the address's number modulo 2 ^ 24 on, and the code tells whether it answers with the end
  -- code 0.
  pub write_scalar-Requested :
      (x : ℕ)
      → 29 ≤ capacity w.sends
      → (v : World) × (write_scalar s words fd (some address) x w ≡ some (code_of f, v))
        × Requested (request a 0x1401 0 (width s / 2) (le_bytes (width s) x)) rest fd w v
  unfolding write_scalar
  write_scalar-Requested x fits =
      let len = length-encode s x in
      let bound = width-bounds s in
      let (v, returns, done) =
        write_word_value-Requested fd w ready f valid rest comes address words a (encode s x) parses
          (omega (arith, len, bound.1)) (omega (arith, len, bound.1)) in
      (
        v,
        rw (ready.positive, if◌then◌else◌)
            (>>=-eq_some (alloc (encode s x)) _ (alloc-eq_some (encode s x) w ready.memory)
              ∙ returns),
        subst (λ (p : ℕ × List ℕ). Requested (request a 0x1401 0 (p.0 / 2) p.1) rest fd w v)
            (ap₂ (λ (n : ℕ) (bs : List ℕ). (n, bs)) len (encode-eq-le_bytes s x)) done,
      )

-- ===== src/Ascii/Calls.antt =====
-- The reads and writes of the ASCII protocol, from the address to the value.
use mathlib.Core.Path.{ap₂, subst}
use melsec_mc_net.Prelude.{
  ℕ, ◌+◌, ◌*◌, ◌%◌, ◌^◌, ◌<◌, ◌≤◌, ◌≡◌, refl, ◌∙◌, true, false, some, none, List, [], ◌++◌, arith,
  All, if◌then◌else◌,
}
use melsec_mc_net.Address.{AddressData, parsed, mc_analysis_address}
use melsec_mc_net.Words.Scalar.{
  Scalar, short, ushort, int32, uint32, int64, uint64, float, double, width, encode,
}
use melsec_mc_net.Words.LittleEndian.{le_bytes, length-le_bytes, IsBytes-le_bytes}
use melsec_mc_net.Words.RoundTrip.{encode-eq-le_bytes}
use melsec_mc_net.Machine.{World, >>=-eq_some, success, error_failed, alloc, alloc-eq_some}
use melsec_mc_net.Socket.{is_positive}
use melsec_mc_net.Socket.Receive.{incoming}
use melsec_mc_net.Socket.Send.{capacity}
use melsec_mc_net.Client.{decoded}
use melsec_mc_net.Client.Scalars.{length-encode, width-bounds, decoded-success}
use melsec_mc_net.Ascii.Command.Words.{words_text, IsByte, IsEven}
use melsec_mc_net.Ascii.Command.Core.{HasDigits, Asks, ascii_request}
use melsec_mc_net.Ascii.Response.Frame.{
  AsciiResponse, HasFields, ascii_frame_of, ascii_code_of, parse_read-words, parse_read-refused,
}
use melsec_mc_net.Ascii.Exchanges.{IsAsciiReady, AsciiRequested}
use melsec_mc_net.Ascii.Values.{ascii_read_word_value}
use melsec_mc_net.Ascii.Typed.{ascii_read_scalar, ascii_write_scalar}
use melsec_mc_net.Ascii.Requests.{read_value-Requested, write_word_value-Requested}

even_width : (s : Scalar) → width s % 2 ≡ 0
even_width short = refl
even_width ushort = refl
even_width int32 = refl
even_width uint32 = refl
even_width int64 = refl
even_width uint64 = refl
even_width float = refl
even_width double = refl

pub IsEven-encode : (s : Scalar) (x : ℕ) → IsEven (encode s x)
IsEven-encode s x = rw encode-eq-le_bytes (rw length-le_bytes (even_width s))

pub IsByte-encode : (s : Scalar) (x : ℕ) → All IsByte (encode s x)
IsByte-encode s x = rw encode-eq-le_bytes (IsBytes-le_bytes (width s) x)

module _ (fd : ℕ) (w : World) (at : IsAsciiReady fd w) (r : AsciiResponse) (valid : HasFields r)
    (rest : List ℕ) (comes : incoming w.recvs ≡ ascii_frame_of r ++ rest) where
  module _ (address : List ℕ) (words : ℕ) (a : AddressData) (more : ℕ)
      (parses : mc_analysis_address (some address) words ≡ parsed a)
      (digits : HasDigits a more) where
    module _ (pos : is_positive words ≡ true) where
      -- A read of a number, of any of the eight types, over the ASCII protocol: on a ready descriptor,
      -- with a network address of two bytes, of a positive number of words at an address that is
      -- parsed and whose number is not negative, where the system takes the frame at once and the PLC
      -- answers with well-formed fields, the end code 0 and the words of a value that fits the type,
      -- the result is success with that value; the PLC was asked, once, for as many words as the
      -- address's number of points modulo 2 ^ 16, from the device number that the first six digits of
      -- the address's number are.
      pub ascii_read_scalar-value :
          (s : Scalar) (minimum x : ℕ)
          → 42 ≤ capacity w.sends
          → r.end_code ≡ 0
          → r.text ≡ words_text (encode s x)
          → x < 256 ^ width s
          → minimum ≤ width s
          → (v : World) × (ascii_read_scalar s words minimum fd (some address) w
              ≡ some ((success, some x), v))
            × AsciiRequested (Asks a (ascii_request a more 0x0401 0 []) 20) rest fd w v
      unfolding ascii_read_scalar ascii_read_word_value
      ascii_read_scalar-value s minimum x fits good text small least =
          let len = length-encode s x in
          let (v, returns, requested) =
            read_value-Requested fd w at r valid rest comes address words a more parses digits false
              none (success, some (encode s x)) pos fits
              (λ u m.
                parse_read-words r valid good (encode s x) none u text
                  (omega (arith, len, width-bounds s)) (IsEven-encode s x) (IsByte-encode s x) m) in
          (
            v,
            rw (at.ready.positive, if◌then◌else◌)
                (>>=-eq_some (ascii_read_word_value fd (some address) words none) _ returns
                  ∙ decoded-success s x minimum v small least),
            requested,
          )

      -- A read of a number over the ASCII protocol, under the same conditions on the descriptor, the
      -- address and the network, that the PLC answers with another end code than 0, whatever data come
      -- with it: the result is the general error and no value, and the PLC was asked once.
      pub ascii_read_scalar-refused :
          (s : Scalar) (minimum : ℕ)
          → 42 ≤ capacity w.sends
          → 0 < r.end_code
          → (v : World) × (ascii_read_scalar s words minimum fd (some address) w
              ≡ some ((error_failed, none), v))
            × AsciiRequested (Asks a (ascii_request a more 0x0401 0 []) 20) rest fd w v
      unfolding ascii_read_scalar ascii_read_word_value decoded
      ascii_read_scalar-refused s minimum fits bad =
          let (v, returns, requested) =
            read_value-Requested fd w at r valid rest comes address words a more parses digits false
              none (error_failed, none) pos fits
              (λ u m. parse_read-refused r valid false none u bad) in
          (
            v,
            rw (at.ready.positive, if◌then◌else◌)
                (>>=-eq_some (ascii_read_word_value fd (some address) words none) _ returns),
            requested,
          )

      -- A write of a number, of any of the eight types, over the ASCII protocol: on a ready
      -- descriptor, with a network address of two bytes, to a positive number of words at an address
      -- that is parsed and whose number is not negative, where the system takes the frame at once and
      -- a response with well-formed fields comes whole, the PLC is asked, once, to write the words of
      -- the value, the low word first, each in four digits and so with its high byte first, from the
      -- device number that the first six digits of the address's number are, and the code tells
      -- whether it answers with the end code 0. The number of points is that of the address modulo 2 ^
      -- 16.
      pub ascii_write_scalar-Requested :
          (s : Scalar) (x : ℕ)
          → 58 ≤ capacity w.sends
          → (v : World) × (ascii_write_scalar s words fd (some address) x w
              ≡ some (ascii_code_of r, v))
            × AsciiRequested
                (Asks a
                  (ascii_request a more 0x1401 0 (words_text (le_bytes (width s) x)))
                  (2 * width s + 20))
                rest
                fd
                w
                v
      unfolding ascii_write_scalar
      ascii_write_scalar-Requested s x fits =
          let len = length-encode s x in
          let bound = width-bounds s in
          let (v, returns, requested) =
            write_word_value-Requested fd w at r valid rest comes address words a more parses digits
              (encode s x) pos (omega (arith, len, bound.0)) (omega (arith, len, bound.1))
              (IsEven-encode s x) (IsByte-encode s x) (omega (arith, len, bound.1)) in
          (
            v,
            rw (at.ready.positive, if◌then◌else◌)
                (>>=-eq_some (alloc (encode s x)) _ (alloc-eq_some (encode s x) w at.ready.memory)
                  ∙ returns),
            subst
                (λ (p : ℕ × List ℕ).
                  AsciiRequested
                    (Asks a (ascii_request a more 0x1401 0 (words_text p.1)) (2 * p.0 + 20)) rest fd
                    w v)
                (ap₂ (λ (n : ℕ) (bs : List ℕ). (n, bs)) len (encode-eq-le_bytes s x)) requested,
          )

-- ===== src/Plc/Ascii/Sessions.antt =====
-- A number that is written over the ASCII protocol is read again, over either protocol.
use melsec_mc_net.Prelude.{
  ℕ, ◌+◌, ◌*◌, ◌/◌, ◌%◌, ◌^◌, ◌<◌, ◌≤◌, ◌≡◌, refl, sym, ap, ◌∙◌, some, List, [], ◌++◌, arith,
  length,
}
use melsec_mc_net.Address.{AddressData, parsed, mc_analysis_address}
use melsec_mc_net.Address.Length.{length-parsed}
use melsec_mc_net.Words.Scalar.{Scalar, width, encode}
use melsec_mc_net.Words.LittleEndian.{le_bytes, length-le_bytes, IsBytes-le_bytes}
use melsec_mc_net.Words.RoundTrip.{encode-eq-le_bytes}
use melsec_mc_net.Machine.{World, success}
use melsec_mc_net.Socket.Receive.{incoming}
use melsec_mc_net.Socket.Send.{capacity}
use melsec_mc_net.Command.Request.{Request}
use melsec_mc_net.Response.Frame.{ResponseFrame, frame_of}
use melsec_mc_net.Transaction.Session.{IsReady}
use melsec_mc_net.Client.{read_scalar}
use melsec_mc_net.Client.Exchanges.{Requested}
use melsec_mc_net.Client.Scalars.{length-encode, width-bounds, read_scalar-value}
use melsec_mc_net.Ascii.Request.{AsciiRequest}
use melsec_mc_net.Ascii.Command.Words.{words_text, length-words_text}
use melsec_mc_net.Ascii.Command.Core.{HasDigits, Asks, ascii_request}
use melsec_mc_net.Ascii.Response.Frame.{AsciiResponse, HasFields, ascii_frame_of}
use melsec_mc_net.Ascii.Exchanges.{IsAsciiReady, AsciiRequested}
use melsec_mc_net.Ascii.Typed.{ascii_read_scalar, ascii_write_scalar}
use melsec_mc_net.Ascii.Calls.{IsEven-encode, ascii_read_scalar-value, ascii_write_scalar-Requested}
use melsec_mc_net.Plc.{Memory, answer, serve, serve_all}
use melsec_mc_net.Plc.Stored.{
  answer-IsWellFormed, write_request, read_request, Others, later, written, answered,
}
use melsec_mc_net.Plc.Sessions.{even_width, words-IsPositive}
use melsec_mc_net.Plc.Ascii.{words_of, ascii_answer, ascii_serve}
use melsec_mc_net.Plc.Ascii.Served.{words_of-words_text, serves}

module _ (codes : List ℕ → ℕ) (a : AddressData) (digits : HasDigits a 0)
    (known : codes (ascii_request a 0 0 0 []).device ≡ a.data_type.data_code) where
  module _ (s : Scalar) (x : ℕ) (mem : Memory) (address : List ℕ)
      (parses : mc_analysis_address (some address) (width s / 2) ≡ parsed a) (others : List Request)
      (spare : Others a a.length others) where
    abbrev bytes : List ℕ
    bytes = le_bytes (width s) x

    -- What the PLC is asked over the ASCII protocol.
    abbrev ascii_write : AsciiRequest
    ascii_write = ascii_request a 0 0x1401 0 (words_text bytes)

    abbrev ascii_read : AsciiRequest
    ascii_read = ascii_request a 0 0x0401 0 []

    -- The memory after the write and other requests.
    abbrev after_write : Memory
    after_write = serve_all others (ascii_serve codes ascii_write mem).0

    count : 2 * (a.length % 2 ^ 16) ≡ length bytes
    count =
        ap (λ (n : ℕ). 2 * (n % 2 ^ 16)) (length-parsed address (width s / 2) a parses)
        ∙ even_width s
        ∙ sym (length-le_bytes (width s) x)

    write_served : ascii_serve codes ascii_write mem ≡ (
      (serve (write_request a a.length bytes) mem).0,
      ascii_answer (serve (write_request a a.length bytes) mem).1,
    )
    write_served = serves codes a digits known 0x1401 (words_text bytes) bytes mem (
        words_of-words_text bytes (IsBytes-le_bytes (width s) x)
          (omega (arith, length-le_bytes (width s) x, even_width s)))

    same_memory : after_write ≡ later a a.length bytes others mem
    same_memory = ap (λ (t : Memory × AsciiResponse). serve_all others t.0) write_served

    -- What the PLC answers to the two reads.
    binary_answer : (serve (read_request a a.length) after_write).1 ≡ answer 0 0 (encode s x)
    binary_answer =
        ap (λ (m : Memory). (serve (read_request a a.length) m).1) same_memory
        ∙ answered a a.length bytes count mem others spare
        ∙ ap (answer 0 0) (sym (encode-eq-le_bytes s x))

    read_answer :
        (ascii_serve codes ascii_read after_write).1 ≡ ascii_answer (answer 0 0 (encode s x))
    unfolding words_of
    read_answer =
        ap (λ (t : Memory × AsciiResponse). t.1)
          (serves codes a digits known 0x0401 [] [] after_write refl)
        ∙ ap ascii_answer binary_answer

    write_answer : (ascii_serve codes ascii_write mem).1 ≡ ascii_answer (answer 0 0 [])
    write_answer =
        ap (λ (t : Memory × AsciiResponse). t.1) write_served
        ∙ ap (λ (t : Memory × ResponseFrame). ascii_answer t.1) (written a a.length bytes count mem)

    HasFields-answer : HasFields (ascii_answer (answer 0 0 (encode s x)))
    HasFields-answer = record {
      start_length = refl;
      text_length = omega (
        arith,
        length-words_text (encode s x) (IsEven-encode s x),
        length-encode s x,
        width-bounds s,
      );
      code_range = omega arith;
    }

    HasFields-done : HasFields (ascii_answer (answer 0 0 []))
    unfolding words_text
    HasFields-done = record {
      start_length = refl;
      text_length = omega arith;
      code_range = omega arith;
    }

    module _ (fd fd' : ℕ) (w u t : World) (at_w : IsAsciiReady fd w) (at_u : IsAsciiReady fd u)
        (ready_t : IsReady fd' t) (rest_w rest_u rest_t : List ℕ)
        (comes_w : incoming w.recvs
          ≡ ascii_frame_of (ascii_serve codes ascii_write mem).1 ++ rest_w)
        (comes_u : incoming u.recvs
          ≡ ascii_frame_of (ascii_serve codes ascii_read after_write).1 ++ rest_u)
        (comes_t : incoming t.recvs
          ≡ frame_of (serve (read_request a a.length) after_write).1 ++ rest_t) where
      -- The library and a PLC with a memory, which serves both protocols and knows the device of the
      -- address. A number of any of the eight types, which fits its type, is written over the ASCII
      -- protocol at an address that is parsed and whose number has at most six digits, and then read
      -- over the ASCII protocol, and over the binary one on a descriptor of its own, where the
      -- descriptors are ready, the ASCII ones with a network address of two bytes, the system takes
      -- the frames at once, and the responses that come are those that the PLC makes of the requests,
      -- reading and writing the high byte of each word first in the ASCII protocol. After the write
      -- the PLC may serve any requests except those for the words of the number. Then all three calls
      -- return success, both reads give the number that was written, and each call sent the PLC its
      -- request, once.
      pub ascii_write_scalar-reads :
          (minimum : ℕ)
          → x < 256 ^ width s
          → minimum ≤ width s
          → 58 ≤ capacity w.sends
          → 42 ≤ capacity u.sends
          → 21 ≤ capacity t.sends
          → ((v : World) × (ascii_write_scalar s (width s / 2) fd (some address) x w
                ≡ some (success, v))
              × AsciiRequested (Asks a ascii_write (2 * width s + 20)) rest_w fd w v)
            × ((v : World) × (ascii_read_scalar s (width s / 2) minimum fd (some address) u
                  ≡ some ((success, some x), v))
                × AsciiRequested (Asks a ascii_read 20) rest_u fd u v)
            × ((v : World) × (read_scalar s (width s / 2) minimum fd' (some address) t
                  ≡ some ((success, some x), v))
                × Requested (read_request a a.length) rest_t fd' t v)
      ascii_write_scalar-reads minimum small least fits_w fits_u fits_t = (
        ascii_write_scalar-Requested fd w at_w (ascii_answer (answer 0 0 [])) HasFields-done rest_w
            (comes_w ∙ ap (λ (r : AsciiResponse). ascii_frame_of r ++ rest_w) write_answer) address
            (width s / 2) a 0 parses digits (words-IsPositive s) s x fits_w,
        ascii_read_scalar-value fd u at_u (ascii_answer (answer 0 0 (encode s x))) HasFields-answer
            rest_u (comes_u ∙ ap (λ (r : AsciiResponse). ascii_frame_of r ++ rest_u) read_answer)
            address (width s / 2) a 0 parses digits (words-IsPositive s) s minimum x fits_u refl
            refl small least,
        read_scalar-value fd' t ready_t (answer 0 0 (encode s x))
            (answer-IsWellFormed (encode s x) (omega (arith, length-encode s x, width-bounds s)))
            rest_t (comes_t ∙ ap (λ (f : ResponseFrame). frame_of f ++ rest_t) binary_answer) s
            address (width s / 2) a parses minimum x (words-IsPositive s) fits_t refl refl small
            least,
      )

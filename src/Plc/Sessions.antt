-- ===== src/Plc/Sessions.antt =====
-- The library and a PLC with a memory: a number that is written is read again.
use melsec_mc_net.Prelude.{
  ℕ, ◌*◌, ◌/◌, ◌%◌, ◌^◌, ◌<◌, ◌≤◌, ◌≡◌, refl, sym, ap, ◌∙◌, true, some, List, [], ◌++◌, arith,
  length,
}
use mathlib.Core.Path.{subst}
use melsec_mc_net.Address.{AddressData, parsed, mc_analysis_address}
use melsec_mc_net.Address.Length.{length-parsed}
use melsec_mc_net.Words.Scalar.{Scalar, width, encode}
use melsec_mc_net.Words.LittleEndian.{le_bytes, length-le_bytes}
use melsec_mc_net.Words.RoundTrip.{encode-eq-le_bytes}
use melsec_mc_net.Machine.{World, success}
use melsec_mc_net.Socket.{is_positive}
use melsec_mc_net.Socket.Receive.{incoming}
use melsec_mc_net.Socket.Send.{capacity}
use melsec_mc_net.Command.Request.{Request}
use melsec_mc_net.Response.Frame.{ResponseFrame, frame_of}
use melsec_mc_net.Transaction.Session.{IsReady}
use melsec_mc_net.Client.{read_scalar, write_scalar}
use melsec_mc_net.Client.Exchanges.{Requested}
use melsec_mc_net.Client.Scalars.{
  length-encode, width-bounds, read_scalar-value, write_scalar-Requested,
}
use melsec_mc_net.Plc.{Memory, answer, serve}
use melsec_mc_net.Plc.Stored.{
  answer-IsWellFormed, write_request, read_request, Others, later, written, answered,
}

pub even_width : (s : Scalar) → 2 * (width s / 2 % 2 ^ 16) ≡ width s
even_width Scalar.short = refl
even_width Scalar.ushort = refl
even_width Scalar.int32 = refl
even_width Scalar.uint32 = refl
even_width Scalar.int64 = refl
even_width Scalar.uint64 = refl
even_width Scalar.float = refl
even_width Scalar.double = refl

pub words-IsPositive : (s : Scalar) → is_positive (width s / 2) ≡ true
words-IsPositive Scalar.short = refl
words-IsPositive Scalar.ushort = refl
words-IsPositive Scalar.int32 = refl
words-IsPositive Scalar.uint32 = refl
words-IsPositive Scalar.int64 = refl
words-IsPositive Scalar.uint64 = refl
words-IsPositive Scalar.float = refl
words-IsPositive Scalar.double = refl

module _ (s : Scalar) (x : ℕ) (a : AddressData) (mem : Memory) where
  abbrev bytes : List ℕ
  bytes = le_bytes (width s) x

  count : 2 * (width s / 2 % 2 ^ 16) ≡ length bytes
  count = even_width s ∙ sym (length-le_bytes (width s) x)

  module _ (fd : ℕ) (w u : World) (ready_w : IsReady fd w) (ready_u : IsReady fd u)
      (rest_w rest_u : List ℕ) (others : List Request) (spare : Others a (width s / 2) others)
      (comes_w : incoming w.recvs
        ≡ frame_of (serve (write_request a (width s / 2) bytes) mem).1 ++ rest_w)
      (comes_u : incoming u.recvs
        ≡ frame_of (serve (read_request a (width s / 2)) (later a (width s / 2) bytes others mem)).1
          ++ rest_u)
      (address : List ℕ)
      (parses : mc_analysis_address (some address) (width s / 2) ≡ parsed a) where
    -- The library and a PLC with a memory. A number of any of the eight types, which fits its type, is
    -- written at an address that is parsed, and then read, on a descriptor that is ready at both
    -- times, where the system takes the frames at once, and the responses that come are those that the
    -- PLC makes of the two requests, in which the device number is that of the address modulo 2 ^ 24.
    -- Between them the PLC may serve any requests, of anybody, except those for the words of the
    -- number. Then both calls return success, the value that is read is the one that was written, and
    -- each call sent the PLC its request, once.
    pub read_scalar-write_scalar :
        (minimum : ℕ)
        → x < 256 ^ width s
        → minimum ≤ width s
        → 29 ≤ capacity w.sends
        → 21 ≤ capacity u.sends
        → ((v : World) × (write_scalar s (width s / 2) fd (some address) x w ≡ some (success, v))
            × Requested (write_request a (width s / 2) bytes) rest_w fd w v)
          × ((v : World) × (read_scalar s (width s / 2) minimum fd (some address) u
                ≡ some ((success, some x), v))
              × Requested (read_request a (width s / 2)) rest_u fd u v)
    read_scalar-write_scalar minimum small least fits_w fits_u =
        let encoded : answer 0 0 bytes ≡ answer 0 0 (encode s x) =
          ap (answer 0 0) (sym (encode-eq-le_bytes s x)) in
        let (v, returns, asked) =
          read_scalar-value fd u ready_u (answer 0 0 (encode s x))
            (answer-IsWellFormed (encode s x) (omega (arith, length-encode s x, width-bounds s)))
            rest_u
            (comes_u
              ∙ ap (λ (f : ResponseFrame). frame_of f ++ rest_u)
                  (answered a (width s / 2) bytes count mem others spare ∙ encoded))
            s address (width s / 2) a parses minimum x (words-IsPositive s) fits_u refl refl small
            least in
        (
          write_scalar-Requested fd w ready_w (answer 0 0 []) (answer-IsWellFormed [] (omega arith))
              rest_w
              (comes_w
                ∙ ap (λ (t : Memory × ResponseFrame). frame_of t.1 ++ rest_w)
                    (written a (width s / 2) bytes count mem))
              s address (width s / 2) a parses x fits_w,
          (
            v,
            returns,
            subst (λ (n : ℕ). Requested (read_request a n) rest_u fd u v)
                (length-parsed address (width s / 2) a parses) asked,
          ),
        )

-- ===== src/Client/Unknown.antt =====
-- Reads at an address that names no device.
use melsec_mc_net.Prelude.{
  ℕ, ◌%◌, ◌+◌, ◌*◌, ◌<◌, ◌≤◌, ◌^◌, ◌≡◌, ◌≢◌, refl, some, none, List, [], ◌∷◌, ◌++◌, All, true,
  if◌then◌else◌,
}
use melsec_mc_net.Address.{mc_analysis_address, zeroed}
use melsec_mc_net.Address.Devices.{initials}
use melsec_mc_net.Address.Parse.{mc_analysis_address-unknown}
use melsec_mc_net.Words.Scalar.{Scalar, width, encode}
use melsec_mc_net.Machine.{World, success, invalid_parameter, parse_address_failed}
use melsec_mc_net.Socket.{is_positive}
use melsec_mc_net.Socket.Receive.{incoming}
use melsec_mc_net.Socket.Send.{capacity}
use melsec_mc_net.Command.Request.{Request}
use melsec_mc_net.Response.Frame.{ResponseFrame, IsWellFormed, frame_of}
use melsec_mc_net.Transaction.Session.{IsReady}
use melsec_mc_net.Client.Typed.{read_scalar, decoded}
use melsec_mc_net.Client.Values.{read_word_value, analysed}
use melsec_mc_net.Client.Exchanges.{Requested}
use melsec_mc_net.Client.Scalars.{read_scalar-value}

-- The request for the words from number 0 on of the device with the code 0, which no device has.
abbrev pub no_device : ℕ → Request
no_device words = record {
  command = 0x0401;
  subcommand = 0;
  device_number = 0;
  device_code = 0;
  points = words % 2 ^ 16;
  values = [];
}

module _ (fd : ℕ) (w : World) (ready : IsReady fd w) (s : Scalar) (words minimum : ℕ)
    (pos : is_positive words ≡ true) where
  -- Without an address a read does nothing.
  no_address :
      (read_scalar s words minimum fd none w ≡ some ((invalid_parameter, none), w))
      × (read_scalar s words minimum fd (some []) w ≡ some ((parse_address_failed, none), w))
  unfolding read_scalar read_word_value analysed mc_analysis_address decoded
  no_address =
      (rw (ready.positive, if◌then◌else◌) refl, rw (ready.positive, pos, if◌then◌else◌) refl)

  -- A read of a number, of any of the eight types, at an address that names no device, for a positive
  -- number of words, on a ready descriptor. Without an address, or with the empty text, it returns an
  -- error and changes nothing, so that nothing is sent. With a text that begins with no device's
  -- letter, where the system takes the frame at once and the PLC answers with a well-formed response
  -- with the end code 0 and the bytes of a value that fits the type, whatever follows the letter: the
  -- PLC was asked, once, for the words from number 0 on of the device with the code 0, their number
  -- modulo 2 ^ 16, and the result is success with that value.
  pub read_scalar-unknown :
      (f : ResponseFrame)
      → IsWellFormed f
      → (rest : List ℕ) → incoming w.recvs ≡ frame_of f ++ rest
      → (c : ℕ) (text : List ℕ) → All (λ k. c ≢ k) initials
      → (x : ℕ) → 21 ≤ capacity w.sends
      → f.end0 + 256 * f.end1 ≡ 0
      → f.values ≡ encode s x
      → x < 256 ^ width s
      → minimum ≤ width s
      → (read_scalar s words minimum fd none w ≡ some ((invalid_parameter, none), w))
        × (read_scalar s words minimum fd (some []) w ≡ some ((parse_address_failed, none), w))
        × ((v : World) × (read_scalar s words minimum fd (some (c ∷ text)) w
              ≡ some ((success, some x), v))
            × Requested (no_device words) rest fd w v)
  read_scalar-unknown f valid rest comes c text unknown x fits good values small least =
      let (without, empty) = no_address in
      let (null, nothing, parses) = mc_analysis_address-unknown c text words unknown in
      (
        without,
        empty,
        read_scalar-value fd w ready f valid rest comes s (c ∷ text) words
            (record { data_type = zeroed; address_start = 0; length = words }) parses minimum x pos
            fits good values small least,
      )

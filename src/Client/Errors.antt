-- ===== src/Client/Errors.antt =====
-- What the operations do with bad parameters, without memory, and on a connection that breaks.
use melsec_mc_net.Prelude.{
  ℕ, ◌+◌, ◌*◌, ◌<◌, ◌≤◌, ◌≡◌, refl, ap, ◌∙◌, Bool, true, false, some, none, List, [], ◌∷◌, ◌++◌,
  arith, length, if◌then◌else◌,
}
use melsec_mc_net.Address.{AddressData, parsed, mc_analysis_address}
use melsec_mc_net.Words.{bytes2short}
use melsec_mc_net.Words.Scalar.{Scalar, encode, decode, short, ushort}
use melsec_mc_net.Machine.{
  World, >>=-eq_some, >>=-eq_none, Buffer, ErrorCode, success, malloc_failed, invalid_parameter,
  alloc-eq_some, alloc,
}
use melsec_mc_net.Socket.{is_positive}
use melsec_mc_net.Socket.Receive.{incoming}
use melsec_mc_net.Socket.Send.{capacity}
use melsec_mc_net.Command.{read_core_bytes, build_read_core_command}
use melsec_mc_net.Command.Frame.{build_read_core_command-eq_some, length-frame_bytes}
use melsec_mc_net.Response.{mc_parse_read_response, refused, release}
use melsec_mc_net.Response.Frame.{ResponseFrame, IsWellFormed, header_of, frame_of, code_of, copied}
use melsec_mc_net.Transaction.{finish, transaction, mc_send_and_receive_transaction}
use melsec_mc_net.Transaction.Session.{IsReady}
use melsec_mc_net.Transaction.Exchange.{framed, exchange-eq, exchange-double_release}
use melsec_mc_net.Client.Values.{
  Text, analysed, nothing_stored, parse_code, the_code, read_word_value, read_address_data,
}
use melsec_mc_net.Client.Remote.{
  execute, run_command, stop_command, reset_command, mc_remote_run, mc_remote_stop, mc_remote_reset,
  mc_read_plc_type,
}
use melsec_mc_net.Client.Typed.{
  decoded, mc_read_bool, mc_write_bool, read_scalar, write_scalar, mc_read_string, mc_write_string,
  mc_read_short, mc_read_ushort,
}
use melsec_mc_net.Client.Exchanges.{read_word_value-Requested}

-- Without memory for the command.
module _ (fd : ℕ) (address : List ℕ) (w : World) (later : List Bool)
    (full : w.mallocs ≡ false ∷ later) where
  no_alloc : (bytes : List ℕ) → alloc bytes w ≡ some (none, record w { mallocs = later })
  unfolding alloc
  no_alloc bytes = rw (full, alloc) refl

  -- Without memory, on a positive descriptor and with an address that is not NULL: `mc_remote_run`,
  -- `mc_remote_reset` and `mc_read_plc_type` return the error of the allocation; what `mc_remote_stop`
  -- and the writes of numbers do is undefined.
  pub no_memory :
      (s : Scalar) (words x : ℕ)
      → is_positive fd ≡ true
      → (mc_remote_run fd w ≡ some (malloc_failed, record w { mallocs = later }))
        × (mc_remote_reset fd w ≡ some (malloc_failed, record w { mallocs = later }))
        × (mc_read_plc_type fd w ≡ some ((malloc_failed, none), record w { mallocs = later }))
        × (mc_remote_stop fd w ≡ none)
        × (write_scalar s words fd (some address) x w ≡ none)
  unfolding mc_remote_run mc_remote_reset mc_read_plc_type mc_remote_stop write_scalar execute
  no_memory s words x positive = (
    rw (positive, if◌then◌else◌) (>>=-eq_some (alloc run_command) _ (no_alloc run_command)),
    rw (positive, if◌then◌else◌) (>>=-eq_some (alloc reset_command) _ (no_alloc reset_command)),
    rw (positive, if◌then◌else◌) (>>=-eq_some (alloc _) _ (no_alloc _)),
    >>=-eq_some (alloc stop_command) _ (no_alloc stop_command),
    rw (positive, if◌then◌else◌) (>>=-eq_some (alloc (encode s x)) _ (no_alloc (encode s x))),
  )

module _ (fd : ℕ) (address : Text) (w : World) (negative : is_positive fd ≡ false) where
  no_transaction :
      (cmd : List ℕ)
      → mc_send_and_receive_transaction fd (some cmd) w ≡ some (refused invalid_parameter, w)
  unfolding mc_send_and_receive_transaction transaction
  no_transaction [] = refl
  no_transaction (b ∷ cmd) = rw (negative, if◌then◌else◌) refl

  no_stop : w.mallocs ≡ [] → mc_remote_stop fd w ≡ some (invalid_parameter, w)
  unfolding mc_remote_stop finish release
  no_stop m =
      >>=-eq_some (alloc stop_command) _ (alloc-eq_some stop_command w m)
      ∙ exchange-eq fd stop_command the_code parse_code (refused invalid_parameter) w w
          (omega arith) m (no_transaction (framed stop_command w))

  no_string :
      (len : ℕ) (text : Buffer)
      → mc_write_string fd address len text w ≡ some (invalid_parameter, w)
  unfolding mc_write_string
  no_string len none = refl
  no_string len (some val) = rw (negative, if◌then◌else◌) refl

  -- On a descriptor that is not positive, where memory is to be had, each typed read and write and each
  -- operation of remote control returns the error of its parameters, and nothing is sent or changed:
  -- also `mc_remote_stop`, which checks the descriptor only after its command is built.
  pub not_positive :
      (s : Scalar) (words minimum x len : ℕ) (val : Bool) (text : Buffer)
      → w.mallocs ≡ []
      → (mc_read_bool fd address w ≡ some ((invalid_parameter, none), w))
        × (read_scalar s words minimum fd address w ≡ some ((invalid_parameter, none), w))
        × (mc_read_string fd address len w ≡ some ((invalid_parameter, none), w))
        × (mc_write_bool fd address val w ≡ some (invalid_parameter, w))
        × (write_scalar s words fd address x w ≡ some (invalid_parameter, w))
        × (mc_write_string fd address len text w ≡ some (invalid_parameter, w))
        × (mc_remote_run fd w ≡ some (invalid_parameter, w))
        × (mc_remote_stop fd w ≡ some (invalid_parameter, w))
        × (mc_remote_reset fd w ≡ some (invalid_parameter, w))
        × (mc_read_plc_type fd w ≡ some ((invalid_parameter, none), w))
  unfolding mc_read_bool read_scalar mc_read_string mc_write_bool write_scalar mc_write_string
      mc_remote_run mc_remote_reset mc_read_plc_type
  not_positive s words minimum x len val text m = (
    rw (negative, if◌then◌else◌) refl,
    rw (negative, if◌then◌else◌) refl,
    rw (negative, if◌then◌else◌) refl,
    rw (negative, if◌then◌else◌) refl,
    rw (negative, if◌then◌else◌) refl,
    no_string len text,
    rw (negative, if◌then◌else◌) refl,
    no_stop m,
    rw (negative, if◌then◌else◌) refl,
    rw (negative, if◌then◌else◌) refl,
  )

core_length : (a : AddressData) → length (read_core_bytes a false) ≡ 10
unfolding read_core_bytes
core_length a = refl

module _ (fd : ℕ) (w : World) (ready : IsReady fd w) (f : ResponseFrame) (valid : IsWellFormed f)
    (address : List ℕ) (words : ℕ) (a : AddressData)
    (parses : mc_analysis_address (some address) words ≡ parsed a) where
  read_address_data-double_release :
      (part : List ℕ)
      → 21 ≤ capacity w.sends
      → incoming w.recvs ≡ header_of f ++ part
      → length part < length f.values
      → read_address_data fd a none w ≡ none
  unfolding read_address_data
  read_address_data-double_release part fits comes less =
      let core = read_core_bytes a false in
      let len = core_length a in
      let frame_len =
        length-frame_bytes core w.network_address.network_number w.network_address.station_number in
      rw (ready.positive, if◌then◌else◌)
        (>>=-eq_some (build_read_core_command a false) _
            (build_read_core_command-eq_some a false w ready.memory)
          ∙ exchange-double_release fd w ready f valid core (omega (arith, len))
              (nothing_stored none) (λ response. mc_parse_read_response response true none) part
              (omega (arith, fits, len, frame_len)) comes less)

  read_word_value-double_release :
      (part : List ℕ)
      → is_positive words ≡ true
      → 21 ≤ capacity w.sends
      → incoming w.recvs ≡ header_of f ++ part
      → length part < length f.values
      → read_word_value fd (some address) words none w ≡ none
  unfolding read_word_value analysed
  read_word_value-double_release part pos fits comes less =
      rw (ready.positive, pos, if◌then◌else◌, parses)
        (read_address_data-double_release part fits comes less)

  -- If the connection fails or is closed after the header of a well-formed response and before all of
  -- its data, then what a read of a number does on a ready descriptor, at an address that is parsed,
  -- where the system takes the frame at once, is undefined: it releases the response twice.
  pub read_scalar-double_release :
      (s : Scalar) (minimum : ℕ) (part : List ℕ)
      → is_positive words ≡ true
      → 21 ≤ capacity w.sends
      → incoming w.recvs ≡ header_of f ++ part
      → length part < length f.values
      → read_scalar s words minimum fd (some address) w ≡ none
  unfolding read_scalar
  read_scalar-double_release s minimum part pos fits comes less =
      rw (ready.positive, if◌then◌else◌)
        (>>=-eq_none (read_word_value fd (some address) words none) _
          (read_word_value-double_release part pos fits comes less))

short_of_one : (b : ℕ) (v : World) → decoded (decode short) 1 (success, some (b ∷ [])) v ≡ none
unfolding decoded bytes2short
short_of_one b v = refl

ushort_of_one :
    (b : ℕ) (v : World)
    → decoded (decode ushort) 2 (success, some (b ∷ [])) v ≡ some ((success, none), v)
unfolding decoded
ushort_of_one b v = refl

-- A well-formed response to a read on a ready descriptor, at an address that is parsed, where the
-- system takes the frame at once, with the end code 0 and a single byte of data: what `mc_read_short`
-- does is undefined, since it reads two bytes, while `mc_read_ushort` returns success and no value.
pub mc_read_short-one_byte :
    (fd : ℕ) (w : World) (f : ResponseFrame) (address : List ℕ) (a : AddressData) (rest : List ℕ)
    (b : ℕ)
    → IsReady fd w
    → IsWellFormed f
    → mc_analysis_address (some address) 1 ≡ parsed a
    → 21 ≤ capacity w.sends
    → incoming w.recvs ≡ frame_of f ++ rest
    → f.end0 + 256 * f.end1 ≡ 0
    → f.values ≡ b ∷ []
    → (mc_read_short fd (some address) w ≡ none)
      × ((v : World) × (mc_read_ushort fd (some address) w ≡ some ((success, none), v)))
unfolding mc_read_short mc_read_ushort read_scalar
mc_read_short-one_byte fd w f address a rest b ready valid parses fits comes zero_code values =
    let (v, returns, done) =
      read_word_value-Requested fd w ready f valid rest comes address 1 a none refl parses fits in
    let good : (code_of f, copied 0 true none f.values) ≡ (success, some (b ∷ [])) =
      ground (arith, zero_code, values) in
    (
      rw (ready.positive, if◌then◌else◌)
          (>>=-eq_some (read_word_value fd (some address) 1 none) _ returns
            ∙ ap (λ (r : ErrorCode × Buffer). decoded (decode short) 1 r v) good
            ∙ short_of_one b v),
      (
        v,
        rw (ready.positive, if◌then◌else◌)
            (>>=-eq_some (read_word_value fd (some address) 1 none) _ returns
              ∙ ap (λ (r : ErrorCode × Buffer). decoded (decode ushort) 2 r v) good
              ∙ ushort_of_one b v),
      ),
    )

-- ===== src/Client/Exchanges.antt =====
-- The typed reads and writes as a whole: what the PLC is asked, and what the caller gets of its
-- answer.
use melsec_mc_net.Prelude.{
  ℕ, ◌+◌, ◌/◌, ◌<◌, ◌≤◌, ◌≡◌, ◌∙◌, true, false, some, none, List, [], ◌++◌, arith, length,
  if◌then◌else◌,
}
use melsec_mc_net.Address.{AddressData, parsed, mc_analysis_address}
use melsec_mc_net.Machine.{World, M, >>=-eq_some, Buffer, ErrorCode}
use melsec_mc_net.Socket.{is_positive}
use melsec_mc_net.Socket.Receive.{incoming}
use melsec_mc_net.Socket.Send.{capacity}
use melsec_mc_net.Command.{
  read_core_bytes, write_word_core_bytes, build_read_core_command, build_write_word_core_command,
}
use melsec_mc_net.Command.Request.{Request, decode_core, decode_frame}
use melsec_mc_net.Command.Frame.{
  decode_frame-frame_bytes, length-frame_bytes, request, decode_core-read, decode_core-write_word,
  build_read_core_command-eq_some, build_write_word_core_command-eq_some,
}
use melsec_mc_net.Response.{mc_parse_read_response, mc_parse_write_response}
use melsec_mc_net.Response.Frame.{
  ResponseFrame, IsWellFormed, frame_of, code_of, copied, mc_parse_read_response-frame,
  mc_parse_write_response-frame,
}
use melsec_mc_net.Transaction.{exchange}
use melsec_mc_net.Transaction.Session.{IsReady, Exchanged}
use melsec_mc_net.Transaction.Exchange.{framed, exchange-whole}
use melsec_mc_net.Client.Values.{
  read_address_data, analysed, read_word_value, write_address_data, write_word_value, parse_code,
  the_code, nothing_stored,
}

-- One request has gone out, of this content by the manual's layout of a frame, and its answer has
-- been read, so that `rest` comes next on the connection.
pub record Requested (asked : Request) (rest : List ℕ) (fd : ℕ) (w v : World) : Type 0 where
  pub frame : List ℕ
  pub core : List ℕ
  pub after : Exchanged (λ later. incoming later ≡ rest) frame fd w v
  pub routed :
      decode_frame frame
      ≡ some (record {
        network = w.network_address.network_number;
        station = w.network_address.station_number;
        timer = 10;
        core = core;
      })
  pub asks : decode_core core ≡ some asked

module _ (fd : ℕ) (w : World) (ready : IsReady fd w) (f : ResponseFrame) (valid : IsWellFormed f)
    (rest : List ℕ) (comes : incoming w.recvs ≡ frame_of f ++ rest) where
  -- An exchange on a ready descriptor of a core command that asks a request.
  pub exchange-Requested :
      {A : Type 0} (core : List ℕ) (asked : Request) (fails : ErrorCode → A) (parse : Buffer → M A)
      (answer : A)
      → decode_core core ≡ some asked
      → 0 < length core
      → length core < 65534
      → length core + 11 ≤ capacity w.sends
      → ((u : World) → u.mallocs ≡ [] → parse (some (frame_of f)) u ≡ some (answer, u))
      → (v : World) × (exchange fd fails parse (some core) w ≡ some (answer, v))
        × Requested asked rest fd w v
  exchange-Requested core asked fails parse answer asks pos short fits parses =
      let net = w.network_address.network_number in
      let station = w.network_address.station_number in
      let (v, returns, after) =
        exchange-whole fd w ready f valid core pos fails parse rest answer
          (omega (arith, fits, length-frame_bytes core net station)) comes parses in
      (
        v,
        returns,
        record {
          frame = framed core w;
          core = core;
          after = after;
          routed = decode_frame-frame_bytes core net station short;
          asks = asks;
        },
      )

  read_address_data-Requested :
      (a : AddressData) (before : Buffer)
      → 21 ≤ capacity w.sends
      → (v : World) × (read_address_data fd a before w
          ≡ some ((code_of f, copied 0 true before f.values), v))
        × Requested (request a 0x0401 0 a.length []) rest fd w v
  unfolding read_address_data read_core_bytes
  read_address_data-Requested a before fits =
      let (v, returns, done) =
        exchange-Requested (read_core_bytes a false) (request a 0x0401 0 a.length [])
          (nothing_stored before) (λ response. mc_parse_read_response response true before)
          (code_of f, copied 0 true before f.values) (decode_core-read a false) (omega arith)
          (omega arith) (omega arith)
          (λ u m. mc_parse_read_response-frame f valid u true before m) in
      (
        v,
        rw (ready.positive, if◌then◌else◌)
            (>>=-eq_some (build_read_core_command a false) _
                (build_read_core_command-eq_some a false w ready.memory)
              ∙ returns),
        done,
      )

  -- A read of words on a ready descriptor, at an address that is parsed, where the system takes the
  -- frame at once and a well-formed response comes whole: the PLC is asked once, for the words of the
  -- address; the code tells whether the end code is 0, and the data of the response are stored.
  pub read_word_value-Requested :
      (address : List ℕ) (words : ℕ) (a : AddressData) (before : Buffer)
      → is_positive words ≡ true
      → mc_analysis_address (some address) words ≡ parsed a
      → 21 ≤ capacity w.sends
      → (v : World) × (read_word_value fd (some address) words before w
          ≡ some ((code_of f, copied 0 true before f.values), v))
        × Requested (request a 0x0401 0 a.length []) rest fd w v
  unfolding read_word_value analysed
  read_word_value-Requested address words a before pos e fits =
      let (v, returns, done) = read_address_data-Requested a before fits in
      (v, rw (ready.positive, pos, if◌then◌else◌, e) returns, done)

  -- A write of words on a ready descriptor, of fewer than 65524 bytes at an address that is parsed, where
  -- the system takes the frame at once and a well-formed response comes whole: the PLC is asked once, to
  -- write exactly the bytes that the caller gives, and the code tells whether the end code is 0.
  pub write_word_value-Requested :
      (address : List ℕ) (words : ℕ) (a : AddressData) (bytes : List ℕ)
      → mc_analysis_address (some address) words ≡ parsed a
      → length bytes < 65524
      → length bytes + 21 ≤ capacity w.sends
      → (v : World) × (write_word_value fd (some address) words (some bytes) w
          ≡ some (code_of f, v))
        × Requested (request a 0x1401 0 (length bytes / 2) bytes) rest fd w v
  unfolding write_word_value analysed write_address_data write_word_core_bytes parse_code
  write_word_value-Requested address words a bytes e short fits =
      let (v, returns, done) =
        exchange-Requested (write_word_core_bytes a bytes)
          (request a 0x1401 0 (length bytes / 2) bytes) the_code parse_code (code_of f)
          (decode_core-write_word a bytes) (omega arith) (omega arith) (omega arith)
          (λ u m.
            >>=-eq_some (mc_parse_write_response (some (frame_of f)) false none) _
              (mc_parse_write_response-frame f valid u false none m)) in
      (
        v,
        rw e (
            >>=-eq_some (build_write_word_core_command a (some bytes)) _
              (build_write_word_core_command-eq_some a bytes w ready.memory)
            ∙ returns),
        done,
      )

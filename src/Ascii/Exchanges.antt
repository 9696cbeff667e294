-- ===== src/Ascii/Exchanges.antt =====
-- The calls of the ASCII protocol as a whole: what the PLC is asked, and what the caller gets of its
-- answer.
use melsec_mc_net.Prelude.{
  ℕ, ◌+◌, ◌<◌, ◌≤◌, ltb, ◌≡◌, ap, ◌∙◌, false, some, List, [], ◌∷◌, ◌++◌, arith, length,
  if◌then◌else◌,
}
use melsec_mc_net.Machine.{World, M, >>=-eq_some, Buffer, ErrorCode, alloc-eq_some}
use melsec_mc_net.Socket.Receive.{incoming}
use melsec_mc_net.Socket.Send.{capacity}
use melsec_mc_net.Response.{release}
use melsec_mc_net.Transaction.{transaction}
use melsec_mc_net.Transaction.Session.{IsReady, Exchanged, transact_steps}
use melsec_mc_net.Ascii.Hex.{mc_ascii_write_hex_byte, mc_ascii_write_hex_u16_be}
use melsec_mc_net.Ascii.Command.{ascii_frame_text, pack_mc_ascii_command}
use melsec_mc_net.Ascii.Command.Frame.{decode_ascii_frame-text}
use melsec_mc_net.Ascii.Request.{decode_ascii_frame}
use melsec_mc_net.Ascii.Response.{ascii_send_and_receive_transaction, mc_ascii_read_response}
use melsec_mc_net.Ascii.Response.Frame.{
  AsciiResponse, HasFields, ascii_frame_of, length-ascii_frame_of,
}
use melsec_mc_net.Ascii.Response.Read.{ascii_whole, mc_ascii_read_response-whole}
use melsec_mc_net.Ascii.Values.{ascii_finish, ascii_exchange}

-- The frame of a core command on the library's network address.
abbrev pub ascii_framed : List ℕ → World → List ℕ
ascii_framed core w =
    ascii_frame_text core w.network_address.network_number w.network_address.station_number

-- A state in which a call can be made: the descriptor is ready, and the two numbers are bytes.
pub record IsAsciiReady (fd : ℕ) (w : World) : Type 0 where
  pub ready : IsReady fd w
  pub network : w.network_address.network_number < 256
  pub station : w.network_address.station_number < 256

-- One request has gone out, with a core command of which `Asks` holds, and its answer has been read, so
-- that `rest` comes next on the connection.
pub record AsciiRequested (Asks : List ℕ → Type 0) (rest : List ℕ) (fd : ℕ) (w v : World)
    : Type 0 where
  pub frame : List ℕ
  pub core : List ℕ
  pub after : Exchanged (λ later. incoming later ≡ rest) frame fd w v
  pub routed :
      decode_ascii_frame frame
      ≡ some (record {
        network = w.network_address.network_number;
        station = w.network_address.station_number;
        timer = 16;
        core = core;
      })
  pub asks : Asks core

length-ascii_frame_text :
    (core : List ℕ) (net station : ℕ)
    → length (ascii_frame_text core net station) ≡ length core + 22
unfolding ascii_frame_text mc_ascii_write_hex_byte mc_ascii_write_hex_u16_be
length-ascii_frame_text core net station = omega arith

packed :
    (core : List ℕ) (w : World)
    → 0 < length core
    → w.mallocs ≡ []
    → pack_mc_ascii_command
        (some core)
        w.network_address.network_number
        w.network_address.station_number
        w
      ≡ some (some (ascii_framed core w), w)
unfolding pack_mc_ascii_command
packed [] w pos m = absurd (omega arith)
packed (b ∷ core) w pos m = alloc-eq_some (ascii_framed (b ∷ core) w) w m

module _ (fd : ℕ) (w : World) (at : IsAsciiReady fd w) (r : AsciiResponse) (valid : HasFields r)
    (rest : List ℕ) (comes : incoming w.recvs ≡ ascii_frame_of r ++ rest) where
  transaction-whole :
      (cmd : List ℕ)
      → 0 < length cmd
      → length cmd ≤ capacity w.sends
      → (v : World) × (ascii_send_and_receive_transaction fd (some cmd) w
          ≡ some (ascii_whole r valid, v))
        × Exchanged (λ later. incoming later ≡ rest) cmd fd w v
  unfolding ascii_send_and_receive_transaction transaction
  transaction-whole [] pos fits = absurd (omega arith)
  transaction-whole (c ∷ cmd) pos fits =
      rw (at.ready.positive, if◌then◌else◌)
        (transact_steps fd (c ∷ cmd) pos mc_ascii_read_response w (ascii_whole r valid)
          (λ later. incoming later ≡ rest) at.ready fits
          (λ v m e.
            mc_ascii_read_response-whole r valid fd rest v at.ready.positive m
              (ap incoming e ∙ comes)))

  module _ {A : Type 0} (fails : ErrorCode → A) (least : ℕ) (enough : least ≤ 22)
      (parse : Buffer → M A) (answer : A)
      (parses : (u : World)
        → u.mallocs ≡ []
        → parse (some (ascii_frame_of r)) u ≡ some (answer, u)) where
    finish-whole :
        (v : World)
        → v.mallocs ≡ []
        → ascii_finish fd fails least parse (ascii_whole r valid) v ≡ some (answer, v)
    unfolding ascii_finish release
    finish-whole v m =
        let long : ltb (length (ascii_frame_of r)) least ≡ false =
          ground (arith, enough, length-ascii_frame_of r valid) in
        rw (long, ascii_finish, if◌then◌else◌)
          (>>=-eq_some (parse (some (ascii_frame_of r))) _ (parses v m))

    -- A core command of at least one and at most 65531 characters that is exchanged on a ready descriptor,
    -- where the system takes the frame at once and a response with well-formed fields comes whole: the
    -- result is what the parser makes of the response, exactly the frame of the core command is sent, once,
    -- exactly the response is read, and no lock is held afterwards.
    pub ascii_exchange-Requested :
        {Asks : List ℕ → Type 0} (core : List ℕ)
        → Asks core
        → 0 < length core
        → length core < 65532
        → length core + 22 ≤ capacity w.sends
        → (v : World) × (ascii_exchange fd fails least parse (some core) w ≡ some (answer, v))
          × AsciiRequested Asks rest fd w v
    unfolding ascii_exchange
    ascii_exchange-Requested core asks pos short fits =
        let net = w.network_address.network_number in
        let station = w.network_address.station_number in
        let len = length-ascii_frame_text core net station in
        let (v, returns, after) =
          transaction-whole (ascii_framed core w) (omega (arith, len)) (omega (arith, len, fits)) in
        (
          v,
          >>=-eq_some (pack_mc_ascii_command (some core) net station) _
                (packed core w pos at.ready.memory)
              ∙ >>=-eq_some (ascii_send_and_receive_transaction fd (some (ascii_framed core w))) _
                  returns
              ∙ finish-whole v (ap (λ (u : World). u.mallocs) after.world ∙ at.ready.memory),
          record {
            frame = ascii_framed core w;
            core = core;
            after = after;
            routed = decode_ascii_frame-text core net station short at.network at.station;
            asks = asks;
          },
        )

-- ===== src/Transaction/Exchange.antt =====
-- An exchange as a whole: what the PLC is sent, and what the caller is given.
use melsec_mc_net.Prelude.{
  ℕ, ◌<◌, ◌≤◌, ltb, ◌≡◌, ◌≢◌, ap, ◌∙◌, false, some, none, List, [], ◌∷◌, ◌++◌, arith, length,
  if◌then◌else◌,
}
use melsec_mc_net.Machine.{World, M, >>=-eq_some, Buffer, ErrorCode, success, alloc-eq_some}
use melsec_mc_net.Socket.Receive.{incoming, ending}
use melsec_mc_net.Socket.Send.{capacity}
use melsec_mc_net.Command.{frame_bytes, pack_mc_command}
use melsec_mc_net.Response.{Reply, dangling, release}
use melsec_mc_net.Response.Frame.{ResponseFrame, IsWellFormed, header_of, frame_of}
use melsec_mc_net.Response.Read.{whole, ending-ne-success}
use melsec_mc_net.Transaction.{mc_send_and_receive_transaction, finish, exchange}
use melsec_mc_net.Transaction.Session.{
  IsReady, Exchanged, cut_off, mc_send_and_receive_transaction-whole,
  mc_send_and_receive_transaction-cut,
}

-- A response that was released before.
finish-dangling :
    (fd : ℕ) {A : Type 0} (fails : ErrorCode → A) (parse : Buffer → M A) (code : ErrorCode)
    (v : World)
    → code ≢ success
    → finish fd fails parse (record { code = code; response = dangling; read_count = 0 }) v ≡ none
unfolding finish release
finish-dangling fd fails parse code v ne = ground arith

-- A whole response.
finish-whole :
    (fd : ℕ) {A : Type 0} (fails : ErrorCode → A) (parse : Buffer → M A) (f : ResponseFrame)
    (valid : IsWellFormed f) (v : World) (answer : A)
    → parse (some (frame_of f)) v ≡ some (answer, v)
    → finish fd fails parse (whole f valid) v ≡ some (answer, v)
unfolding finish release
finish-whole fd fails parse f valid v answer e =
    let long : ltb (length (frame_of f)) 11 ≡ false = ground arith in
    rw (long, finish, if◌then◌else◌) (>>=-eq_some (parse (some (frame_of f))) _ e)

-- The frame of a core command on the library's network address.
abbrev pub framed : List ℕ → World → List ℕ
framed core w = frame_bytes core w.network_address.network_number w.network_address.station_number

packed :
    (core : List ℕ) (w : World)
    → 0 < length core
    → w.mallocs ≡ []
    → pack_mc_command
        (some core)
        w.network_address.network_number
        w.network_address.station_number
        w
      ≡ some (some (framed core w), w)
unfolding pack_mc_command
packed [] w pos m = absurd (omega arith)
packed (b ∷ core) w pos m = alloc-eq_some (framed (b ∷ core) w) w m

framed-pos : (core : List ℕ) (w : World) → 0 < length (framed core w)
unfolding frame_bytes
framed-pos core w = omega arith

pub exchange-eq :
    (fd : ℕ) (core : List ℕ) {A : Type 0} (fails : ErrorCode → A) (parse : Buffer → M A)
    (reply : Reply) (w v : World)
    → 0 < length core
    → w.mallocs ≡ []
    → mc_send_and_receive_transaction fd (some (framed core w)) w ≡ some (reply, v)
    → exchange fd fails parse (some core) w ≡ finish fd fails parse reply v
unfolding exchange
exchange-eq fd core fails parse reply w v pos m e =
    >>=-eq_some
      (pack_mc_command (some core) w.network_address.network_number
        w.network_address.station_number)
      _ (packed core w pos m)
    ∙ >>=-eq_some (mc_send_and_receive_transaction fd (some (framed core w))) _ e

module _ (fd : ℕ) (w : World) (ready : IsReady fd w) (f : ResponseFrame)
    (valid : IsWellFormed f) where
  module _ (core : List ℕ) (some_core : 0 < length core) {A : Type 0} (fails : ErrorCode → A)
      (parse : Buffer → M A) where
    -- A core command of at least one byte that is packed and exchanged on a ready descriptor, where the
    -- system takes the frame at once and a well-formed response comes whole: if the parser makes an
    -- answer of that response, then this is the result, exactly the frame is sent, exactly the response
    -- is read, and no lock is held afterwards.
    pub exchange-whole :
        (rest : List ℕ) (answer : A)
        → length (framed core w) ≤ capacity w.sends
        → incoming w.recvs ≡ frame_of f ++ rest
        → ((u : World) → u.mallocs ≡ [] → parse (some (frame_of f)) u ≡ some (answer, u))
        → (v : World) × (exchange fd fails parse (some core) w ≡ some (answer, v))
          × Exchanged (λ later. incoming later ≡ rest) (framed core w) fd w v
    exchange-whole rest answer fits comes parses =
        let (v, returns, after) =
          mc_send_and_receive_transaction-whole fd w ready f valid (framed core w) rest
            (framed-pos core w) fits comes in
        (
          v,
          exchange-eq fd core fails parse (whole f valid) w v some_core ready.memory returns
              ∙ finish-whole fd fails parse f valid v answer
                  (parses v (ap (λ (u : World). u.mallocs) after.world ∙ ready.memory)),
          after,
        )

    -- If the connection fails or is closed after the header of a well-formed response and before all of
    -- its data, then what any exchange of a core command of at least one byte on a ready descriptor does,
    -- where the system takes the frame at once, is undefined: `mc_read_response` has released the
    -- response, and the caller releases it again.
    pub exchange-double_release :
        (part : List ℕ)
        → length (framed core w) ≤ capacity w.sends
        → incoming w.recvs ≡ header_of f ++ part
        → length part < length f.values
        → exchange fd fails parse (some core) w ≡ none
    exchange-double_release part fits comes less =
        let (v, returns, after) =
          mc_send_and_receive_transaction-cut fd w ready f valid (framed core w) part
            (framed-pos core w) fits comes less in
        exchange-eq fd core fails parse (cut_off fd w ready f valid) w v some_core ready.memory
          returns
        ∙ finish-dangling fd fails parse (ending w.recvs) v (ending-ne-success w.recvs)

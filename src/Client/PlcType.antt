-- ===== src/Client/PlcType.antt =====
-- The read of the type of the PLC.
use mathlib.Core.Path.{ap₂}
use melsec_mc_net.Prelude.{
  refl, sym, ℕ, ◌+◌, ◌*◌, ◌≤◌, ◌==◌, ◌≡◌, ap, ◌∙◌, true, some, none, List, [], ◌∷◌, ◌++◌, arith,
  if◌then◌else◌, Bool-cases, inl, inr,
}
use melsec_mc_net.Machine.{
  World, ◌>>=◌, >>=-eq_some, alloc, alloc-eq_some, Buffer, ErrorCode, success, error_failed,
}
use melsec_mc_net.Socket.Receive.{incoming}
use melsec_mc_net.Socket.Send.{capacity}
use melsec_mc_net.Command.{contents}
use melsec_mc_net.Command.Frame.{length-frame_bytes}
use melsec_mc_net.Response.{mc_parse_write_response}
use melsec_mc_net.Response.Frame.{
  ResponseFrame, IsWellFormed, frame_of, code_of, copied, mc_parse_write_response-frame,
}
use melsec_mc_net.Transaction.Session.{IsReady, Exchanged}
use melsec_mc_net.Transaction.Exchange.{framed, exchange-whole}
use melsec_mc_net.Command.Control.{type_read, decode_control}
use melsec_mc_net.Client.Control.{Told, told}
use melsec_mc_net.Client.Remote.{type_command, type_text, no_type, mc_read_plc_type}

type_text-success :
    (b : Buffer) (u : World)
    → u.mallocs ≡ []
    → type_text (success, b) u ≡ some ((success, some (contents b ++ 0 ∷ [])), u)
unfolding type_text
type_text-success b u m =
    >>=-eq_some (alloc (contents b ++ 0 ∷ [])) _ (alloc-eq_some (contents b ++ 0 ∷ []) u m)

module _ (fd : ℕ) (w : World) (ready : IsReady fd w) (f : ResponseFrame) (valid : IsWellFormed f)
    (rest : List ℕ) (comes : incoming w.recvs ≡ frame_of f ++ rest) where
  -- What is stored of the type, which is terminated by a zero: the data if there are more than two
  -- bytes of them.
  abbrev plc_type : Buffer
  plc_type = some (contents (copied 2 true none f.values) ++ 0 ∷ [])

  type_parsed :
      (u : World)
      → u.mallocs ≡ []
      → (mc_parse_write_response (some (frame_of f)) true none >>= type_text) u
        ≡ some ((code_of f, if f.end0 + 256 * f.end1 == 0 then plc_type else none), u)
  unfolding type_text
  type_parsed u m =
      >>=-eq_some (mc_parse_write_response (some (frame_of f)) true none) type_text
        (mc_parse_write_response-frame f valid u true none m)
      ∙ elim (Bool-cases (f.end0 + 256 * f.end1 == 0)) [
        | inl good ↦
            let ok : code_of f ≡ success = ground (arith, good) in
            let stored : (if f.end0 + 256 * f.end1 == 0 then plc_type else none) ≡ plc_type =
              ground (arith, good) in
            ap (λ (c : ErrorCode). type_text (c, copied 2 true none f.values) u) ok
            ∙ type_text-success (copied 2 true none f.values) u m
            ∙ ap₂ (λ (c : ErrorCode) (b : Buffer). some ((c, b), u)) (sym ok) (sym stored)
        | inr bad ↦
            let failed : code_of f ≡ error_failed = ground (arith, bad) in
            let stored : (if f.end0 + 256 * f.end1 == 0 then plc_type else none) ≡ none =
              ground (arith, bad) in
            ap (λ (c : ErrorCode). type_text (c, copied 2 true none f.values) u) failed
            ∙ ap₂ (λ (c : ErrorCode) (b : Buffer). some ((c, b), u)) (sym failed) (sym stored)
      ]

  -- A read of the type of the PLC on a ready descriptor, where the system takes the frame at once and
  -- a well-formed response comes whole: exactly the frame of the command is sent, which reaches the
  -- PLC at the network address and tells it command 0x0101, and exactly the response is read; if the
  -- end code is 0, the result is success with the data, if they are more than two bytes, and a zero
  -- behind them, and otherwise it is the general error and nothing is stored.
  pub mc_read_plc_type-Exchanged :
      17 ≤ capacity w.sends
      → (v : World) × (mc_read_plc_type fd w
          ≡ some ((code_of f, if f.end0 + 256 * f.end1 == 0 then plc_type else none), v))
        × Exchanged (λ later. incoming later ≡ rest) (framed type_command w) fd w v
        × Told type_read rest fd w v
  unfolding mc_read_plc_type decode_control
  mc_read_plc_type-Exchanged fits =
      let (v, returns, after) =
        exchange-whole fd w ready f valid type_command (omega arith) no_type
          (λ response. mc_parse_write_response response true none >>= type_text) rest
          (code_of f, if f.end0 + 256 * f.end1 == 0 then plc_type else none)
          (omega (
            arith,
            fits,
            length-frame_bytes type_command w.network_address.network_number
                w.network_address.station_number,
          ))
          comes type_parsed in
      (
        v,
        rw (ready.positive, if◌then◌else◌)
            (>>=-eq_some (alloc type_command) _ (alloc-eq_some type_command w ready.memory)
              ∙ returns),
        after,
        told type_command type_read rest fd w v (omega arith) refl after,
      )

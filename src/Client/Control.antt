-- ===== src/Client/Control.antt =====
-- Remote control as a whole.
use melsec_mc_net.Prelude.{
  refl, ℕ, ◌+◌, ◌<◌, ◌≤◌, ◌≡◌, ◌∙◌, some, none, false, List, ◌++◌, arith, length, if◌then◌else◌,
}
use melsec_mc_net.Machine.{World, >>=-eq_some, alloc, alloc-eq_some}
use melsec_mc_net.Socket.Receive.{incoming}
use melsec_mc_net.Socket.Send.{capacity}
use melsec_mc_net.Command.Frame.{length-frame_bytes, decode_frame-frame_bytes}
use melsec_mc_net.Command.Control.{
  Control, decode_control, Tells, remote_run, remote_stop, remote_reset,
}
use melsec_mc_net.Response.{mc_parse_write_response}
use melsec_mc_net.Response.Frame.{
  ResponseFrame, IsWellFormed, frame_of, code_of, mc_parse_write_response-frame,
}
use melsec_mc_net.Transaction.{exchange}
use melsec_mc_net.Transaction.Session.{IsReady, Exchanged}
use melsec_mc_net.Transaction.Exchange.{framed, exchange-whole}
use melsec_mc_net.Client.Values.{parse_code, the_code}
use melsec_mc_net.Client.Remote.{
  execute, run_command, stop_command, reset_command, mc_remote_run, mc_remote_stop, mc_remote_reset,
}

-- One frame has gone out that tells the PLC this, and the answer has been read, so that `rest` comes
-- next on the connection.
pub record Told (asked : Control) (rest : List ℕ) (fd : ℕ) (w v : World) : Type 0 where
  pub frame : List ℕ
  pub after : Exchanged (λ later. incoming later ≡ rest) frame fd w v
  pub tells : Tells asked w.network_address.network_number w.network_address.station_number frame

pub told :
    (core : List ℕ) (asked : Control) (rest : List ℕ) (fd : ℕ) (w v : World)
    → length core < 65534
    → decode_control core ≡ some asked
    → Exchanged (λ later. incoming later ≡ rest) (framed core w) fd w v
    → Told asked rest fd w v
told core asked rest fd w v short tells after = record {
  frame = framed core w;
  after = after;
  tells = record {
    core = core;
    routed =
        decode_frame-frame_bytes core w.network_address.network_number
          w.network_address.station_number short;
    tells = tells;
  };
}

module _ (fd : ℕ) (w : World) (ready : IsReady fd w) (f : ResponseFrame) (valid : IsWellFormed f)
    (rest : List ℕ) (comes : incoming w.recvs ≡ frame_of f ++ rest) where
  control_exchange :
      (core : List ℕ)
      → 0 < length core
      → length core + 11 ≤ capacity w.sends
      → (v : World) × (exchange fd the_code parse_code (some core) w ≡ some (code_of f, v))
        × Exchanged (λ later. incoming later ≡ rest) (framed core w) fd w v
  unfolding parse_code
  control_exchange core pos fits =
      exchange-whole fd w ready f valid core pos the_code parse_code rest (code_of f)
        (omega (
          arith,
          fits,
          length-frame_bytes core w.network_address.network_number w.network_address.station_number,
        ))
        comes
        (λ u m.
          >>=-eq_some (mc_parse_write_response (some (frame_of f)) false none) _
            (mc_parse_write_response-frame f valid u false none m))

  execute-Exchanged :
      (core : List ℕ)
      → 0 < length core
      → length core + 11 ≤ capacity w.sends
      → (v : World) × (execute fd core w ≡ some (code_of f, v))
        × Exchanged (λ later. incoming later ≡ rest) (framed core w) fd w v
  unfolding execute
  execute-Exchanged core pos fits =
      let (v, returns, after) = control_exchange core pos fits in
      (v, >>=-eq_some (alloc core) _ (alloc-eq_some core w ready.memory) ∙ returns, after)

  -- Each of the three functions of remote control, on a ready descriptor where the system takes the
  -- frame at once and a well-formed response comes whole: the frame that is sent reaches the PLC at
  -- the network address and tells it, in this order, remote RUN (command 0x1001) without force and
  -- without clearing the devices, remote STOP (0x1002) and remote RESET (0x1006); exactly that frame
  -- is sent, exactly the response is read, no lock is held afterwards, and the result is success
  -- exactly if the end code is 0.
  pub mc_remote-Exchanged :
      19 ≤ capacity w.sends
      → ((v : World) × (mc_remote_run fd w ≡ some (code_of f, v)) × Told remote_run rest fd w v)
        × ((v : World) × (mc_remote_stop fd w ≡ some (code_of f, v)) × Told remote_stop rest fd w v)
        × ((v : World) × (mc_remote_reset fd w ≡ some (code_of f, v))
            × Told remote_reset rest fd w v)
  unfolding mc_remote_run mc_remote_stop mc_remote_reset decode_control
  mc_remote-Exchanged fits =
      let (v, run_returns, run_after) = execute-Exchanged run_command (omega arith) (omega arith) in
      let (u, stop_returns, stop_after) =
        control_exchange stop_command (omega arith) (omega arith) in
      let (x, reset_returns, reset_after) =
        execute-Exchanged reset_command (omega arith) (omega arith) in
      (
        (
          v,
          rw (ready.positive, if◌then◌else◌) run_returns,
          told run_command remote_run rest fd w v (omega arith) refl run_after,
        ),
        (
          u,
          >>=-eq_some (alloc stop_command) _ (alloc-eq_some stop_command w ready.memory)
              ∙ stop_returns,
          told stop_command remote_stop rest fd w u (omega arith) refl stop_after,
        ),
        (
          x,
          rw (ready.positive, if◌then◌else◌) reset_returns,
          told reset_command remote_reset rest fd w x (omega arith) refl reset_after,
        ),
      )

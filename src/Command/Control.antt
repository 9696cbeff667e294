-- ===== src/Command/Control.antt =====
-- What a PLC reads in a command of remote control, by the manual's layout.
use melsec_mc_net.Prelude.{ℕ, Option, none, some, List, [], ◌∷◌, ◌≡◌}
use melsec_mc_net.Command.Request.{word, decode_frame}

-- What the PLC is told to do, in which way, and what else the command has.
pub record Control : Type 0 where
  pub command : ℕ
  pub subcommand : ℕ
  pub mode : ℕ
  pub more : List ℕ

-- The commands by their numbers in the protocol: RUN is not forced (mode 1), and clears no device (0);
-- STOP and RESET have the fixed mode 1.
abbrev pub remote_run : Control
remote_run = record { command = 0x1001; subcommand = 0; mode = 1; more = 0 ∷ 0 ∷ [] }

abbrev pub remote_stop : Control
remote_stop = record { command = 0x1002; subcommand = 0; mode = 1; more = [] }

abbrev pub remote_reset : Control
remote_reset = record { command = 0x1006; subcommand = 0; mode = 1; more = [] }

-- The read of the PLC's type, with what the library sends behind the subcommand.
abbrev pub type_read : Control
type_read = record { command = 0x0101; subcommand = 0; mode = 1; more = [] }

unfoldable pub decode_control : List ℕ → Option Control
decode_control (c0 ∷ c1 ∷ s0 ∷ s1 ∷ m0 ∷ m1 ∷ more) =
    some (record { command = word c0 c1; subcommand = word s0 s1; mode = word m0 m1; more = more })
decode_control _ = none

-- The frame reaches the PLC at this network and station number, and tells it this.
pub record Tells (told : Control) (network station : ℕ) (frame : List ℕ) : Type 0 where
  pub core : List ℕ
  pub routed :
      decode_frame frame
      ≡ some (record { network = network; station = station; timer = 10; core = core })
  pub tells : decode_control core ≡ some told

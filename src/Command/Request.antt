-- ===== src/Command/Request.antt =====
-- What a PLC reads in a binary 3E request frame, by the manual's layout of the frame.
use melsec_mc_net.Prelude.{
  ℕ, ◌+◌, ◌*◌, ◌==◌, ◌&&◌, if◌then◌else◌, Option, none, some, List, ◌∷◌, length,
}

-- A batch command: what it does, in which unit, from which device number on, to how many points.
pub record Request : Type 0 where
  pub command : ℕ
  pub subcommand : ℕ
  pub device_number : ℕ
  pub device_code : ℕ
  pub points : ℕ
  pub values : List ℕ

abbrev pub word : ℕ → ℕ → ℕ
word lo hi = lo + 256 * hi

unfoldable pub decode_core : List ℕ → Option Request
decode_core (c0 ∷ c1 ∷ s0 ∷ s1 ∷ a0 ∷ a1 ∷ a2 ∷ code ∷ p0 ∷ p1 ∷ values) = some (record {
  command = word c0 c1;
  subcommand = word s0 s1;
  device_number = a0 + 256 * a1 + 65536 * a2;
  device_code = code;
  points = word p0 p1;
  values = values;
})
decode_core _ = none

pub record Routed : Type 0 where
  pub network : ℕ
  pub station : ℕ
  pub timer : ℕ
  pub core : List ℕ

-- A frame is taken only if its length field counts the bytes that follow it.
unfoldable pub decode_frame : List ℕ → Option Routed
decode_frame (h0 ∷ h1 ∷ net ∷ pc ∷ io0 ∷ io1 ∷ station ∷ l0 ∷ l1 ∷ t0 ∷ t1 ∷ core) =
    if word h0 h1 == 0x50 && pc == 0xff && word io0 io1 == 0x03ff && word l0 l1 == length core + 2
    then some (record { network = net; station = station; timer = word t0 t1; core = core })
    else none
decode_frame _ = none

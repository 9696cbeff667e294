-- ===== src/Ascii/Request.antt =====
-- What a PLC reads in an ASCII 3E request frame, by the manual's layout of the frame: upper-case
-- hexadecimal digits, the first one first, and a device number in the base of the device.
use melsec_mc_net.Prelude.{ℕ, ◌+◌, ◌==◌, if◌then◌else◌, Option, none, some, List, [], ◌∷◌, length}
use melsec_mc_net.Command.Request.{Routed}
use melsec_mc_net.Ascii.Digits.{number_of}

-- A batch command, with its data as characters.
pub record AsciiRequest : Type 0 where
  pub command : ℕ
  pub subcommand : ℕ
  pub device : List ℕ
  pub device_number : ℕ
  pub points : ℕ
  pub text : List ℕ

abbrev hex : List ℕ → Option ℕ
hex text = number_of 16 0 text

abbrev fields : Option ℕ → Option ℕ → List ℕ → Option ℕ → Option ℕ → List ℕ → Option AsciiRequest
fields (some command) (some unit) device (some number) (some points) text = some (record {
  command = command;
  subcommand = unit;
  device = device;
  device_number = number;
  points = points;
  text = text;
})
fields _ _ device _ _ text = none

-- The command and subcommand, two characters of the device, six of its number, four of the points.
unfoldable pub decode_ascii_core : ℕ → List ℕ → Option AsciiRequest
decode_ascii_core base
      (c0 ∷ c1 ∷ c2 ∷ c3 ∷ s0 ∷ s1 ∷ s2 ∷ s3 ∷ d0 ∷ d1 ∷ n0 ∷ n1 ∷ n2 ∷ n3 ∷ n4 ∷ n5 ∷ p0 ∷ p1 ∷ p2
        ∷ p3 ∷ text) =
    fields (hex (c0 ∷ c1 ∷ c2 ∷ c3 ∷ [])) (hex (s0 ∷ s1 ∷ s2 ∷ s3 ∷ [])) (d0 ∷ d1 ∷ [])
      (number_of base 0 (n0 ∷ n1 ∷ n2 ∷ n3 ∷ n4 ∷ n5 ∷ [])) (hex (p0 ∷ p1 ∷ p2 ∷ p3 ∷ [])) text
decode_ascii_core base _ = none

abbrev routed : Option ℕ → Option ℕ → Option ℕ → Option ℕ → List ℕ → Option Routed
routed (some network) (some station) (some count) (some timer) core =
    if count == length core + 4
    then some (record { network = network; station = station; timer = timer; core = core })
    else none
routed _ _ _ _ core = none

-- The subheader 5000, the network, the PLC FF, the module 03FF, the station, the number of characters
-- that follow, the timer, and the core command. A frame is taken only if that number is right.
unfoldable pub decode_ascii_frame : List ℕ → Option Routed
decode_ascii_frame
      (h0 ∷ h1 ∷ h2 ∷ h3 ∷ n0 ∷ n1 ∷ q0 ∷ q1 ∷ i0 ∷ i1 ∷ i2 ∷ i3 ∷ s0 ∷ s1 ∷ l0 ∷ l1 ∷ l2 ∷ l3 ∷ t0
        ∷ t1 ∷ t2 ∷ t3 ∷ core) =
    elim (hex (h0 ∷ h1 ∷ h2 ∷ h3 ∷ q0 ∷ q1 ∷ i0 ∷ i1 ∷ i2 ∷ i3 ∷ [])) [
      | none ↦ none
      | some fixed ↦
          if fixed == 0x5000ff03ff
          then routed (hex (n0 ∷ n1 ∷ [])) (hex (s0 ∷ s1 ∷ [])) (hex (l0 ∷ l1 ∷ l2 ∷ l3 ∷ []))
              (hex (t0 ∷ t1 ∷ t2 ∷ t3 ∷ [])) core
          else none
    ]
decode_ascii_frame _ = none

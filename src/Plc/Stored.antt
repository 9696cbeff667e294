-- ===== src/Plc/Stored.antt =====
-- Words that a PLC is asked to store, and then asked for.
use melsec_mc_net.Prelude.{ℕ, ◌*◌, ◌%◌, ◌^◌, ◌<◌, ◌≡◌, refl, ap, ◌∙◌, List, [], arith, length, All}
use melsec_mc_net.Address.{AddressData}
use melsec_mc_net.Command.Request.{Request}
use melsec_mc_net.Command.Frame.{request}
use melsec_mc_net.Response.Frame.{ResponseFrame, IsWellFormed}
use melsec_mc_net.Plc.{Memory, store, peek, answer, serve, serve_all}
use melsec_mc_net.Plc.Memory.{
  Spares, serve-read, serve-write, serve_all-Spares, peek-store, peek_agree,
}

pub answer-IsWellFormed :
    (values : List ℕ) → length values < 65534 → IsWellFormed (answer 0 0 values)
answer-IsWellFormed values short = record {
  counted = omega arith;
  low_byte = omega arith;
  high_byte = omega arith;
  end0_byte = omega arith;
  end1_byte = omega arith;
}

-- What the PLC is asked to do.
abbrev pub write_request : AddressData → ℕ → List ℕ → Request
write_request a points bytes = request a 0x1401 0 points bytes

abbrev pub read_request : AddressData → ℕ → Request
read_request a points = request a 0x0401 0 points []

-- Requests that are not about the words of an address.
abbrev pub Others : AddressData → ℕ → List Request → Type 0
Others a points = All (Spares a.data_type.data_code (a.address_start % 2 ^ 24) points)

-- The memory after the write and other requests.
abbrev pub later : AddressData → ℕ → List ℕ → List Request → Memory → Memory
later a points bytes others mem = serve_all others (serve (write_request a points bytes) mem).0

module _ (a : AddressData) (points : ℕ) (bytes : List ℕ)
    (count : 2 * (points % 2 ^ 16) ≡ length bytes) (mem : Memory) where
  abbrev code : ℕ
  code = a.data_type.data_code

  abbrev number : ℕ
  number = a.address_start % 2 ^ 24

  pub written :
      serve (write_request a points bytes) mem ≡ (store code (2 * number) bytes mem, answer 0 0 [])
  written = serve-write (write_request a points bytes) mem refl (ground (arith, count))

  -- The bytes are still there.
  kept :
      (others : List Request)
      → Others a points others
      → peek code (2 * number) (length bytes) (later a points bytes others mem) ≡ bytes
  kept others spare =
      peek_agree code (2 * number) (length bytes) (later a points bytes others mem)
        (serve (write_request a points bytes) mem).0
        (λ p from to.
          serve_all-Spares code number points p others (serve (write_request a points bytes) mem).0
            spare from (omega (arith, count)))
      ∙ ap (λ (t : Memory × ResponseFrame). peek code (2 * number) (length bytes) t.0) written
      ∙ peek-store code (2 * number) bytes mem

  pub answered :
      (others : List Request)
      → Others a points others
      → (serve (read_request a points) (later a points bytes others mem)).1 ≡ answer 0 0 bytes
  answered others spare =
      ap (λ (t : Memory × ResponseFrame). t.1)
        (serve-read (read_request a points) (later a points bytes others mem) refl)
      ∙ ap (λ (n : ℕ). answer 0 0 (peek code (2 * number) n (later a points bytes others mem)))
          count
      ∙ ap (answer 0 0) (kept others spare)

-- ===== src/Plc.antt =====
-- What a PLC does with the requests that it reads, by the manual: the specification of a device that
-- the library talks to. Its memory is one of bytes; a word device with number n has those at 2 n and
-- 2 n + 1, the low one first.
pub mod Memory
pub mod Stored
pub mod Sessions
pub mod Batches
pub mod Ascii
use melsec_mc_net.Prelude.{
  ℕ, ◌+◌, ◌*◌, ◌/◌, ◌%◌, ◌==◌, ◌&&◌, if◌then◌else◌, List, [], ◌∷◌, length, zero, suc,
}
use melsec_mc_net.Command.Request.{Request}
use melsec_mc_net.Response.Frame.{ResponseFrame}

-- The byte of a device code at a place.
abbrev pub Memory : Type 0
Memory = ℕ → ℕ → ℕ

unfoldable pub put : ℕ → ℕ → ℕ → Memory → Memory
put code place b mem c p = if c == code && p == place then b else mem c p

unfoldable pub store : ℕ → ℕ → List ℕ → Memory → Memory
store code place [] mem = mem
store code place (b ∷ bytes) mem = store code (suc place) bytes (put code place b mem)

unfoldable pub peek : ℕ → ℕ → ℕ → Memory → List ℕ
peek code place zero mem = []
peek code place (suc n) mem = mem code place ∷ peek code (suc place) n mem

-- A response of its own station, with an end code.
abbrev pub answer : ℕ → ℕ → List ℕ → ResponseFrame
answer end0 end1 values = record {
  h0 = 0xd0;
  h1 = 0;
  h2 = 0;
  h3 = 0xff;
  h4 = 0xff;
  h5 = 3;
  h6 = 0;
  low = (length values + 2) % 256;
  high = (length values + 2) / 256;
  end0 = end0;
  end1 = end1;
  values = values;
}

-- Batch reads and writes of words are served; every other command is refused with the code 0xc059.
unfoldable pub serve : Request → Memory → Memory × ResponseFrame
serve r mem =
    if r.command == 0x0401 && r.subcommand == 0
    then (mem, answer 0 0 (peek r.device_code (2 * r.device_number) (2 * r.points) mem))
    else if r.command == 0x1401 && r.subcommand == 0 && length r.values == 2 * r.points
    then (store r.device_code (2 * r.device_number) r.values mem, answer 0 0 [])
    else (mem, answer 0x59 0xc0 [])

-- The memory after several requests, in order.
unfoldable pub serve_all : List Request → Memory → Memory
serve_all [] mem = mem
serve_all (r ∷ requests) mem = serve_all requests (serve r mem).0

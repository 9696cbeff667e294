-- ===== src/Batch/Bools.antt =====
-- A batch of bits, from the address to what the PLC is asked to write.
use melsec_mc_net.Prelude.{
  ℕ, ◌+◌, ◌/◌, ◌<◌, ◌≤◌, ltb, ◌≡◌, ap, ◌∙◌, Bool, true, false, some, none, List, ◌++◌, arith,
  length, take-length, if◌then◌else◌, get_elem?,
}
use melsec_mc_net.Address.{AddressData, parsed, mc_analysis_address}
use melsec_mc_net.Machine.{World, >>=-eq_some, malloc, malloc-eq_some}
use melsec_mc_net.Socket.{is_positive}
use melsec_mc_net.Socket.Receive.{incoming}
use melsec_mc_net.Socket.Send.{capacity}
use melsec_mc_net.Command.{
  build_write_bit_core_command, write_bit_core_bytes, trans_bytes, extract_bits,
}
use melsec_mc_net.Command.Bits.{arrives, trans_bytes-arrives}
use melsec_mc_net.Command.Frame.{
  request, decode_core-write_bit, build_write_bit_core_command-eq_some,
}
use melsec_mc_net.Response.{mc_parse_write_response}
use melsec_mc_net.Response.Frame.{
  ResponseFrame, IsWellFormed, frame_of, code_of, mc_parse_write_response-frame,
}
use melsec_mc_net.Transaction.Session.{IsReady}
use melsec_mc_net.Client.{analysed, write_bool_value, the_code, parse_code}
use melsec_mc_net.Client.Exchanges.{Requested, exchange-Requested}
use melsec_mc_net.Batch.{mc_write_bool_batch}

module _ (fd : ℕ) (w : World) (ready : IsReady fd w) (f : ResponseFrame) (valid : IsWellFormed f)
    (rest : List ℕ) (comes : incoming w.recvs ≡ frame_of f ++ rest) (address : List ℕ)
    (a : AddressData) (values : List Bool)
    (parses : mc_analysis_address (some address) (length values) ≡ parsed a)
    (pos : is_positive (length values) ≡ true) where
  write_packed :
      (bytes : List ℕ)
      → trans_bytes values ≡ some bytes
      → length bytes < 65524
      → length bytes + 21 ≤ capacity w.sends
      → (v : World) × (write_bool_value fd (some address) (length values) (some values) w
          ≡ some (code_of f, v))
        × Requested (request a 0x1401 1 a.length bytes) rest fd w v
  unfolding write_bool_value analysed write_bit_core_bytes parse_code
  write_packed bytes packs few fits =
      let (v, returns, requested) =
        exchange-Requested fd w ready f valid rest comes (write_bit_core_bytes a bytes)
          (request a 0x1401 1 a.length bytes) the_code parse_code (code_of f)
          (decode_core-write_bit a bytes) (omega arith) (omega arith) (omega arith)
          (λ u m.
            >>=-eq_some (mc_parse_write_response (some (frame_of f)) false none) _
              (mc_parse_write_response-frame f valid u false none m)) in
      (
        v,
        rw (ready.positive, pos, if◌then◌else◌, parses)
            (>>=-eq_some (build_write_bit_core_command a (some values)) _
                (build_write_bit_core_command-eq_some a values bytes w ready.memory packs)
              ∙ returns),
        requested,
      )

  -- A write of a batch of at least one and fewer than 131047 bits, on a ready descriptor, at an
  -- address that is parsed, where the system takes the frame at once and a well-formed response comes
  -- whole: the PLC is asked once, in units of bits, from the address's number modulo 2 ^ 24 on, for
  -- the address's number of points modulo 2 ^ 16, to write bytes in which the value at each index
  -- stands in its place, except that a value at an odd index from half of the number of values on is
  -- 0, and the code tells whether it answers with the end code 0.
  pub mc_write_bool_batch-Requested :
      length values < 131047
      → (length values + 1) / 2 + 21 ≤ capacity w.sends
      → (v : World) × (bytes : List ℕ) × (mc_write_bool_batch fd
            (some address)
            (length values)
            (some values)
            w
          ≡ some (code_of f, v))
        × Requested (request a 0x1401 1 a.length bytes) rest fd w v
        × ((j : ℕ)
            → j < length values
            → get_elem? (extract_bits bytes) j ≡ some (arrives values ((length values + 1) / 2) j))
  unfolding mc_write_bool_batch
  mc_write_bool_batch-Requested few fits =
      let (bytes, packs, len, arrive) = trans_bytes-arrives values in
      let (v, returns, requested) =
        write_packed bytes packs (omega (arith, len, few)) (omega (arith, len, fits)) in
      let enough : ltb (length values) (length values) ≡ false = ground arith in
      (
        v,
        bytes,
        rw (ready.positive, pos, if◌then◌else◌)
            (>>=-eq_some malloc _ (malloc-eq_some w ready.memory)
              ∙ rw (enough, if◌then◌else◌)
                  (ap
                      (λ (vs : List Bool).
                        write_bool_value fd (some address) (length values) (some vs) w)
                      (take-length values)
                    ∙ returns)),
        requested,
        arrive,
      )

-- ===== src/Client/Booleans.antt =====
-- The read and the write of a Boolean, from the address to the value.
use melsec_mc_net.Prelude.{
  ℕ, ◌+◌, ◌*◌, ◌≤◌, ◌≡◌, refl, ap, ◌∙◌, Bool, true, false, some, none, List, [], ◌∷◌, ◌++◌, arith,
  if◌then◌else◌,
}
use melsec_mc_net.Address.{AddressData, parsed, mc_analysis_address}
use melsec_mc_net.Machine.{
  World, >>=-eq_some, Buffer, ErrorCode, success, alloc-eq_some, alloc, malloc, malloc-eq_some,
}
use melsec_mc_net.Socket.Receive.{incoming}
use melsec_mc_net.Socket.Send.{capacity}
use melsec_mc_net.Command.{
  read_core_bytes, write_bit_core_bytes, build_read_core_command, build_write_bit_core_command,
  trans_byte, trans_bytes, trans_loop, extract_bits, extract_actual_bool_data,
}
use melsec_mc_net.Command.Bits.{extract-trans_byte, bit}
use melsec_mc_net.Command.Frame.{
  request, decode_core-read, decode_core-write_bit, build_read_core_command-eq_some,
  build_write_bit_core_command-eq_some,
}
use melsec_mc_net.Response.{mc_parse_read_response, mc_parse_write_response}
use melsec_mc_net.Response.Frame.{
  ResponseFrame, IsWellFormed, frame_of, code_of, copied, mc_parse_read_response-frame,
  mc_parse_write_response-frame,
}
use melsec_mc_net.Transaction.Session.{IsReady}
use melsec_mc_net.Client.Values.{
  analysed, parse_bits, nothing_stored, parse_code, the_code, read_bool_value, write_bool_value,
}
use melsec_mc_net.Client.Typed.{decoded, first_is_set, mc_read_bool, mc_write_bool}
use melsec_mc_net.Client.Exchanges.{Requested, exchange-Requested}

pub extract-eq_some :
    (b : ℕ) (bytes : List ℕ) (u : World)
    → u.mallocs ≡ []
    → extract_actual_bool_data (some (b ∷ bytes)) u ≡ some (some (extract_bits (b ∷ bytes)), u)
unfolding extract_actual_bool_data
extract-eq_some b bytes u m =
    >>=-eq_some (alloc (extract_bits (b ∷ bytes))) _ (alloc-eq_some (extract_bits (b ∷ bytes)) u m)

parse_bits-eq :
    (f : ResponseFrame) (valid : IsWellFormed f) (first second : Bool) (bytes : List ℕ) (u : World)
    → f.end0 + 256 * f.end1 ≡ 0
    → f.values ≡ trans_byte first second ∷ bytes
    → u.mallocs ≡ []
    → parse_bits none (some (frame_of f)) u
      ≡ some ((success, some (bit first ∷ bit second ∷ extract_bits bytes)), u)
unfolding parse_bits
parse_bits-eq f valid first second bytes u zero_code values m =
    let good : (code_of f, copied 0 true none f.values)
        ≡ (success, some (trans_byte first second ∷ bytes)) =
      ground (arith, zero_code, values) in
    >>=-eq_some (mc_parse_read_response (some (frame_of f)) true none) _ (
      mc_parse_read_response-frame f valid u true none m
      ∙ ap (λ (r : ErrorCode × Buffer). some (r, u)) good)
    ∙ >>=-eq_some (extract_actual_bool_data (some (trans_byte first second ∷ bytes))) _
        (extract-eq_some (trans_byte first second) bytes u m)
    ∙ ap (λ (bs : List ℕ). some ((success, some bs), u)) (extract-trans_byte first second bytes)

first_decoded :
    (first : Bool) (bits : List ℕ) (v : World)
    → decoded first_is_set 1 (success, some (bit first ∷ bits)) v ≡ some ((success, some first), v)
unfolding decoded
first_decoded true bits v = ground arith
first_decoded false bits v = ground arith

trans_bytes-one : (val : Bool) → trans_bytes (val ∷ []) ≡ some (trans_byte val false ∷ [])
unfolding trans_bytes trans_loop
trans_bytes-one val = refl

module _ (fd : ℕ) (w : World) (ready : IsReady fd w) (f : ResponseFrame) (valid : IsWellFormed f)
    (rest : List ℕ) (comes : incoming w.recvs ≡ frame_of f ++ rest) (address : List ℕ)
    (a : AddressData) (parses : mc_analysis_address (some address) 1 ≡ parsed a) where
  read_bool_value-Requested :
      (first second : Bool) (bytes : List ℕ)
      → 21 ≤ capacity w.sends
      → f.end0 + 256 * f.end1 ≡ 0
      → f.values ≡ trans_byte first second ∷ bytes
      → (v : World) × (read_bool_value fd (some address) 1 none w
          ≡ some ((success, some (bit first ∷ bit second ∷ extract_bits bytes)), v))
        × Requested (request a 0x0401 1 a.length []) rest fd w v
  unfolding read_bool_value analysed read_core_bytes
  read_bool_value-Requested first second bytes fits zero_code values =
      let bits = bit first ∷ bit second ∷ extract_bits bytes in
      let (v, returns, done) =
        exchange-Requested fd w ready f valid rest comes (read_core_bytes a true)
          (request a 0x0401 1 a.length []) (nothing_stored none) (parse_bits none)
          (success, some bits) (decode_core-read a true) (omega arith) (omega arith) (omega arith)
          (λ u m. parse_bits-eq f valid first second bytes u zero_code values m) in
      (
        v,
        rw (ready.positive, if◌then◌else◌, parses)
            (>>=-eq_some (build_read_core_command a true) _
                (build_read_core_command-eq_some a true w ready.memory)
              ∙ returns),
        done,
      )

  -- A read of a Boolean on a ready descriptor, at an address that is parsed, where the system takes the
  -- frame at once and the PLC answers with a well-formed response with the end code 0 and a byte that
  -- holds the value in its upper half: the result is success with that value, and the PLC was asked
  -- once, for the point of the address in units of bits.
  pub mc_read_bool-value :
      (first second : Bool) (bytes : List ℕ)
      → 21 ≤ capacity w.sends
      → f.end0 + 256 * f.end1 ≡ 0
      → f.values ≡ trans_byte first second ∷ bytes
      → (v : World) × (mc_read_bool fd (some address) w ≡ some ((success, some first), v))
        × Requested (request a 0x0401 1 a.length []) rest fd w v
  unfolding mc_read_bool
  mc_read_bool-value first second bytes fits zero_code values =
      let bits = bit first ∷ bit second ∷ extract_bits bytes in
      let (v, returns, done) = read_bool_value-Requested first second bytes fits zero_code values in
      (
        v,
        rw (ready.positive, if◌then◌else◌)
            (>>=-eq_some (read_bool_value fd (some address) 1 none) _ returns
              ∙ first_decoded first (bit second ∷ extract_bits bytes) v),
        done,
      )

  write_bool_value-Requested :
      (val : Bool)
      → 22 ≤ capacity w.sends
      → (v : World) × (write_bool_value fd (some address) 1 (some (val ∷ [])) w
          ≡ some (code_of f, v))
        × Requested (request a 0x1401 1 a.length (trans_byte val false ∷ [])) rest fd w v
  unfolding write_bool_value analysed write_bit_core_bytes parse_code
  write_bool_value-Requested val fits =
      let bytes = trans_byte val false ∷ [] in
      let (v, returns, done) =
        exchange-Requested fd w ready f valid rest comes (write_bit_core_bytes a bytes)
          (request a 0x1401 1 a.length bytes) the_code parse_code (code_of f)
          (decode_core-write_bit a bytes) (omega arith) (omega arith) (omega arith)
          (λ u m.
            >>=-eq_some (mc_parse_write_response (some (frame_of f)) false none) _
              (mc_parse_write_response-frame f valid u false none m)) in
      (
        v,
        rw (ready.positive, if◌then◌else◌, parses)
            (>>=-eq_some (build_write_bit_core_command a (some (val ∷ []))) _ (
                build_write_bit_core_command-eq_some a (val ∷ []) bytes w ready.memory
                  (trans_bytes-one val))
              ∙ returns),
        done,
      )

  -- A write of a Boolean on a ready descriptor, at an address that is parsed, where the system takes the
  -- frame at once and a well-formed response comes whole: the PLC is asked once, in
  -- units of bits, to write a byte that holds the value in its upper half, and the code tells whether
  -- it answers with the end code 0.
  pub mc_write_bool-Requested :
      (val : Bool)
      → 22 ≤ capacity w.sends
      → (v : World) × (mc_write_bool fd (some address) val w ≡ some (code_of f, v))
        × Requested (request a 0x1401 1 a.length (trans_byte val false ∷ [])) rest fd w v
  unfolding mc_write_bool
  mc_write_bool-Requested val fits =
      let (v, returns, done) = write_bool_value-Requested val fits in
      (
        v,
        rw (ready.positive, if◌then◌else◌)
            (>>=-eq_some malloc _ (malloc-eq_some w ready.memory) ∙ returns),
        done,
      )

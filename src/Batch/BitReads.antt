-- ===== src/Batch/BitReads.antt =====
-- The read of a batch of bits, from the address to the values.
use melsec_mc_net.Prelude.{
  ℕ, ◌+◌, ◌*◌, ◌<◌, ◌≤◌, ◌==◌, ◌≡◌, refl, ap, ◌∙◌, Bool, true, false, not, some, none, List, [],
  ◌∷◌, ◌++◌, arith, length, take, map, if◌then◌else◌, leb,
}
use mathlib.Core.Path.{subst}
use melsec_mc_net.Address.Length.{length-parsed}
use melsec_mc_net.Address.{AddressData, parsed, mc_analysis_address}
use melsec_mc_net.Machine.{World, >>=-eq_some, Buffer, ErrorCode, success}
use melsec_mc_net.Socket.{is_positive}
use melsec_mc_net.Socket.Receive.{incoming}
use melsec_mc_net.Socket.Send.{capacity}
use melsec_mc_net.Command.{
  build_read_core_command, read_core_bytes, extract_bits, extract_actual_bool_data,
}
use melsec_mc_net.Command.Bits.{bit}
use melsec_mc_net.Command.Frame.{request, decode_core-read, build_read_core_command-eq_some}
use melsec_mc_net.Response.{mc_parse_read_response}
use melsec_mc_net.Response.Frame.{
  ResponseFrame, IsWellFormed, frame_of, code_of, copied, mc_parse_read_response-frame,
}
use melsec_mc_net.Transaction.Session.{IsReady}
use melsec_mc_net.Client.{analysed, read_bool_value, nothing_stored, parse_bits}
use melsec_mc_net.Client.Exchanges.{Requested, exchange-Requested}
use melsec_mc_net.Client.Booleans.{extract-eq_some}
use melsec_mc_net.Batch.{mc_read_bool_batch}

-- The bytes of a bit response by the manual: two values to a byte, the first in its upper half.
abbrev pub two_in_each : List Bool → List ℕ
two_in_each [] = []
two_in_each (a ∷ []) = 16 * bit a ∷ []
two_in_each (a ∷ b ∷ values) = (16 * bit a + bit b) ∷ two_in_each values

-- The values that are unpacked from the bytes, as many as were packed.
unpacked :
    (values : List Bool)
    → map (λ b. not (b == 0)) (take (length values) (extract_bits (two_in_each values))) ≡ values
unfolding extract_bits
unpacked [] = refl
unpacked (true ∷ []) = refl
unpacked (false ∷ []) = refl
unpacked (true ∷ true ∷ values) = ap (λ (vs : List Bool). true ∷ true ∷ vs) (unpacked values)
unpacked (true ∷ false ∷ values) = ap (λ (vs : List Bool). true ∷ false ∷ vs) (unpacked values)
unpacked (false ∷ true ∷ values) = ap (λ (vs : List Bool). false ∷ true ∷ vs) (unpacked values)
unpacked (false ∷ false ∷ values) = ap (λ (vs : List Bool). false ∷ false ∷ vs) (unpacked values)

length-unpacked : (values : List Bool) → length values ≤ length (extract_bits (two_in_each values))
unfolding extract_bits
length-unpacked [] = omega arith
length-unpacked (a ∷ []) = omega arith
length-unpacked (a ∷ b ∷ values) = omega (arith, length-unpacked values)

-- A packed batch is not empty, and neither is what is unpacked.
extracted :
    (values : List Bool) (u : World)
    → 0 < length values
    → u.mallocs ≡ []
    → extract_actual_bool_data (some (two_in_each values)) u
      ≡ some (some (extract_bits (two_in_each values)), u)
extracted [] u pos m = absurd (omega arith)
extracted (a ∷ []) u pos m = extract-eq_some (16 * bit a) [] u m
extracted (a ∷ b ∷ values) u pos m = extract-eq_some (16 * bit a + bit b) (two_in_each values) u m

length-two_in_each : (values : List Bool) → 0 < length values → 0 < length (two_in_each values)
length-two_in_each [] pos = absurd (omega arith)
length-two_in_each (a ∷ []) pos = omega arith
length-two_in_each (a ∷ b ∷ values) pos = omega arith

module _ (fd : ℕ) (w : World) (ready : IsReady fd w) (f : ResponseFrame) (valid : IsWellFormed f)
    (rest : List ℕ) (comes : incoming w.recvs ≡ frame_of f ++ rest) (address : List ℕ)
    (a : AddressData) (values : List Bool)
    (parses : mc_analysis_address (some address) (length values) ≡ parsed a)
    (pos : is_positive (length values) ≡ true) (zero_code : f.end0 + 256 * f.end1 ≡ 0)
    (packed : f.values ≡ two_in_each values) where
  some_values : 0 < length values
  some_values = ground (arith, pos)

  parse_bits-packed :
      (u : World)
      → u.mallocs ≡ []
      → parse_bits none (some (frame_of f)) u
        ≡ some ((success, some (extract_bits (two_in_each values))), u)
  unfolding parse_bits
  parse_bits-packed u m =
      let good : (code_of f, copied 0 true none f.values) ≡ (success, some (two_in_each values)) =
        ground (arith, zero_code, packed, length-two_in_each values some_values) in
      >>=-eq_some (mc_parse_read_response (some (frame_of f)) true none) _ (
        mc_parse_read_response-frame f valid u true none m
        ∙ ap (λ (r : ErrorCode × Buffer). some (r, u)) good)
      ∙ >>=-eq_some (extract_actual_bool_data (some (two_in_each values))) _
          (extracted values u some_values m)

  read_bits-Requested :
      21 ≤ capacity w.sends
      → (v : World) × (read_bool_value fd (some address) (length values) none w
          ≡ some ((success, some (extract_bits (two_in_each values))), v))
        × Requested (request a 0x0401 1 a.length []) rest fd w v
  unfolding read_bool_value analysed read_core_bytes
  read_bits-Requested fits =
      let (v, returns, done) =
        exchange-Requested fd w ready f valid rest comes (read_core_bytes a true)
          (request a 0x0401 1 a.length []) (nothing_stored none) (parse_bits none)
          (success, some (extract_bits (two_in_each values))) (decode_core-read a true)
          (omega arith) (omega arith) (omega arith) parse_bits-packed in
      (
        v,
        rw (ready.positive, pos, if◌then◌else◌, parses)
            (>>=-eq_some (build_read_core_command a true) _
                (build_read_core_command-eq_some a true w ready.memory)
              ∙ returns),
        done,
      )

  -- A read of a batch of at least one bit, on a ready descriptor, at an address that is parsed, where
  -- the system takes the frame at once and the PLC answers with a well-formed response with the end
  -- code 0 and as many values as are asked for, two to a byte and the first in its upper half: the
  -- result is success with exactly these values, in order, and the PLC was asked once, in units of
  -- bits, from the address's number modulo 2 ^ 24 on, for as many points as there are values modulo 2
  -- ^ 16: of 65536 values, for none.
  pub mc_read_bool_batch-values :
      21 ≤ capacity w.sends
      → (v : World) × (mc_read_bool_batch fd (some address) (length values) w
          ≡ some ((success, some values), v))
        × Requested (request a 0x0401 1 (length values) []) rest fd w v
  unfolding mc_read_bool_batch
  mc_read_bool_batch-values fits =
      let (v, returns, done) = read_bits-Requested fits in
      let enough : leb (length values) (length (extract_bits (two_in_each values))) ≡ true =
        ground (arith, length-unpacked values) in
      (
        v,
        rw (ready.positive, pos, if◌then◌else◌)
            (>>=-eq_some (read_bool_value fd (some address) (length values) none) _ returns
              ∙ rw (enough, if◌then◌else◌)
                  (ap (λ (vs : List Bool). some ((success, some vs), v)) (unpacked values))),
        subst (λ (n : ℕ). Requested (request a 0x0401 1 n []) rest fd w v)
            (length-parsed address (length values) a parses) done,
      )

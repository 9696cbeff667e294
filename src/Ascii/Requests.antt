-- ===== src/Ascii/Requests.antt =====
-- The calls of the ASCII protocol for bytes and bits: what the PLC is asked.
use melsec_mc_net.Prelude.{
  ℕ, ◌+◌, ◌*◌, ◌<◌, ◌≤◌, ◌≡◌, ◌∙◌, Bool, true, false, some, none, List, [], ◌++◌, arith, length,
  All, map, if◌then◌else◌,
}
use melsec_mc_net.Address.{AddressData, parsed, mc_analysis_address}
use melsec_mc_net.Machine.{World, M, >>=-eq_some, Buffer, ErrorCode}
use melsec_mc_net.Socket.{is_positive}
use melsec_mc_net.Socket.Receive.{incoming}
use melsec_mc_net.Socket.Send.{capacity}
use melsec_mc_net.Command.Frame.{unit_of}
use melsec_mc_net.Client.{analysed, nothing_stored, the_code}
use melsec_mc_net.Ascii.Command.{
  mc_ascii_build_read_core_command, mc_ascii_build_write_word_core_command,
  mc_ascii_build_write_bit_core_command,
}
use melsec_mc_net.Ascii.Command.Words.{words_text, IsByte, IsEven}
use melsec_mc_net.Ascii.Command.Core.{
  HasDigits, Asks, ascii_request, build_read-Asks, build_write_word-Asks, build_write_bit-Asks,
}
use melsec_mc_net.Ascii.Response.{mc_ascii_parse_read_response, mc_ascii_parse_write_response}
use melsec_mc_net.Ascii.Response.Frame.{
  AsciiResponse, HasFields, ascii_frame_of, ascii_code_of, parse_write-frame,
}
use melsec_mc_net.Ascii.Exchanges.{IsAsciiReady, AsciiRequested, ascii_exchange-Requested}
use melsec_mc_net.Ascii.Values.{
  ascii_call, ascii_read_value, ascii_write_word_value, ascii_write_bool_value, ascii_parse_code,
}

module _ (fd : ℕ) (w : World) (at : IsAsciiReady fd w) (r : AsciiResponse) (valid : HasFields r)
    (rest : List ℕ) (comes : incoming w.recvs ≡ ascii_frame_of r ++ rest) where
  -- A call, from the core command that is built.
  pub call-Requested :
      {A : Type 0} {Asking : List ℕ → Type 0} (fails : ErrorCode → A) (least : ℕ)
      (parse : Buffer → M A) (answer : A) (build : M Buffer) (core : List ℕ)
      → least ≤ 22
      → ((u : World) → u.mallocs ≡ [] → parse (some (ascii_frame_of r)) u ≡ some (answer, u))
      → build w ≡ some (some core, w)
      → Asking core
      → 0 < length core
      → length core < 65532
      → length core + 22 ≤ capacity w.sends
      → (v : World) × (ascii_call fd fails least parse build w ≡ some (answer, v))
        × AsciiRequested Asking rest fd w v
  unfolding ascii_call
  call-Requested fails least parse answer build core enough parses built asks pos few fits =
      let (v, returns, requested) =
        ascii_exchange-Requested fd w at r valid rest comes fails least enough parse answer parses
          core asks pos few fits in
      (v, >>=-eq_some build _ built ∙ returns, requested)

  module _ (address : List ℕ) (words : ℕ) (a : AddressData) (more : ℕ)
      (parses : mc_analysis_address (some address) words ≡ parsed a)
      (digits : HasDigits a more) where
    -- A read, of words or of bits, whose answer is parsed to this result.
    pub read_value-Requested :
        (is_bit : Bool) (before : Buffer) (answer : ErrorCode × Buffer)
        → is_positive words ≡ true
        → 42 ≤ capacity w.sends
        → ((u : World)
            → u.mallocs ≡ []
            → mc_ascii_parse_read_response (some (ascii_frame_of r)) is_bit before u
              ≡ some (answer, u))
        → (v : World) × (ascii_read_value is_bit fd (some address) words before w
            ≡ some (answer, v))
          × AsciiRequested (Asks a (ascii_request a more 0x0401 (unit_of is_bit) []) 20) rest fd w v
    unfolding ascii_read_value analysed
    read_value-Requested is_bit before answer pos fits answers =
        let (core, built, (asks, count)) = build_read-Asks a more digits w at.ready.memory is_bit in
        let (v, returns, requested) =
          call-Requested {Asking = Asks a (ascii_request a more 0x0401 (unit_of is_bit) []) 20}
            (nothing_stored before) 22
            (λ response. mc_ascii_parse_read_response response is_bit before) answer
            (mc_ascii_build_read_core_command a is_bit) core (omega arith) answers built
            (asks, count) (omega (arith, count)) (omega (arith, count))
            (omega (arith, count, fits)) in
        (v, rw (at.ready.positive, pos, if◌then◌else◌, parses) returns, requested)

    -- A write of words: the code of the answer.
    pub write_word_value-Requested :
        (bytes : List ℕ)
        → is_positive words ≡ true
        → 0 < length bytes
        → length bytes < 32756
        → IsEven bytes
        → All IsByte bytes
        → 2 * length bytes + 42 ≤ capacity w.sends
        → (v : World) × (ascii_write_word_value fd (some address) words (some bytes) w
            ≡ some (ascii_code_of r, v))
          × AsciiRequested
              (Asks a (ascii_request a more 0x1401 0 (words_text bytes)) (2 * length bytes + 20))
              rest
              fd
              w
              v
    unfolding ascii_write_word_value analysed ascii_parse_code
    write_word_value-Requested bytes pos some_bytes few even small fits =
        let (core, built, (asks, count)) =
          build_write_word-Asks a more digits w at.ready.memory bytes some_bytes even small in
        let (v, returns, requested) =
          call-Requested
            {Asking = Asks a (ascii_request a more 0x1401 0 (words_text bytes))
              (2 * length bytes + 20)}
            the_code 0 ascii_parse_code (ascii_code_of r)
            (mc_ascii_build_write_word_core_command a (some bytes)) core (omega arith)
            (λ u m.
              >>=-eq_some (mc_ascii_parse_write_response (some (ascii_frame_of r)) false none) _
                (parse_write-frame r valid none u))
            built (asks, count) (omega (arith, count)) (omega (arith, count, few))
            (omega (arith, count, fits)) in
        (v, rw (at.ready.positive, pos, if◌then◌else◌, parses) returns, requested)

    -- A write of bits: the code of the answer.
    pub write_bool_value-Requested :
        (values : List Bool)
        → is_positive words ≡ true
        → 0 < length values
        → length values < 65512
        → length values + 42 ≤ capacity w.sends
        → (v : World) × (ascii_write_bool_value fd (some address) words (some values) w
            ≡ some (ascii_code_of r, v))
          × AsciiRequested
              (Asks a
                (ascii_request a more 0x1401 1 (map (λ (b : Bool). if b then 49 else 48) values))
                (length values + 20))
              rest
              fd
              w
              v
    unfolding ascii_write_bool_value analysed ascii_parse_code
    write_bool_value-Requested values pos some_values few fits =
        let (core, built, (asks, count)) =
          build_write_bit-Asks a more digits w at.ready.memory values some_values in
        let (v, returns, requested) =
          call-Requested
            {Asking = Asks a
              (ascii_request a more 0x1401 1 (map (λ (b : Bool). if b then 49 else 48) values))
              (length values + 20)}
            the_code 0 ascii_parse_code (ascii_code_of r)
            (mc_ascii_build_write_bit_core_command a (some values)) core (omega arith)
            (λ u m.
              >>=-eq_some (mc_ascii_parse_write_response (some (ascii_frame_of r)) false none) _
                (parse_write-frame r valid none u))
            built (asks, count) (omega (arith, count)) (omega (arith, count, few))
            (omega (arith, count, fits)) in
        (v, rw (at.ready.positive, pos, if◌then◌else◌, parses) returns, requested)

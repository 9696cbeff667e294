-- ===== src/Ascii/Booleans.antt =====
-- Single bits and raw commands over the ASCII protocol.
use melsec_mc_net.Prelude.{
  ℕ, ◌+◌, ◌*◌, ◌%◌, ◌<◌, ◌≤◌, ltb, ◌==◌, ◌||◌, not, ◌≡◌, refl, ap, ◌∙◌, Bool, true, false, some,
  none, List, [], ◌∷◌, ◌++◌, arith, length, All, map, if◌then◌else◌,
}
use melsec_mc_net.Address.{AddressData, parsed, mc_analysis_address}
use melsec_mc_net.Machine.{World, >>=-eq_some, success, alloc-eq_some, malloc, malloc-eq_some}
use melsec_mc_net.Socket.Receive.{incoming}
use melsec_mc_net.Socket.Send.{capacity}
use melsec_mc_net.Client.{nothing_stored, decoded, run_command, stop_command, reset_command}
use melsec_mc_net.Ascii.Command.{mc_ascii_build_core_from_le_words, le_words_text}
use melsec_mc_net.Ascii.Command.Words.{
  words_text, IsByte, IsEven, length-words_text, le_words_text-words_text,
}
use melsec_mc_net.Ascii.Command.Core.{HasDigits, Asks, ascii_request}
use melsec_mc_net.Ascii.Response.{mc_ascii_parse_write_response, bit_of_char}
use melsec_mc_net.Ascii.Response.Frame.{
  AsciiResponse, HasFields, ascii_frame_of, ascii_code_of, parse_read-bits, parse_write-frame,
}
use melsec_mc_net.Ascii.Exchanges.{IsAsciiReady, AsciiRequested}
use melsec_mc_net.Ascii.Requests.{call-Requested, read_value-Requested, write_bool_value-Requested}
use melsec_mc_net.Ascii.Values.{ascii_read_bool_value, mc_ascii_execute_raw_command}
use melsec_mc_net.Ascii.Typed.{
  mc_ascii_read_bool, mc_ascii_write_bool, ascii_remote, mc_ascii_remote_run, mc_ascii_remote_stop,
  mc_ascii_remote_reset,
}

module _ (fd : ℕ) (w : World) (at : IsAsciiReady fd w) (r : AsciiResponse) (valid : HasFields r)
    (rest : List ℕ) (comes : incoming w.recvs ≡ ascii_frame_of r ++ rest) where
  module _ (address : List ℕ) (a : AddressData) (more : ℕ)
      (parses : mc_analysis_address (some address) 1 ≡ parsed a) (digits : HasDigits a more) where
    -- A read of a bit over the ASCII protocol: on a ready descriptor, at an address that is parsed and whose
    -- number is not negative, where the system takes the frame at once and the PLC answers with well-formed
    -- fields, the end code 0 and the character 0 or 1, the result is success with that bit, and the PLC was
    -- asked for the bits of the address, once.
    pub mc_ascii_read_bool-value :
        (b : Bool)
        → 42 ≤ capacity w.sends
        → r.end_code ≡ 0
        → r.text ≡ (if b then 49 else 48) ∷ []
        → (v : World) × (mc_ascii_read_bool fd (some address) w ≡ some ((success, some b), v))
          × AsciiRequested (Asks a (ascii_request a more 0x0401 1 []) 20) rest fd w v
    unfolding mc_ascii_read_bool ascii_read_bool_value decoded
    mc_ascii_read_bool-value b fits good text =
        let bits : map bit_of_char r.text ≡ (if b then 1 else 0) ∷ [] =
          ap (map bit_of_char) text
          ∙ elim b
              as (λ c. map bit_of_char ((if c then 49 else 48) ∷ []) ≡ (if c then 1 else 0) ∷ []) [
                | true ↦ refl
                | false ↦ refl
              ] in
        let (v, returns, requested) =
          read_value-Requested fd w at r valid rest comes address 1 a more parses digits true none
            (success, some ((if b then 1 else 0) ∷ [])) refl fits
            (λ u m.
              parse_read-bits r valid good none u (omega (arith, ap length text)) m
              ∙ ap (λ (bs : List ℕ). some ((success, some bs), u)) bits) in
        (
          v,
          rw (at.ready.positive, if◌then◌else◌)
              (>>=-eq_some (ascii_read_bool_value fd (some address) 1 none) _ returns
                ∙ ap (λ (c : Bool). some ((success, some c), v))
                    (elim b as (λ c. not ((if c then 1 else 0) == 0) ≡ c) [
                      | true ↦ refl
                      | false ↦ refl
                    ])),
          requested,
        )

    -- A write of a bit over the ASCII protocol, under the same conditions on the descriptor and the address,
    -- where the system takes the frame at once and a response with well-formed fields comes whole: the PLC
    -- is asked, once, to write this one bit, and the code tells whether it answers with the end code 0.
    pub mc_ascii_write_bool-Requested :
        (b : Bool)
        → 43 ≤ capacity w.sends
        → (v : World) × (mc_ascii_write_bool fd (some address) b w ≡ some (ascii_code_of r, v))
          × AsciiRequested
              (Asks a (ascii_request a more 0x1401 1 ((if b then 49 else 48) ∷ [])) 21)
              rest
              fd
              w
              v
    unfolding mc_ascii_write_bool
    mc_ascii_write_bool-Requested b fits =
        let (v, returns, requested) =
          write_bool_value-Requested fd w at r valid rest comes address 1 a more parses digits
            (b ∷ []) refl (omega arith) (omega arith) (omega arith) in
        (
          v,
          rw (at.ready.positive, if◌then◌else◌)
              (>>=-eq_some malloc _ (malloc-eq_some w at.ready.memory) ∙ returns),
          requested,
        )

  -- A raw command.
  raw-Requested :
      (raw_cmd : List ℕ)
      → 0 < length raw_cmd
      → length raw_cmd < 32766
      → IsEven raw_cmd
      → All IsByte raw_cmd
      → 2 * length raw_cmd + 22 ≤ capacity w.sends
      → (v : World) × (mc_ascii_execute_raw_command fd raw_cmd false w
          ≡ some ((ascii_code_of r, none), v))
        × AsciiRequested (λ core. core ≡ words_text raw_cmd) rest fd w v
  unfolding mc_ascii_execute_raw_command mc_ascii_build_core_from_le_words
  raw-Requested raw_cmd pos few even small fits =
      let text = le_words_text-words_text raw_cmd small in
      let len = length-words_text raw_cmd even in
      let whole : (length raw_cmd == 0 || length raw_cmd % 2 == 1) ≡ false =
        ground (arith, pos, even) in
      let longer : ltb 0 (length raw_cmd) ≡ true = ground (arith, pos) in
      let built : mc_ascii_build_core_from_le_words raw_cmd w
          ≡ some (some (words_text raw_cmd), w) =
        rw (whole, mc_ascii_build_core_from_le_words, if◌then◌else◌)
          (alloc-eq_some (le_words_text raw_cmd) w at.ready.memory
            ∙ ap (λ (t : List ℕ). some (some t, w)) text) in
      let (v, returns, requested) =
        call-Requested fd w at r valid rest comes {Asking = λ core. core ≡ words_text raw_cmd}
          (nothing_stored none) 0 (λ response. mc_ascii_parse_write_response response false none)
          (ascii_code_of r, none) (mc_ascii_build_core_from_le_words raw_cmd) (words_text raw_cmd)
          (omega arith) (λ u m. parse_write-frame r valid none u) built refl (omega (arith, len))
          (omega (arith, len)) (omega (arith, len)) in
      (v, rw (at.ready.positive, longer, if◌then◌else◌) returns, requested)

  remote-Requested :
      (raw_cmd : List ℕ)
      → 0 < length raw_cmd
      → length raw_cmd < 32766
      → IsEven raw_cmd
      → All IsByte raw_cmd
      → 2 * length raw_cmd + 22 ≤ capacity w.sends
      → (v : World) × (ascii_remote raw_cmd fd w ≡ some (ascii_code_of r, v))
        × AsciiRequested (λ core. core ≡ words_text raw_cmd) rest fd w v
  unfolding ascii_remote
  remote-Requested raw_cmd pos few even small fits =
      let (v, returns, requested) = raw-Requested raw_cmd pos few even small fits in
      (v, >>=-eq_some (mc_ascii_execute_raw_command fd raw_cmd false) _ returns, requested)

  -- Each of the three commands of remote control over the ASCII protocol, on a ready descriptor where the
  -- system takes the frame at once and a response with well-formed fields comes whole: the PLC gets, once,
  -- the words of the binary command in four digits each, and the result is success exactly if the end code
  -- is 0.
  pub mc_ascii_remote-Requested :
      38 ≤ capacity w.sends
      → ((v : World) × (mc_ascii_remote_run fd w ≡ some (ascii_code_of r, v))
          × AsciiRequested (λ core. core ≡ words_text run_command) rest fd w v)
        × ((v : World) × (mc_ascii_remote_stop fd w ≡ some (ascii_code_of r, v))
            × AsciiRequested (λ core. core ≡ words_text stop_command) rest fd w v)
        × ((v : World) × (mc_ascii_remote_reset fd w ≡ some (ascii_code_of r, v))
            × AsciiRequested (λ core. core ≡ words_text reset_command) rest fd w v)
  unfolding mc_ascii_remote_run mc_ascii_remote_stop mc_ascii_remote_reset
  mc_ascii_remote-Requested fits = (
    remote-Requested run_command (omega arith) (omega arith) refl
        (
          omega arith,
          (
            omega arith,
            (
              omega arith,
              (omega arith, (omega arith, (omega arith, (omega arith, (omega arith, tt))))),
            ),
          ),
        )
        (omega arith),
    remote-Requested stop_command (omega arith) (omega arith) refl
        (omega arith, (omega arith, (omega arith, (omega arith, (omega arith, (omega arith, tt))))))
        (omega arith),
    remote-Requested reset_command (omega arith) (omega arith) refl
        (omega arith, (omega arith, (omega arith, (omega arith, (omega arith, (omega arith, tt))))))
        (omega arith),
  )

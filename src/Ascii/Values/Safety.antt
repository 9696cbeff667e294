-- ===== src/Ascii/Values/Safety.antt =====
-- The exchanges of the ASCII protocol return whatever memory is to be had and whatever the network
-- does: nothing is released twice and nothing is read out of bounds.
use melsec_mc_net.Prelude.{
  ℕ, ltb, ◌==◌, ◌||◌, ◌%◌, if◌then◌else◌, ◌≡◌, ◌≢◌, refl, ◌∙◌, Bool, true, some, none, List, [],
  ◌∷◌, length, Bool-cases, inl, inr,
}
use melsec_mc_net.Address.{AddressData, parsed, mc_analysis_address}
use melsec_mc_net.Machine.{
  World, M, ◌>>=◌, ◌>>◌, pure, malloc, Buffer, ErrorCode, invalid_parameter, build_core_cmd_failed,
  response_header_failed, >>=-eq_some,
}
use melsec_mc_net.Machine.Returns.{
  Returns, Anything, pure-Returns, >>=-Returns, on_code-Returns, on_option-Returns, on_bool-Returns,
  on_test-Returns, malloc-Returns, alloc-Returns,
}
use melsec_mc_net.Socket.{is_positive}
use melsec_mc_net.Response.{Reply, dangling, release, null, live, Pointer}
use melsec_mc_net.Transaction.{transaction, response_buffer}
use melsec_mc_net.Transaction.Returns.{IsIdle, transaction_returns}
use melsec_mc_net.Transaction.Idle.{
  KeepsIdle, Returns-KeepsIdle, on_option-KeepsIdle, >>=-KeepsIdle,
}
use melsec_mc_net.Ascii.Response.{
  ascii_send_and_receive_transaction, mc_ascii_read_response, mc_ascii_parse_read_response,
  mc_ascii_parse_write_response,
}
use melsec_mc_net.Ascii.Response.Safety.{
  NotDangling, mc_ascii_read_response-NotDangling, parse_read-Returns, parse_write-Returns,
}
use melsec_mc_net.Ascii.Command.{
  pack_mc_ascii_command, ascii_frame_text, le_words_text, fill_command,
  mc_ascii_format_device_number, mc_ascii_build_core_from_le_words,
  mc_ascii_build_read_core_command,
}
use melsec_mc_net.Client.{nothing_stored, analysed}
use melsec_mc_net.Ascii.Values.{
  ascii_finish, ascii_exchange, ascii_call, ascii_read_value, mc_ascii_execute_raw_command,
}

release-Returns : (p : Pointer) (w : World) → p ≢ dangling → Returns Anything (release p) w
unfolding release
release-Returns null w ne = pure-Returns _ w tt
release-Returns (live bytes) w ne = pure-Returns _ w tt
release-Returns dangling w ne = absurd (ne refl)

module _ (fd : ℕ) {A : Type 0} (fails : ErrorCode → A) (least : ℕ) (parse : Buffer → M A)
    (parses : (response : Buffer) (w : World) → Returns Anything (parse response) w) where
  finish-Returns :
      (reply : Reply) (w : World)
      → NotDangling reply
      → Returns Anything (ascii_finish fd fails least parse reply) w
  unfolding ascii_finish
  finish-Returns reply w ne =
      let refuse : ErrorCode → M A = λ c. release reply.response >> pure (fails c) in
      let refuses : (c : ErrorCode) (v : World) → Returns Anything (refuse c) v = λ c v.
        >>=-Returns (release reply.response) _ v (release-Returns reply.response v ne)
          (λ a u p. pure-Returns _ u tt) in
      on_code-Returns _ refuse reply.code w
        (λ ok.
          on_test-Returns _ _ (ltb reply.read_count least) w
            (λ short. refuses response_header_failed w)
            (λ long.
              >>=-Returns (parse (response_buffer reply.response)) _ w
                (parses (response_buffer reply.response) w)
                (λ a v p.
                  >>=-Returns (release reply.response) _ v (release-Returns reply.response v ne)
                    (λ b u q. pure-Returns _ u tt))))
        (λ c. refuses c w)

  pack-Returns :
      (core : Buffer) (net station : ℕ) (w : World)
      → Returns Anything (pack_mc_ascii_command core net station) w
  unfolding pack_mc_ascii_command
  pack-Returns none net station w = pure-Returns _ w tt
  pack-Returns (some []) net station w = pure-Returns _ w tt
  pack-Returns (some (b ∷ core)) net station w =
      alloc-Returns (ascii_frame_text (b ∷ core) net station) w

  exchange_frame :
      (cmd : Buffer) (w : World)
      → IsIdle fd w
      → KeepsIdle fd
          (ascii_send_and_receive_transaction fd cmd >>= ascii_finish fd fails least parse)
          w
  unfolding ascii_send_and_receive_transaction
  exchange_frame cmd w at =
      let (reply, v, returns, safe, idle) =
        transaction_returns fd mc_ascii_read_response NotDangling (λ code e. cc)
          (mc_ascii_read_response-NotDangling fd) cmd w at in
      let (a, u, ends, after) =
        Returns-KeepsIdle fd (ascii_finish fd fails least parse reply) v idle
          (finish-Returns reply v safe) in
      (a, u, >>=-eq_some (transaction mc_ascii_read_response fd cmd) _ returns ∙ ends, after)

  pub exchange_KeepsIdle :
      (core : Buffer) (w : World)
      → IsIdle fd w
      → KeepsIdle fd (ascii_exchange fd fails least parse core) w
  unfolding ascii_exchange
  exchange_KeepsIdle core w at =
      >>=-KeepsIdle fd
        (pack_mc_ascii_command core w.network_address.network_number
          w.network_address.station_number)
        _ w at
        (pack-Returns core w.network_address.network_number w.network_address.station_number w)
        (λ cmd v p idle.
          on_option-KeepsIdle fd _ _ cmd v (fails build_core_cmd_failed, v, refl, idle)
            (λ bytes. exchange_frame (some bytes) v idle))

  call_KeepsIdle :
      (build : M Buffer) (w : World)
      → ((v : World) → Returns Anything build v)
      → IsIdle fd w
      → KeepsIdle fd (ascii_call fd fails least parse build) w
  unfolding ascii_call
  call_KeepsIdle build w builds at = >>=-KeepsIdle fd build _ w at (builds w) (λ core v p idle.
      on_option-KeepsIdle fd _ _ core v (fails build_core_cmd_failed, v, refl, idle)
        (λ bytes. exchange_KeepsIdle (some bytes) v idle))

build_raw-Returns :
    (raw_cmd : List ℕ) (w : World) → Returns Anything (mc_ascii_build_core_from_le_words raw_cmd) w
unfolding mc_ascii_build_core_from_le_words
build_raw-Returns raw_cmd w =
    on_test-Returns _ _ (length raw_cmd == 0 || length raw_cmd % 2 == 1) w
      (λ bad. pure-Returns _ w tt) (λ good. alloc-Returns (le_words_text raw_cmd) w)

build_read-Returns :
    (a : AddressData) (is_bit : Bool) (w : World)
    → Returns Anything (mc_ascii_build_read_core_command a is_bit) w
unfolding mc_ascii_build_read_core_command fill_command
build_read-Returns a is_bit w = >>=-Returns malloc _ w (malloc-Returns w) (λ ok v p.
    on_bool-Returns _ _ ok v
      (λ had.
        on_option-Returns _ _ (mc_ascii_format_device_number a) v (pure-Returns _ v tt)
          (λ digits e. pure-Returns _ v tt))
      (λ missing. pure-Returns _ v tt))

-- A raw command of the ASCII protocol, on an idle descriptor: whatever memory is to be had and whatever
-- the network does, it returns, and the descriptor is idle again.
pub mc_ascii_execute_raw_command-KeepsIdle :
    (fd : ℕ) (raw_cmd : List ℕ) (wanted : Bool) (w : World)
    → IsIdle fd w
    → KeepsIdle fd (mc_ascii_execute_raw_command fd raw_cmd wanted) w
unfolding mc_ascii_execute_raw_command
mc_ascii_execute_raw_command-KeepsIdle fd raw_cmd wanted w at =
    elim (Bool-cases (ltb 0 (length raw_cmd))) [
      | inl some_bytes ↦
          rw (at.positive, some_bytes, if◌then◌else◌)
            (call_KeepsIdle fd (nothing_stored none) 0
              (λ response. mc_ascii_parse_write_response response wanted none)
              (λ response v. parse_write-Returns response wanted none v)
              (mc_ascii_build_core_from_le_words raw_cmd) w (build_raw-Returns raw_cmd) at)
      | inr empty ↦ rw (at.positive, empty, if◌then◌else◌) ((invalid_parameter, none), w, refl, at)
    ]

-- A read of a positive number of words or of bits of the ASCII protocol, on an idle descriptor, at an
-- address that is parsed: whatever memory is to be had and whatever the network does, it returns, and
-- the descriptor is idle again.
pub ascii_read_value-KeepsIdle :
    (is_bit : Bool) (fd : ℕ) (address : List ℕ) (count : ℕ) (before : Buffer) (a : AddressData)
    (w : World)
    → mc_analysis_address (some address) count ≡ parsed a
    → is_positive count ≡ true
    → IsIdle fd w
    → KeepsIdle fd (ascii_read_value is_bit fd (some address) count before) w
unfolding ascii_read_value analysed
ascii_read_value-KeepsIdle is_bit fd address count before a w e pos at =
    rw (at.positive, pos, if◌then◌else◌, e)
      (call_KeepsIdle fd (nothing_stored before) 22
        (λ response. mc_ascii_parse_read_response response is_bit before)
        (λ response v. parse_read-Returns response is_bit before v)
        (mc_ascii_build_read_core_command a is_bit) w (build_read-Returns a is_bit) at)

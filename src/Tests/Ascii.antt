-- ===== src/Tests/Ascii.antt =====
-- The ASCII protocol, on D100.
use melsec_mc_net.Prelude.{ℕ, ◌≡◌, refl, true, false, some, none, List, [], ◌∷◌, arith}
use melsec_mc_net.Words.{int2bytes}
use melsec_mc_net.Words.Scalar.{int32}
use melsec_mc_net.Words.LittleEndian.{le_bytes}
use melsec_mc_net.Address.{
  AddressData, mc_analysis_address, parsed, located, mc_convert_string_to_int, mc_create_data_type,
}
use melsec_mc_net.Machine.{World, success, arrive, failed, RecvEvent}
use melsec_mc_net.Command.{write_word_core_bytes}
use melsec_mc_net.Ascii.Digits.{numeral, number_of}
use melsec_mc_net.Ascii.Builders.{check_crc}
use melsec_mc_net.Ascii.Builders.CheckSum.{check_crc-eq}
use melsec_mc_net.Ascii.Command.{
  mc_ascii_build_read_core_command, mc_ascii_build_write_word_core_command,
}
use melsec_mc_net.Ascii.Command.Words.{words_text}
use melsec_mc_net.Ascii.Command.Core.{HasDigits, Asks, ascii_request, build_read-Asks}
use melsec_mc_net.Ascii.Command.Same.{SameCommand, build_write_word-SameCommand}
use melsec_mc_net.Ascii.Response.Frame.{AsciiResponse, HasFields, ascii_frame_of}
use melsec_mc_net.Ascii.Exchanges.{IsAsciiReady, AsciiRequested}
use melsec_mc_net.Ascii.Values.{ascii_read_value}
use melsec_mc_net.Ascii.Values.Safety.{ascii_read_value-KeepsIdle}
use melsec_mc_net.Ascii.Typed.{ascii_read_scalar, ascii_write_scalar}
use melsec_mc_net.Ascii.Calls.{ascii_read_scalar-value, ascii_write_scalar-Requested}
use melsec_mc_net.Transaction.{mc_send_and_receive_transaction}
use melsec_mc_net.Transaction.Returns.{IsIdle, mc_send_and_receive_transaction-returns}
use melsec_mc_net.Transaction.Idle.{KeepsIdle}
use melsec_mc_net.Ascii.Typed.{mc_ascii_read_string, mc_ascii_write_string}
use melsec_mc_net.Ascii.Strings.{mc_ascii_read_string-mc_ascii_write_string}
use melsec_mc_net.Client.{read_scalar}
use melsec_mc_net.Client.Exchanges.{Requested}
use melsec_mc_net.Command.Frame.{request}
use melsec_mc_net.Response.Frame.{frame_of}
use melsec_mc_net.Plc.{Memory, serve, serve_all, store, put, peek}
use melsec_mc_net.Plc.Ascii.{ascii_serve, words_of}
use melsec_mc_net.Plc.Ascii.Sessions.{ascii_write_scalar-reads}
use melsec_mc_net.Tests.Data.{
  four_bytes, in_two, world, world-idle, world-room, world-IsReady, d100, d100_data,
}

abbrev answer : List ℕ → AsciiResponse
answer text = record {
  start =
      b'D' ∷ b'0' ∷ b'0' ∷ b'0' ∷ b'0' ∷ b'0' ∷ b'F' ∷ b'F' ∷ b'0' ∷ b'3' ∷ b'F' ∷ b'F' ∷ b'0'
      ∷ b'0' ∷ [];
  end_code = 0;
  text = text;
}

-- 0x12345678 in words, the low one first.
abbrev number_text : List ℕ
number_text = b'5' ∷ b'6' ∷ b'7' ∷ b'8' ∷ b'1' ∷ b'2' ∷ b'3' ∷ b'4' ∷ []

number-HasFields : HasFields (answer number_text)
number-HasFields = record {
  start_length = refl;
  text_length = omega arith;
  code_range = omega arith;
}

empty-HasFields : HasFields (answer [])
empty-HasFields = record {
  start_length = refl;
  text_length = omega arith;
  code_range = omega arith;
}

ascii_ready : (events : List RecvEvent) → IsAsciiReady 3 (world events)
ascii_ready events = record {
  ready = world-IsReady events;
  network = omega arith;
  station = omega arith;
}

d100-HasDigits : (words : ℕ) → HasDigits (d100_data words) 0
d100-HasDigits words = record {
  positive = omega arith;
  at_most = omega arith;
  fits = omega arith;
  needed = λ h. absurd (omega arith);
}

-- A device number with seven digits.
abbrev far : AddressData
far = record (d100_data 1) { address_start = 1234567 }

far-HasDigits : HasDigits far 1
far-HasDigits = record {
  positive = omega arith;
  at_most = omega arith;
  fits = omega arith;
  needed = λ h. omega arith;
}

d100_parsed : (words : ℕ) → mc_analysis_address (some d100) words ≡ parsed (d100_data words)
unfolding mc_analysis_address located mc_convert_string_to_int mc_create_data_type
d100_parsed words = refl

abbrev number_world : World
number_world = world (in_two (ascii_frame_of (answer number_text)))

ascii_read_scalar-value_example :
    (v : World) × (ascii_read_scalar int32 2 4 3 (some d100) number_world
      ≡ some ((success, some 0x12345678), v))
    × AsciiRequested
        (Asks (d100_data 2) (ascii_request (d100_data 2) 0 0x0401 0 []) 20)
        []
        3
        number_world
        v
unfolding numeral words_text int2bytes
ascii_read_scalar-value_example =
    ascii_read_scalar-value 3 number_world
      (ascii_ready (in_two (ascii_frame_of (answer number_text)))) (answer number_text)
      number-HasFields [] refl d100 2 (d100_data 2) 0 (d100_parsed 2) (d100-HasDigits 2) refl int32
      4 0x12345678 (omega arith) refl refl (omega arith) (omega arith)

abbrev empty_world : World
empty_world = world (in_two (ascii_frame_of (answer [])))

ascii_write_scalar-Requested_example :
    (v : World) × (ascii_write_scalar int32 2 3 (some d100) 0x12345678 empty_world
      ≡ some (success, v))
    × AsciiRequested
        (Asks
          (d100_data 2)
          (ascii_request (d100_data 2) 0 0x1401 0 (words_text (le_bytes 4 0x12345678)))
          28)
        []
        3
        empty_world
        v
unfolding numeral
ascii_write_scalar-Requested_example =
    ascii_write_scalar-Requested 3 empty_world (ascii_ready (in_two (ascii_frame_of (answer []))))
      (answer []) empty-HasFields [] refl d100 2 (d100_data 2) 0 (d100_parsed 2) (d100-HasDigits 2)
      refl int32 0x12345678 (omega arith)

build_read-Asks_example :
    (core : List ℕ) × (mc_ascii_build_read_core_command far false (world [])
      ≡ some (some core, world []))
    × Asks far (ascii_request far 1 0x0401 0 []) 20 core
build_read-Asks_example = build_read-Asks far 1 far-HasDigits (world []) refl false

build_write_word-SameCommand_example :
    (core : List ℕ) × (mc_ascii_build_write_word_core_command
        (d100_data 1)
        (some (0x34 ∷ 0x12 ∷ []))
        (world [])
      ≡ some (some core, world []))
    × SameCommand (d100_data 1) (write_word_core_bytes (d100_data 1) (0x34 ∷ 0x12 ∷ [])) core
build_write_word-SameCommand_example =
    build_write_word-SameCommand (d100_data 1) (d100-HasDigits 1) (omega arith) (world []) refl
      (0x34 ∷ 0x12 ∷ []) (omega arith) refl (omega arith, (omega arith, tt)) refl

-- Memory is to be had once, and the connection fails within a header.
abbrev bad_world : World
bad_world = record (world (arrive 0xd0 (0 ∷ 0 ∷ []) ∷ failed ∷ [])) {
  mallocs = true ∷ true ∷ false ∷ [];
}

bad-IsIdle : IsIdle 3 bad_world
bad-IsIdle = record { positive = refl; threads = refl; idle = world-idle; room = world-room }

mc_send_and_receive_transaction-returns_example :
    KeepsIdle 3 (mc_send_and_receive_transaction 3 (some (1 ∷ 2 ∷ []))) bad_world
mc_send_and_receive_transaction-returns_example =
    mc_send_and_receive_transaction-returns 3 (some (1 ∷ 2 ∷ [])) bad_world bad-IsIdle

ascii_read_value-KeepsIdle_example :
    KeepsIdle 3 (ascii_read_value false 3 (some d100) 2 none) bad_world
ascii_read_value-KeepsIdle_example =
    ascii_read_value-KeepsIdle false 3 d100 2 none (d100_data 2) bad_world (d100_parsed 2) refl
      bad-IsIdle

check_crc-eq_example :
    check_crc (some (2 ∷ 1 ∷ 2 ∷ b'0' ∷ b'3' ∷ [])) (world []) ≡ some (false, world [])
check_crc-eq_example = check_crc-eq 2 (1 ∷ 2 ∷ []) b'0' b'3' (world []) refl

-- Four characters; the answer to the read has the same words.
abbrev text : List ℕ
text = 0x78 ∷ 0x56 ∷ 0x34 ∷ 0x12 ∷ []

mc_ascii_read_string-mc_ascii_write_string_example :
    ((v : World) × (mc_ascii_write_string 3 (some d100) 4 (some text) empty_world
        ≡ some (success, v))
      × AsciiRequested
          (Asks (d100_data 2) (ascii_request (d100_data 2) 0 0x1401 0 (words_text text)) 28)
          []
          3
          empty_world
          v)
    × ((v : World) × (mc_ascii_read_string 3 (some d100) 4 number_world
          ≡ some ((success, some (0x78 ∷ 0x56 ∷ 0x34 ∷ 0x12 ∷ 0 ∷ [])), v))
        × AsciiRequested
            (Asks (d100_data 2) (ascii_request (d100_data 2) 0 0x0401 0 []) 20)
            []
            3
            number_world
            v)
unfolding numeral words_text
mc_ascii_read_string-mc_ascii_write_string_example =
    mc_ascii_read_string-mc_ascii_write_string 3 empty_world number_world
      (ascii_ready (in_two (ascii_frame_of (answer []))))
      (ascii_ready (in_two (ascii_frame_of (answer number_text)))) (answer []) (answer number_text)
      empty-HasFields number-HasFields [] [] refl refl d100 (d100_data 2) 0 (d100-HasDigits 2) 4
      text (omega arith) (omega arith)
      (omega arith, (omega arith, (omega arith, (omega arith, tt)))) (omega arith) (d100_parsed 2)
      (omega arith) (omega arith) refl refl

-- A PLC that has D only, whose bytes are all zero.
abbrev d_code : List ℕ → ℕ
d_code device = 0xa8

abbrev empty_memory : Memory
empty_memory code place = 0

abbrev binary_world : World
binary_world = world (in_two (frame_of four_bytes))

ascii_write_scalar-reads_example :
    ((v : World) × (ascii_write_scalar int32 2 3 (some d100) 0x12345678 empty_world
        ≡ some (success, v))
      × AsciiRequested
          (Asks
            (d100_data 2)
            (ascii_request (d100_data 2) 0 0x1401 0 (words_text (le_bytes 4 0x12345678)))
            28)
          []
          3
          empty_world
          v)
    × ((v : World) × (ascii_read_scalar int32 2 4 3 (some d100) number_world
          ≡ some ((success, some 0x12345678), v))
        × AsciiRequested
            (Asks (d100_data 2) (ascii_request (d100_data 2) 0 0x0401 0 []) 20)
            []
            3
            number_world
            v)
    × ((v : World) × (read_scalar int32 2 4 3 (some d100) binary_world
          ≡ some ((success, some 0x12345678), v))
        × Requested (request (d100_data 2) 0x0401 0 2 []) [] 3 binary_world v)
unfolding numeral words_text int2bytes le_bytes serve serve_all store put peek ascii_serve words_of
    number_of
ascii_write_scalar-reads_example =
    ascii_write_scalar-reads d_code (d100_data 2) (d100-HasDigits 2) refl int32 0x12345678
      empty_memory d100 (d100_parsed 2) [] tt 3 3 empty_world number_world binary_world
      (ascii_ready (in_two (ascii_frame_of (answer []))))
      (ascii_ready (in_two (ascii_frame_of (answer number_text))))
      (world-IsReady (in_two (frame_of four_bytes))) [] [] [] refl refl refl 4 (omega arith)
      (omega arith) (omega arith) (omega arith) (omega arith)

-- The data of the two writes in sections 7 and 8 of docs/melsec_mc_bin_ascii协议api手册.md, 1234.5678 to
-- D140 and 12.375 to D130, as the library sends them. Section 4 there gives the same text for the
-- second; the sample frames have the low byte of each word first.
d140_text :
    words_text (0xad ∷ 0xfa ∷ 0x5c ∷ 0x6d ∷ 0x45 ∷ 0x4a ∷ 0x93 ∷ 0x40 ∷ [])
    ≡ b'F' ∷ b'A' ∷ b'A' ∷ b'D' ∷ b'6' ∷ b'D' ∷ b'5' ∷ b'C' ∷ b'4' ∷ b'A' ∷ b'4' ∷ b'5' ∷ b'4'
      ∷ b'0' ∷ b'9' ∷ b'3' ∷ []
unfolding words_text numeral
d140_text = refl

d130_text :
    words_text (0x00 ∷ 0x00 ∷ 0x46 ∷ 0x41 ∷ [])
    ≡ b'0' ∷ b'0' ∷ b'0' ∷ b'0' ∷ b'4' ∷ b'1' ∷ b'4' ∷ b'6' ∷ []
unfolding words_text numeral
d130_text = refl

-- ===== src/Tests/Calls.antt =====
-- Whole operations, on D100 and M5.
use melsec_mc_net.Prelude.{ℕ, ◌≡◌, refl, some, none, List, [], ◌∷◌, arith}
use melsec_mc_net.Words.{int2bytes}
use melsec_mc_net.Words.Scalar.{int32}
use melsec_mc_net.Words.LittleEndian.{le_bytes}
use melsec_mc_net.Address.{
  parsed, mc_analysis_address, located, mc_convert_string_to_int, mc_create_data_type,
}
use melsec_mc_net.Machine.{World, pure, Buffer, ErrorCode, success, arrive, shut, RecvEvent}
use melsec_mc_net.Socket.Receive.{incoming}
use melsec_mc_net.Command.{frame_bytes}
use melsec_mc_net.Command.Frame.{request}
use melsec_mc_net.Response.Frame.{frame_of}
use melsec_mc_net.Response.Read.{whole}
use melsec_mc_net.Transaction.{exchange, mc_send_and_receive_transaction}
use melsec_mc_net.Transaction.Session.{Exchanged, mc_send_and_receive_transaction-whole}
use melsec_mc_net.Transaction.Exchange.{framed, exchange-double_release}
use melsec_mc_net.Client.{
  read_scalar, write_scalar, mc_read_short, mc_read_ushort, mc_remote_run, mc_remote_stop,
  mc_remote_reset, mc_read_plc_type,
}
use melsec_mc_net.Client.Exchanges.{Requested}
use melsec_mc_net.Client.Scalars.{read_scalar-value, write_scalar-Requested}
use melsec_mc_net.Client.Control.{mc_remote-Exchanged}
use melsec_mc_net.Client.Errors.{mc_read_short-one_byte}
use melsec_mc_net.Client.{mc_read_string, mc_write_string, type_command}
use melsec_mc_net.Client.Strings.{read_scalar-short, mc_read_string-mc_write_string}
use melsec_mc_net.Client.PlcType.{mc_read_plc_type-Exchanged}
use melsec_mc_net.Plc.{Memory, serve, serve_all, store, put, peek}
use melsec_mc_net.Command.Request.{Request}
use melsec_mc_net.Prelude.{inl, inr}
use melsec_mc_net.Plc.Sessions.{read_scalar-write_scalar}
use melsec_mc_net.Client.Control.{Told}
use melsec_mc_net.Command.Control.{remote_run, remote_stop, remote_reset, type_read}
use melsec_mc_net.Machine.{invalid_parameter, parse_address_failed}
use melsec_mc_net.Client.Unknown.{no_device, read_scalar-unknown}
use melsec_mc_net.Tests.Data.{
  done, four_bytes, one_byte, done-IsWellFormed, four_bytes-IsWellFormed, one_byte-IsWellFormed,
  in_two, world, world-IsReady, d100, m5, d100_data, m5_data,
}

d100_parsed : (words : ℕ) → mc_analysis_address (some d100) words ≡ parsed (d100_data words)
unfolding mc_analysis_address located mc_convert_string_to_int mc_create_data_type
d100_parsed words = refl

m5_parsed : mc_analysis_address (some m5) 1 ≡ parsed m5_data
unfolding mc_analysis_address located mc_convert_string_to_int mc_create_data_type
m5_parsed = refl

abbrev read_world : World
read_world = world (in_two (frame_of four_bytes))

read_scalar-value_example :
    (v : World) × (read_scalar int32 2 4 3 (some d100) read_world
      ≡ some ((success, some 0x12345678), v))
    × Requested (request (d100_data 2) 0x0401 0 2 []) [] 3 read_world v
unfolding int2bytes
read_scalar-value_example =
    read_scalar-value 3 read_world (world-IsReady (in_two (frame_of four_bytes))) four_bytes
      four_bytes-IsWellFormed [] refl int32 d100 2 (d100_data 2) (d100_parsed 2) 4 0x12345678 refl
      (omega arith) refl refl (omega arith) (omega arith)

abbrev done_world : World
done_world = world (in_two (frame_of done))

write_scalar-Requested_example :
    (v : World) × (write_scalar int32 2 3 (some d100) 0x12345678 done_world ≡ some (success, v))
    × Requested
        (request (d100_data 2) 0x1401 0 2 (0x78 ∷ 0x56 ∷ 0x34 ∷ 0x12 ∷ []))
        []
        3
        done_world
        v
unfolding le_bytes
write_scalar-Requested_example =
    write_scalar-Requested 3 done_world (world-IsReady (in_two (frame_of done))) done
      done-IsWellFormed [] refl int32 d100 2 (d100_data 2) (d100_parsed 2) 0x12345678 (omega arith)

mc_send_and_receive_transaction-whole_example :
    (v : World) × (mc_send_and_receive_transaction 3 (some (1 ∷ 2 ∷ 3 ∷ [])) read_world
      ≡ some (whole four_bytes four_bytes-IsWellFormed, v))
    × Exchanged (λ later. incoming later ≡ []) (1 ∷ 2 ∷ 3 ∷ []) 3 read_world v
mc_send_and_receive_transaction-whole_example =
    mc_send_and_receive_transaction-whole 3 read_world
      (world-IsReady (in_two (frame_of four_bytes))) four_bytes four_bytes-IsWellFormed
      (1 ∷ 2 ∷ 3 ∷ []) [] (omega arith) (omega arith) refl

-- Two of the four bytes come before the PLC closes the connection.
abbrev cut_events : List RecvEvent
cut_events =
    arrive 0xd0 (0 ∷ 0 ∷ 0xff ∷ 0xff ∷ 3 ∷ 0 ∷ 6 ∷ 0 ∷ 0 ∷ 0 ∷ 0x78 ∷ 0x56 ∷ []) ∷ shut ∷ []

exchange-double_release_example :
    exchange 3
      (λ (c : ErrorCode). c)
      (λ (b : Buffer). pure success)
      (some (1 ∷ 2 ∷ []))
      (world cut_events)
    ≡ none
unfolding frame_bytes
exchange-double_release_example =
    exchange-double_release 3 (world cut_events) (world-IsReady cut_events) four_bytes
      four_bytes-IsWellFormed (1 ∷ 2 ∷ []) (omega arith) (λ (c : ErrorCode). c)
      (λ (b : Buffer). pure success) (0x78 ∷ 0x56 ∷ []) (omega arith) refl (omega arith)

abbrev byte_world : World
byte_world = world (in_two (frame_of one_byte))

mc_read_short-one_byte_example :
    (mc_read_short 3 (some d100) byte_world ≡ none)
    × ((v : World) × (mc_read_ushort 3 (some d100) byte_world ≡ some ((success, none), v)))
mc_read_short-one_byte_example =
    mc_read_short-one_byte 3 byte_world one_byte d100 (d100_data 1) [] 7
      (world-IsReady (in_two (frame_of one_byte))) one_byte-IsWellFormed (d100_parsed 1)
      (omega arith) refl refl refl

mc_remote-Exchanged_example :
    ((v : World) × (mc_remote_run 3 done_world ≡ some (success, v))
      × Told remote_run [] 3 done_world v)
    × ((v : World) × (mc_remote_stop 3 done_world ≡ some (success, v))
        × Told remote_stop [] 3 done_world v)
    × ((v : World) × (mc_remote_reset 3 done_world ≡ some (success, v))
        × Told remote_reset [] 3 done_world v)
mc_remote-Exchanged_example =
    mc_remote-Exchanged 3 done_world (world-IsReady (in_two (frame_of done))) done done-IsWellFormed
      [] refl (omega arith)

read_scalar-short_example :
    (v : World) × (read_scalar int32 2 4 3 (some d100) byte_world ≡ some ((success, none), v))
    × Requested (request (d100_data 2) 0x0401 0 2 []) [] 3 byte_world v
read_scalar-short_example =
    read_scalar-short 3 byte_world (world-IsReady (in_two (frame_of one_byte))) one_byte
      one_byte-IsWellFormed [] refl d100 (d100_data 2) int32 2 4 (d100_parsed 2) refl (omega arith)
      refl (omega arith)

-- Four characters; the answer to the read has the same bytes.
abbrev text : List ℕ
text = 0x78 ∷ 0x56 ∷ 0x34 ∷ 0x12 ∷ []

mc_read_string-mc_write_string_example :
    ((v : World) × (mc_write_string 3 (some d100) 4 (some text) done_world ≡ some (success, v))
      × Requested (request (d100_data 2) 0x1401 0 2 text) [] 3 done_world v)
    × ((v : World) × (mc_read_string 3 (some d100) 4 read_world ≡ some ((success, some text), v))
        × Requested (request (d100_data 2) 0x0401 0 2 []) [] 3 read_world v)
mc_read_string-mc_write_string_example =
    mc_read_string-mc_write_string 3 done_world read_world (world-IsReady (in_two (frame_of done)))
      (world-IsReady (in_two (frame_of four_bytes))) done four_bytes done-IsWellFormed
      four_bytes-IsWellFormed [] [] refl refl d100 (d100_data 2) 4 text (omega arith) (omega arith)
      (omega arith) (d100_parsed 2) (omega arith) (omega arith) refl refl

mc_read_plc_type-Exchanged_example :
    (v : World) × (mc_read_plc_type 3 read_world
      ≡ some ((success, some (0x78 ∷ 0x56 ∷ 0x34 ∷ 0x12 ∷ 0 ∷ [])), v))
    × Exchanged (λ later. incoming later ≡ []) (framed type_command read_world) 3 read_world v
    × Told type_read [] 3 read_world v
mc_read_plc_type-Exchanged_example =
    mc_read_plc_type-Exchanged 3 read_world (world-IsReady (in_two (frame_of four_bytes)))
      four_bytes four_bytes-IsWellFormed [] refl (omega arith)

-- A PLC whose bytes are all zero, and another request in between, for D102.
abbrev empty_memory : Memory
empty_memory code place = 0

abbrev neighbour : Request
neighbour = record {
  command = 0x1401;
  subcommand = 0;
  device_number = 102;
  device_code = 0xa8;
  points = 1;
  values = 9 ∷ 9 ∷ [];
}

read_scalar-write_scalar_example :
    ((v : World) × (write_scalar int32 2 3 (some d100) 0x12345678 done_world ≡ some (success, v))
      × Requested
          (request (d100_data 2) 0x1401 0 2 (0x78 ∷ 0x56 ∷ 0x34 ∷ 0x12 ∷ []))
          []
          3
          done_world
          v)
    × ((v : World) × (read_scalar int32 2 4 3 (some d100) read_world
          ≡ some ((success, some 0x12345678), v))
        × Requested (request (d100_data 2) 0x0401 0 2 []) [] 3 read_world v)
unfolding le_bytes serve serve_all store put peek
read_scalar-write_scalar_example =
    read_scalar-write_scalar int32 0x12345678 (d100_data 2) empty_memory 3 done_world read_world
      (world-IsReady (in_two (frame_of done))) (world-IsReady (in_two (frame_of four_bytes))) [] []
      (neighbour ∷ []) (inr (inl (omega arith)), tt) refl refl d100 (d100_parsed 2) 4 (omega arith)
      (omega arith) (omega arith) (omega arith)

-- `Q7`, which is no device.
abbrev q7 : List ℕ
q7 = b'Q' ∷ b'7' ∷ []

read_scalar-unknown_example :
    (read_scalar int32 2 4 3 none read_world ≡ some ((invalid_parameter, none), read_world))
    × (read_scalar int32 2 4 3 (some []) read_world
        ≡ some ((parse_address_failed, none), read_world))
    × ((v : World) × (read_scalar int32 2 4 3 (some q7) read_world
          ≡ some ((success, some 0x12345678), v))
        × Requested (no_device 2) [] 3 read_world v)
unfolding int2bytes
read_scalar-unknown_example =
    read_scalar-unknown 3 read_world (world-IsReady (in_two (frame_of four_bytes))) int32 2 4 refl
      four_bytes four_bytes-IsWellFormed [] refl b'Q' (b'7' ∷ []) (ground arith) 0x12345678
      (omega arith) refl refl (omega arith) (omega arith)

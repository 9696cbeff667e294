-- ===== src/Tests/Batch.antt =====
-- Batches on D100 and M5, and connections.
use melsec_mc_net.Prelude.{
  ℕ, ◌<◌, ◌≡◌, refl, true, false, some, none, List, [], ◌∷◌, arith, get_elem?, inr,
}
use melsec_mc_net.Words.{short2bytes}
use melsec_mc_net.Words.Scalar.{short}
use melsec_mc_net.Address.{
  mc_analysis_address, parsed, located, mc_convert_string_to_int, mc_create_data_type,
}
use melsec_mc_net.Machine.{World, success}
use melsec_mc_net.Command.{extract_bits}
use melsec_mc_net.Command.Bits.{arrives}
use melsec_mc_net.Command.Frame.{request}
use melsec_mc_net.Response.Frame.{frame_of}
use melsec_mc_net.Client.Exchanges.{Requested}
use melsec_mc_net.Batch.{read_batch, write_values, write_batch, mc_write_bool_batch}
use melsec_mc_net.Batch.Transfer.{read_batch-values}
use melsec_mc_net.Batch.Bools.{mc_write_bool_batch-Requested}
use melsec_mc_net.Connection.{mc_connect, mc_disconnect, mc_ascii_disconnect}
use melsec_mc_net.Connection.Steps.{addressed}
use melsec_mc_net.Connection.Opening.{mc_connect-port, mc_connect-fails, mc_disconnect-mc_connect}
use melsec_mc_net.Batch.{mc_read_bool_batch}
use melsec_mc_net.Batch.BitReads.{mc_read_bool_batch-values}
use melsec_mc_net.Plc.{Memory, serve, serve_all, store, put, peek}
use melsec_mc_net.Plc.Batches.{read_batch-write_batch}
use melsec_mc_net.Tests.Data.{
  one_bit, one_bit-IsWellFormed, done, four_bytes, done-IsWellFormed, four_bytes-IsWellFormed,
  in_two, world, world-IsReady, d100, m5, d100_data, m5_data,
}

d100_parsed : (words : ℕ) → mc_analysis_address (some d100) words ≡ parsed (d100_data words)
unfolding mc_analysis_address located mc_convert_string_to_int mc_create_data_type
d100_parsed words = refl

m5_parsed :
    (bits : ℕ) → mc_analysis_address (some m5) bits ≡ parsed (record m5_data { length = bits })
unfolding mc_analysis_address located mc_convert_string_to_int mc_create_data_type
m5_parsed bits = refl

abbrev numbers : List ℕ
numbers = 0x5678 ∷ 0x1234 ∷ []

abbrev read_world : World
read_world = world (in_two (frame_of four_bytes))

read_batch-values_example :
    (v : World) × (read_batch short 1 3 (some d100) 2 read_world
      ≡ some ((success, some numbers), v))
    × Requested (request (d100_data 2) 0x0401 0 2 []) [] 3 read_world v
unfolding write_values short2bytes
read_batch-values_example =
    read_batch-values 3 read_world (world-IsReady (in_two (frame_of four_bytes))) four_bytes
      four_bytes-IsWellFormed [] refl short d100 1 numbers (omega arith) (omega arith) (d100_data 2)
      (d100_parsed 2) refl (omega arith) refl refl (omega arith, (omega arith, tt))

abbrev write_world : World
write_world = world (in_two (frame_of done))

mc_write_bool_batch-Requested_example :
    (v : World) × (bytes : List ℕ) × (mc_write_bool_batch 3
        (some m5)
        4
        (some (true ∷ false ∷ true ∷ true ∷ []))
        write_world
      ≡ some (success, v))
    × Requested (request (record m5_data { length = 4 }) 0x1401 1 4 bytes) [] 3 write_world v
    × ((j : ℕ)
        → j < 4
        → get_elem? (extract_bits bytes) j ≡ some (arrives (true ∷ false ∷ true ∷ true ∷ []) 2 j))
mc_write_bool_batch-Requested_example =
    mc_write_bool_batch-Requested 3 write_world (world-IsReady (in_two (frame_of done))) done
      done-IsWellFormed [] refl m5 (record m5_data { length = 4 }) (true ∷ false ∷ true ∷ true ∷ [])
      (m5_parsed 4) refl (omega arith) (omega arith)

abbrev host : List ℕ
host = b'1' ∷ b'0' ∷ b'.' ∷ b'0' ∷ b'.' ∷ b'0' ∷ b'.' ∷ b'2' ∷ []

mc_connect-port_example :
    mc_connect (some host) 40000 1 2 (world []) ≡ some (none, addressed 1 2 (world []))
mc_connect-port_example = mc_connect-port host 40000 1 2 (world []) refl refl (inr (omega arith))

-- Descriptor 4 is open, and the next socket is 3.
abbrev dial_world : World
dial_world = record (world []) {
  dials = record { descriptor = some 3; answers = true } ∷ [];
  opened = 4 ∷ [];
}

mc_disconnect-mc_connect_example :
    (v : World) × (u : World) × (mc_connect (some host) 5000 1 2 dial_world ≡ some (some 3, v))
    × (v.opened ≡ 3 ∷ 4 ∷ [])
    × (v.network_address ≡ record { network_number = 1; station_number = 2 })
    × (mc_disconnect 3 v ≡ some (true, u))
    × (mc_ascii_disconnect 3 v ≡ some (true, u))
    × (u.opened ≡ 4 ∷ [])
mc_disconnect-mc_connect_example =
    mc_disconnect-mc_connect host 5000 1 2 dial_world refl refl
      (record { descriptor = some 3; answers = true }) [] refl (omega arith) (omega arith) 3 refl
      refl (λ e. absurd (omega (arith, e)), tt) refl refl

abbrev silent_world : World
silent_world = record (world []) { dials = record { descriptor = some 3; answers = false } ∷ [] }

mc_connect-fails_example :
    (v : World) × (mc_connect (some host) 5000 1 2 silent_world ≡ some (none, v))
    × (v.opened ≡ [])
    × (v.network_address ≡ record { network_number = 1; station_number = 2 })
mc_connect-fails_example =
    mc_connect-fails host 5000 1 2 silent_world refl refl
      (record { descriptor = some 3; answers = false }) [] refl (omega arith) (omega arith)
      (inr (3, refl, refl, tt, refl))

abbrev bit_world : World
bit_world = world (in_two (frame_of one_bit))

mc_read_bool_batch-values_example :
    (v : World) × (mc_read_bool_batch 3 (some m5) 2 bit_world
      ≡ some ((success, some (true ∷ false ∷ [])), v))
    × Requested (request m5_data 0x0401 1 2 []) [] 3 bit_world v
mc_read_bool_batch-values_example =
    mc_read_bool_batch-values 3 bit_world (world-IsReady (in_two (frame_of one_bit))) one_bit
      one_bit-IsWellFormed [] refl m5 (record m5_data { length = 2 }) (true ∷ false ∷ [])
      (m5_parsed 2) refl refl refl (omega arith)

-- A PLC whose bytes are all zero.
abbrev empty_memory : Memory
empty_memory code place = 0

read_batch-write_batch_example :
    ((v : World) × (write_batch short 1 3 (some d100) 2 (some numbers) write_world
        ≡ some (success, v))
      × Requested
          (request (d100_data 2) 0x1401 0 2 (0x78 ∷ 0x56 ∷ 0x34 ∷ 0x12 ∷ []))
          []
          3
          write_world
          v)
    × ((v : World) × (read_batch short 1 3 (some d100) 2 read_world
          ≡ some ((success, some numbers), v))
        × Requested (request (d100_data 2) 0x0401 0 2 []) [] 3 read_world v)
unfolding write_values short2bytes serve serve_all store put peek
read_batch-write_batch_example =
    read_batch-write_batch short 1 refl numbers (omega arith) (omega arith) (d100_data 2)
      empty_memory 3 write_world read_world (world-IsReady (in_two (frame_of done)))
      (world-IsReady (in_two (frame_of four_bytes))) [] [] [] tt refl refl d100 (d100_parsed 2)
      (omega arith, (omega arith, tt)) (omega arith) (omega arith)

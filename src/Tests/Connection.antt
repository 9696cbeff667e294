-- ===== src/Tests/Connection.antt =====
-- The socket, the tables and the parsers.
use melsec_mc_net.Prelude.{
  ℕ, zero, suc, ◌≡◌, ◌≢◌, refl, true, false, some, List, [], ◌∷◌, ◌++◌, arith, get_elem?,
  find_index?,
}
use mathlib.Core.Option.{some-injective}
use melsec_mc_net.Machine.{
  World, CommConfig, ConfigSlot, TxLock, success, error_failed, connection_closed, RecvEvent,
  arrive, shut, interrupted, accept, send_failed, setsockopt,
}
use melsec_mc_net.Socket.{mc_recv_exact, mc_try_send_msg}
use melsec_mc_net.Socket.Receive.{incoming, ending, mc_recv_exact-full, mc_recv_exact-short}
use melsec_mc_net.Socket.Send.{Tried, mc_try_send_msg-Tried}
use melsec_mc_net.Settings.{
  default_comm_config, add_connection_config, find_connection_config, mc_set_comm_config,
  mc_get_comm_config,
}
use melsec_mc_net.Settings.Laws.{mc_get_comm_config-set}
use melsec_mc_net.Locks.{mc_lock_fd_transaction}
use melsec_mc_net.Locks.Table.{mc_lock_full}
use melsec_mc_net.Response.{mc_read_response}
use melsec_mc_net.Response.Frame.{frame_of}
use melsec_mc_net.Response.Read.{whole, mc_read_response-whole}
use melsec_mc_net.Settings.{mc_remove_connection_config, config_of}
use melsec_mc_net.Settings.Removal.{OneSlot}
use melsec_mc_net.Settings.Reached.{unwritten, added, empty_slot, Table-removal}
use melsec_mc_net.Prelude.{set, replicate}
use melsec_mc_net.Settings.{max_connections}
use melsec_mc_net.Tests.Data.{four_bytes, four_bytes-IsWellFormed, in_two, taken, world}

-- Four bytes in two chunks, and the end of the connection.
abbrev chunks : List RecvEvent
chunks = arrive 1 [] ∷ interrupted ∷ arrive 2 (3 ∷ 4 ∷ []) ∷ shut ∷ []

mc_recv_exact-full_example :
    (later : List RecvEvent) × (mc_recv_exact 3 (world chunks)
      ≡ some ((success, 1 ∷ 2 ∷ 3 ∷ []), world later))
    × (incoming later ≡ 4 ∷ [])
    × (ending later ≡ connection_closed)
mc_recv_exact-full_example = mc_recv_exact-full 3 (world chunks) (omega arith)

mc_recv_exact-short_example :
    (later : List RecvEvent) × (mc_recv_exact 5 (world chunks)
      ≡ some ((connection_closed, 1 ∷ 2 ∷ 3 ∷ 4 ∷ []), world later))
mc_recv_exact-short_example = mc_recv_exact-short 5 (world chunks) (omega arith)

-- The first send takes one byte and fails, the second takes all.
abbrev flaky : World
flaky = record (world []) { sends = accept 0 ∷ send_failed ∷ accept 9 ∷ [] }

mc_try_send_msg-Tried_example :
    Tried (1 ∷ 2 ∷ 3 ∷ []) 3 flaky (mc_try_send_msg 3 (some (1 ∷ 2 ∷ 3 ∷ [])) flaky)
mc_try_send_msg-Tried_example = mc_try_send_msg-Tried 3 (1 ∷ 2 ∷ 3 ∷ []) flaky refl (omega arith)

all_taken :
    (j : ℕ) (s : TxLock) → get_elem? (taken 5 ∷ []) j ≡ some s → (s.in_use ≡ true) × (s.fd ≢ 3)
all_taken zero s e = ground (arith, some-injective _ _ e)
all_taken (suc j) s e = absurd cc

mc_lock_full_example :
    mc_lock_fd_transaction 3 (record (world []) { tx_locks = taken 5 ∷ [] })
    ≡ some (error_failed, record (world []) { tx_locks = taken 5 ∷ [] })
mc_lock_full_example = mc_lock_full 3 (record (world []) { tx_locks = taken 5 ∷ [] }) refl all_taken

abbrev comes : World
comes = world (in_two (frame_of four_bytes ++ 9 ∷ []))

mc_read_response-whole_example :
    (later : List RecvEvent) × (mc_read_response 3 comes
      ≡ some (whole four_bytes four_bytes-IsWellFormed, world later))
    × (incoming later ≡ 9 ∷ [])
mc_read_response-whole_example =
    mc_read_response-whole four_bytes four_bytes-IsWellFormed 3 (9 ∷ []) comes refl refl refl

abbrev patient : CommConfig
patient = record {
  send_timeout_ms = 9000;
  recv_timeout_ms = 9000;
  retry_count = 5;
  retry_interval_ms = 100;
}

abbrev slots : List ConfigSlot
slots =
    record { fd = 5; config = default_comm_config; in_use = true }
    ∷ record { fd = 3; config = default_comm_config; in_use = false }
    ∷ []

abbrev after_set : World
after_set = record (world []) { configs = record { fd = 3; config = patient; in_use = true } ∷ [] }

mc_get_comm_config-set_example :
    mc_get_comm_config 3 after_set ≡ some ((success, some patient), after_set)
unfolding mc_set_comm_config add_connection_config find_connection_config find_index? setsockopt
mc_get_comm_config-set_example =
    mc_get_comm_config-set 3 3 patient
      (record (world []) { configs = record { fd = 0; config = patient; in_use = false } ∷ [] })
      after_set refl refl

-- What the settings of descriptor 3 make of the empty table.
abbrev one_set : List ConfigSlot
one_set =
    set (replicate max_connections empty_slot) 0
      (record { fd = 3; config = patient; in_use = true })

Table-removal_example :
    OneSlot one_set × (config_of 3 (mc_remove_connection_config 3 one_set) ≡ default_comm_config)
unfolding add_connection_config find_connection_config find_index?
Table-removal_example = Table-removal (added 3 patient 0 unwritten refl) 3 3

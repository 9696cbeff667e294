-- ===== src/Settings.antt =====
-- melsec_mc_net/socket.c: the table of connection settings.
pub mod Laws
pub mod Removal
pub mod Reached
use melsec_mc_net.Prelude.{
  ℕ, ◌==◌, ◌&&◌, not, if◌then◌else◌, Bool, true, false, Option, none, some, List, [], ◌∷◌,
  get_elem?, set, find_index?,
}
use melsec_mc_net.Machine.{
  World, M, ◌>>=◌, ◌>>◌, pure, ErrorCode, success, error_failed, invalid_parameter, CommConfig,
  ConfigSlot, setsockopt,
}
use melsec_mc_net.Socket.{is_positive}

abbrev pub default_comm_config : CommConfig
default_comm_config = record {
  send_timeout_ms = 5000;
  recv_timeout_ms = 5000;
  retry_count = 3;
  retry_interval_ms = 500;
}

abbrev pub max_connections : ℕ
max_connections = 32

abbrev pub holds : ℕ → ConfigSlot → Bool
holds fd s = s.in_use && s.fd == fd

abbrev pub is_free : ConfigSlot → Bool
is_free s = not s.in_use

-- `none` is the result -1.
unfoldable pub find_connection_config : ℕ → List ConfigSlot → Option ℕ
unfolding find_index?
find_connection_config fd slots = find_index? (holds fd) slots

-- The settings of slot `index` are overwritten.
abbrev pub put_config : CommConfig → ℕ → List ConfigSlot → List ConfigSlot
put_config config index slots = elim (get_elem? slots index) [
  | none ↦ slots
  | some s ↦ set slots index (record s { config = config })
]

-- The table after `add_connection_config`, or `none` where it returns -1 and leaves the table.
unfoldable pub add_connection_config :
    ℕ → CommConfig → List ConfigSlot → Option (ℕ × List ConfigSlot)
add_connection_config fd config slots = elim (find_connection_config fd slots) [
  | some index ↦ some (index, put_config config index slots)
  | none ↦ elim (find_index? is_free slots) [
    | none ↦ none
    | some i ↦ some (i, set slots i (record { fd = fd; config = config; in_use = true }))
  ]
]

unfoldable pub mc_remove_connection_config : ℕ → List ConfigSlot → List ConfigSlot
mc_remove_connection_config fd slots = elim (find_connection_config fd slots) [
  | none ↦ slots
  | some index ↦ elim (get_elem? slots index) [
    | none ↦ slots
    | some s ↦ set slots index (record s { in_use = false })
  ]
]

-- The options that are set on the socket are the system's; what comes back is whether that worked.
unfoldable pub mc_set_comm_config : ℕ → CommConfig → M ErrorCode
mc_set_comm_config fd config w =
    if not (is_positive fd)
    then some (invalid_parameter, w)
    else elim (add_connection_config fd config w.configs) [
      | none ↦ some (error_failed, w)
      | some (index, slots) ↦
          (do
            send_ok ← setsockopt
            if not send_ok
                then pure error_failed
                else do recv_ok ← setsockopt; pure (if recv_ok then success else error_failed))
            (record w { configs = slots })
    ]

-- The settings that a lookup finds, or the default.
unfoldable pub config_of : ℕ → List ConfigSlot → CommConfig
config_of fd slots = elim (find_connection_config fd slots) [
  | none ↦ default_comm_config
  | some index ↦ elim (get_elem? slots index) [ none ↦ default_comm_config | some s ↦ s.config ]
]

-- `none` is a `*config` that is not written.
unfoldable pub mc_get_comm_config : ℕ → M (ErrorCode × Option CommConfig)
mc_get_comm_config fd w =
    if is_positive fd
    then some ((success, some (config_of fd w.configs)), w)
    else some ((invalid_parameter, none), w)

-- ===== src/Connection.antt =====
-- melsec_mc_net/melsec_mc_bin.c, melsec_mc_ascii.c and socket.c: connecting and disconnecting. Of the
-- system, `socket` and `connect` answer from a script; which descriptors are open is kept.
pub mod Steps
pub mod Opening
use melsec_mc_net.Prelude.{
  ℕ, ◌%◌, ◌^◌, ltb, ◌==◌, ◌&&◌, if◌then◌else◌, Bool, true, false, Option, none, some, List, [], ◌∷◌,
}
use melsec_mc_net.Machine.{
  World, M, ◌>>=◌, ◌>>◌, pure, CommConfig, Dial, setsockopt, ErrorCode, success,
}
use melsec_mc_net.Socket.{is_positive}
use melsec_mc_net.Client.{Text, given}
use melsec_mc_net.ThreadSafe.{mc_thread_safe_init, succeeded}
use melsec_mc_net.Settings.{default_comm_config, mc_set_comm_config, mc_remove_connection_config}

unfoldable pub next_dial : M Dial
next_dial w = elim w.dials [
  | [] ↦ some (record { descriptor = none; answers = false }, w)
  | ◌∷◌ dial later ↦ some (dial, record w { dials = later })
]

unfoldable pub open_descriptor : ℕ → M (Unit {0})
open_descriptor fd w = some (tt, record w { opened = fd ∷ w.opened })

-- A list without its elements that are equal to a number.
unfoldable pub without : ℕ → List ℕ → List ℕ
without fd [] = []
without fd (n ∷ fds) = let rest = without fd fds in if n == fd then rest else n ∷ rest

unfoldable pub mc_close_tcp_socket : ℕ → M (Unit {0})
mc_close_tcp_socket fd w =
    if is_positive fd
    then some (
      tt,
      record w { configs = mc_remove_connection_config fd w.configs; opened = without fd w.opened },
    )
    else some (tt, w)

-- The two timeouts are set, and then the settings kept; nothing depends on whether that works.
unfoldable pub configure : ℕ → CommConfig → M (Option ℕ)
configure fd config = do
  send_ok ← setsockopt
  recv_ok ← setsockopt
  code ← mc_set_comm_config fd config
  pure (some fd)

-- What follows `socket` and `connect`.
unfoldable pub dialled : CommConfig → Dial → M (Option ℕ)
dialled config dial = elim dial.descriptor [
  | none ↦ pure none
  | some fd ↦ (do
    open_descriptor fd
    elim dial.answers [
      | true ↦ configure fd config
      | false ↦ (do mc_close_tcp_socket fd; pure none)
    ])
]

-- `destPort` is the bit pattern of a `short`; `none` is the result -1.
unfoldable pub mc_open_tcp_client_socket_with_config2 : Text → ℕ → CommConfig → M (Option ℕ)
mc_open_tcp_client_socket_with_config2 dest_ip dest_port config =
    if given dest_ip && ltb 0 dest_port && ltb dest_port (2 ^ 15)
    then (do dial ← next_dial; dialled config dial)
    else pure none

unfoldable pub mc_open_tcp_client_socket : Text → ℕ → M (Option ℕ)
mc_open_tcp_client_socket dest_ip dest_port =
    mc_open_tcp_client_socket_with_config2 dest_ip dest_port default_comm_config

unfoldable pub mc_open_tcp_client_socket_with_config : Text → ℕ → CommConfig → M (Option ℕ)
mc_open_tcp_client_socket_with_config dest_ip dest_port config = do
  opening ← mc_open_tcp_client_socket dest_ip dest_port
  elim opening [
    | none ↦ pure none
    | some fd ↦
        if is_positive fd
        then (do
          code ← mc_set_comm_config fd config
          elim code [ success ↦ pure (some fd) | _ ↦ (do mc_close_tcp_socket fd; pure none) ])
        else pure (some fd)
  ]

-- The mutex of the library is made once.
unfoldable pub ensure_thread_safe : M Bool
ensure_thread_safe w =
    if w.thread_safe_initialized
    then some (true, w)
    else (do
      code ← mc_thread_safe_init
      λ v. some (succeeded code, record v { thread_safe_initialized = succeeded code }))
        w

unfoldable pub set_network_address : ℕ → ℕ → M (Unit {0})
set_network_address network_addr station_addr w = some (
  tt,
  record w {
    network_address = record { network_number = network_addr; station_number = station_addr };
  },
)

-- The two functions for the connection share this text; a `port` that is an `int` is passed as a `short`.
unfoldable pub mc_ascii_connect : Text → ℕ → ℕ → ℕ → M (Option ℕ)
mc_ascii_connect ip_addr port network_addr station_addr =
    if given ip_addr && is_positive port
    then (do
      ready ← ensure_thread_safe
      elim ready [
        | false ↦ pure none
        | true ↦ (do
          set_network_address network_addr station_addr
          mc_open_tcp_client_socket ip_addr (port % 2 ^ 16))
      ])
    else pure none

abbrev pub if_positive : Option ℕ → Option ℕ
if_positive none = none
if_positive (some fd) = if is_positive fd then some fd else none

-- Descriptor 0 counts as a failure.
unfoldable pub mc_connect : Text → ℕ → ℕ → ℕ → M (Option ℕ)
mc_connect ip_addr port network_addr station_addr = do
  opening ← mc_ascii_connect ip_addr port network_addr station_addr
  pure (if_positive opening)

-- Over the ASCII protocol.
unfoldable pub mc_ascii_disconnect : ℕ → M Bool
mc_ascii_disconnect fd =
    if is_positive fd then (do mc_close_tcp_socket fd; pure true) else pure false

unfoldable pub mc_disconnect : ℕ → M Bool
mc_disconnect fd = if is_positive fd then (do mc_close_tcp_socket fd; pure true) else pure false

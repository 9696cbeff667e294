-- ===== src/Machine.antt =====
-- The state that the library works on: its globals (typedef.h, socket.c, melsec_mc_bin.c), and the
-- outcomes of the calls that it makes of the system, in the order in which they come. `malloc`, `send`,
-- `recv`, `setsockopt` and the pthread functions answer from a script. A script that has run out means
-- that memory and locks are to be had, that options are set, that `send` and `recv` time out, and that
-- no socket is to be had.
pub mod Events
pub mod Monad
pub mod Returns
pub use Events.{RecvEvent, arrive, shut, interrupted, failed}
pub use Events.{SendEvent, accept, send_interrupted, send_failed}
pub use Events.{ErrorCode, success, error_failed, malloc_failed, invalid_parameter}
pub use Events.{parse_address_failed, build_core_cmd_failed, socket_send_failed}
pub use Events.{socket_recv_failed, response_header_failed, connection_closed, unknown_error}
pub use Monad.{World, NetworkAddress, CommConfig, ConfigSlot, TxLock, Dial, Buffer, buffer_length}
pub use Monad.{
  M, ◌>>=◌, ◌>>◌, pure, undefined, checked, >>=-eq_some, >>=-eq_none, malloc-eq_some, alloc-eq_some,
  pthread-returns, setsockopt-returns,
}
unfoldable pub use Monad.{malloc, alloc, pthread, setsockopt}

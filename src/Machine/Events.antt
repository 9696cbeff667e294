-- ===== src/Machine/Events.antt =====
-- The error codes of typedef.h, and the outcomes of `send` and `recv`.
use melsec_mc_net.Prelude.{ℕ, List}

-- `mc_error_code_e`
pub data ErrorCode : Type 0 where
  success error_failed malloc_failed invalid_parameter parse_address_failed : ErrorCode
  build_core_cmd_failed socket_send_failed socket_recv_failed : ErrorCode
  response_header_failed connection_closed unknown_error : ErrorCode

-- `arrive b bs`: at least one byte is there to be read. `shut`: the peer has closed the connection.
-- `interrupted`: EINTR. `failed`: any other error, the timeout among them.
pub data RecvEvent : Type 0 where
  arrive : ℕ → List ℕ → RecvEvent
  shut interrupted failed : RecvEvent

-- `accept k`: the system takes k + 1 bytes, or all that it is given if that is less.
pub data SendEvent : Type 0 where
  accept : ℕ → SendEvent
  send_interrupted send_failed : SendEvent

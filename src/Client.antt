-- ===== src/Client.antt =====
-- melsec_mc_net/melsec_mc_bin.c: the operations of the binary protocol. Each returns its code, and
-- beside it what it stores through its result pointer, where `none` stands for nothing stored.
-- A result pointer is never NULL here.
mod Values
mod Remote
mod Typed
pub mod Exchanges
pub mod Scalars
pub mod Strings
pub mod Booleans
pub mod Control
pub mod PlcType
pub mod Errors
pub mod Unknown
unfoldable pub use Values.{analysed, read_bool_value, read_address_data, read_word_value}
unfoldable pub use Values.{write_bool_value, write_address_data, write_word_value}
pub use Remote.{run_command, stop_command, reset_command, type_command}
pub use Values.{Text, given, nothing_stored, the_code}
pub use Typed.{first_is_set, even_up}
unfoldable pub use Typed.{decoded}
unfoldable pub use Values.{parse_code, parse_bits}
unfoldable pub use Remote.{
  execute, mc_remote_run, mc_remote_stop, mc_remote_reset, mc_read_plc_type,
}
unfoldable pub use Typed.{mc_read_bool, read_scalar, mc_read_short, mc_read_ushort, mc_read_int32}
unfoldable pub use Typed.{
  mc_read_uint32, mc_read_int64, mc_read_uint64, mc_read_float, mc_read_double,
}
unfoldable pub use Typed.{
  mc_read_string, mc_write_bool, write_scalar, mc_write_short, mc_write_ushort,
}
unfoldable pub use Typed.{mc_write_int32, mc_write_uint32, mc_write_int64, mc_write_uint64}
unfoldable pub use Typed.{mc_write_float, mc_write_double, mc_write_string}

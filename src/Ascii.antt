-- ===== src/Ascii.antt =====
-- melsec_mc_net/melsec_mc_ascii.c: the ASCII protocol. Its file has a network address and a table of
-- locks of its own: here they are the fields of `World`, which is that of a program that speaks one of
-- the two protocols.
pub mod Digits
pub mod Hex
pub mod Builders
pub mod Command
pub mod Request
pub mod Response
pub mod Values
pub mod Exchanges
pub mod Typed
pub mod Requests
pub mod Calls
pub mod Strings
pub mod Booleans

-- ===== src/Lib.antt =====
-- A model of melsec_mc_net, a C library that reads and writes the devices of a Mitsubishi PLC by the
-- MC protocol (3E frames, binary or ASCII) over TCP, with the theorems about it.
--
-- A call such as `mc_read_int32(fd, "D100", &val)` goes through these parts. The address is parsed
-- (melsec_mc_net/melsec_mc_comm.c). A core command is built from it (melsec_mc_net/melsec_helper.c) and
-- packed into a frame with the network address. A transaction takes the lock of the descriptor, sends
-- the frame with up to `retry_count` + 1 rounds of three tries each, reads the response, first its 11
-- bytes of header and then what the length field says, and gives the lock back
-- (melsec_mc_net/melsec_mc_bin.c, melsec_mc_net/socket.c). The response is parsed, and its data are
-- converted to a number (melsec_mc_net/utill.c). The ASCII protocol (melsec_mc_net/melsec_mc_ascii.c) goes
-- through the same parts, with a frame of characters and a response and parsers of its own. The batch
-- functions (melsec_mc_net/melsec_mc_bin_batch.c) stand on the same reads and writes of addresses.
--
-- The files, and the code that each models:
--   Prelude: lists, Boolean tests and bit operations; Prelude/Find: the search of a table.
--   Words: melsec_mc_net/utill.c, the sixteen conversions; Words/Scalar: the eight types as one family;
--     Words/LittleEndian: the numbers that bytes stand for, the specification; Words/Itoa: `itoa`.
--   Address: melsec_mc_net/melsec_mc_comm.c, `mc_analysis_address` and what it calls; Address/Strtol: the
--     function of the C library; Address/Devices: the devices as a table, the specification.
--   Machine: the state and the actions on it; Machine/Returns: actions that return whatever memory is to
--     be had and whatever is received.
--   ThreadSafe: melsec_mc_net/thread_safe.c, the functions on mutexes.
--   Command: `build_read_core_command`, `build_write_word_core_command`,
--     `build_write_bit_core_command` and `trans_bool_array_to_byte_data` of
--     melsec_mc_net/melsec_helper.c, `pack_mc_command` and `extract_actual_bool_data` of
--     melsec_mc_net/melsec_mc_bin.c; Command/Request and
--     Command/Control: what a PLC reads in a frame, the specification.
--   Socket: `mc_write_msg`, `mc_try_send_msg`, `mc_recv_exact` and `mc_read_msg`.
--   Settings: the table of connection settings of melsec_mc_net/socket.c.
--   Locks: the table of transaction locks of melsec_mc_net/melsec_mc_bin.c.
--   Threads: the transaction locks in several threads. A state has the table, whether
--     `g_connection_mutex` is held, and where each thread stands; a step of one thread is a lock or an
--     unlock of a mutex, or a loop over the table under `g_connection_mutex`, and what is not decided
--     there, such as the outcome of `mc_mutex_init`, is an argument of the step. Threads/Table and
--     Threads/Invariant: what every step keeps; Threads/Safety, Threads/Owners and Threads/Progress: what
--     follows; Threads/Alone: the steps of one thread are the calls of Locks.
--   Response: the two parsers of melsec_mc_net/melsec_helper.c, and `mc_read_response`;
--     Response/Frame: a response by the manual, the specification.
--   Transaction: `mc_send_and_receive_transaction`, and the exchange that the functions of
--     melsec_mc_net/melsec_mc_bin.c make around it. The text of the transaction is over the function that
--     reads the response, since it stands in the file of each protocol.
--   Client: `read_bool_value` to `write_address_data`, the remote control, and all `mc_read_…` and
--     `mc_write_…` functions of melsec_mc_net/melsec_mc_bin.c.
--   Ascii: melsec_mc_net/melsec_mc_ascii.c. Ascii/Hex: characters for bytes; Ascii/Command: the core
--     commands and the frame; Ascii/Response: the response and its parsers; Ascii/Values:
--     `read_bool_value` to `write_word_value` and the raw commands; Ascii/Typed: the functions for the
--     caller. Ascii/Builders: the ASCII builders and the check sum of melsec_mc_net/melsec_helper.c.
--     Ascii/Digits and Ascii/Request: the digits of a number, and what a PLC reads in a frame of
--     characters, the specification.
--   Batch: melsec_mc_net/melsec_mc_bin_batch.c.
--   Connection: `mc_connect`, `mc_ascii_connect`, `mc_disconnect`, `mc_ascii_disconnect` and the opening
--     and closing of sockets.
--   ErrorTexts: the texts of the error codes, melsec_mc_net/error_handler.c.
--   Plc: a PLC with a memory that serves the requests, the specification of what the library talks to;
--     Plc/Stored: what it answers; Plc/Sessions and Plc/Batches: writes that are read again; Plc/Ascii:
--     the same PLC over the ASCII protocol.
--   Tests: runs at concrete inputs.
--
-- The code is a state monad on `World` with undefined behaviour as `none`: the globals of the library,
-- and scripts of the outcomes of `malloc`, `send`, `recv`, `setsockopt`, `socket` with `connect`, and
-- the pthread functions, in the order of the calls. A number is its bit pattern in ℕ, with each
-- wrap-around written out; a `float` or `double` is the pattern that the code moves. A pointer is an
-- option, and `response->data` has a third state, that of memory that was released. The loops are
-- structural, over the script, over what is left to be read or sent, or over the tries that are left.
-- Only the printing of numbers runs on fuel: ten digits for a 32-bit number in base 10 or 16, and 64
-- for a 64-bit number in any base, are enough.
--
-- All but Threads is sequential: the mutex of a descriptor is held or not, and to lock it while it is
-- held, which would never return, is undefined; the short sections under `g_connection_mutex` are left
-- out. In Threads these sections are steps, a lock waits while the mutex is held, and locks and unlocks
-- succeed. The files of the two protocols each have a network address and a table of locks of their own:
-- the one of the model is that of a program that speaks one of them. Result pointers are not NULL.
-- `long` has 64 bits, as on Linux. Log output, sleeps and the values of the socket options have no
-- effect here. Memory that is released is followed only where the code releases it twice, in a
-- response.
--
-- The manual that the comments name is that of the MC protocol. Where the documents of the repository
-- and the code differ, the code is modelled. docs/melsec_mc_bin_ascii协议api手册.md
-- says in section 4 that the ASCII protocol sends the high byte of each word first, as the code does,
-- but its sample frames of writes in sections 5, 7 and 8 have the low byte first; the binary sample of
-- section 7 has 22 in its length field, where 20 bytes follow; its list of functions calls
-- `mc_remote_run` Stop and `mc_remote_stop` Run; and its table of devices gives `S` for the coil of the
-- accumulative timer, which is `SC` in the code and in README.md, while `S` is the step relay. A request
-- carries the low 24 bits of the device number and the low 16 bits of the number of points; the code
-- does not check that they are all.
--
-- Not modelled: `tinet_ntoa`, which nothing calls, and `mc_log_error`
-- (melsec_mc_net/error_handler.c), which prints; the start of the network on Windows
-- (melsec_mc_net/network_init.c); the example program (melsec_mc_net/main.c). Where the source has
-- code for Windows and for other systems, the latter is modelled.
pub mod Prelude
pub mod Words
pub mod Address
pub mod Machine
pub mod ThreadSafe
pub mod ErrorTexts
pub mod Command
pub mod Socket
pub mod Settings
pub mod Locks
pub mod Response
pub mod Threads
pub mod Transaction
pub mod Client
pub mod Ascii
pub mod Plc
pub mod Batch
pub mod Connection
pub mod Tests

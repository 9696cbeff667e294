-- ===== src/Tests.antt =====
-- Runs of the code at concrete inputs.
mod Data
mod Wire
mod Connection
mod Calls
mod Ascii
mod Batch
mod Threads

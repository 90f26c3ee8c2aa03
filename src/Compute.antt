-- ===== src/Compute.antt =====
-- compute.c: the worker that tests numbers.
pub mod Perfect
pub mod Claim
pub mod Pipe
pub mod Sock
pub mod Table
pub mod Lock
pub mod Slots
pub mod Main
pub mod Tests

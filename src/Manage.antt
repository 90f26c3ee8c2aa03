-- ===== src/Manage.antt =====
-- manage.c: the server that hands out the work and keeps the results.
pub mod Sock
pub mod Spawn
pub mod Pipe
pub mod Files
pub mod Main

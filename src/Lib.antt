-- ===== src/Lib.antt =====
-- A model of perfnum: programs that search for perfect numbers together, over pipes, sockets or
-- shared memory. manage hands out work and collects results, compute tests numbers, and report shows
-- what has been found.
--
-- How the parts interact. In socket mode, workers and at most one report are clients of manage. A
-- worker sends a done packet and gets a range of 1000 numbers, or a refusal when the limit has been
-- passed; it sends each perfect number back, and manage passes it on to the report. In pipe mode,
-- manage starts its workers itself, each on one range, reads their packets from one pipe and relays
-- them to the report's fifo. In shared memory mode, manage only makes an object; workers claim
-- numbers in its bitmap under a semaphore, and report reads it.
--
-- The files, and the code that each is about:
--   Prelude and its children: names from the libraries, signed integers, lists over native numbers.
--   Packet: packets.h and packets.c. A packet is its identifier and two words. read() is an input
--     that hands over a whole packet, a part of one, the end of the stream or an error.
--   Decimal: snprintf with "%d" and atoi of the C library, as far as the programs use them.
--   Shmem: the constants and the bit macros of shmem.h. Shmem/Scan: next_test of report.c.
--     Shmem/Object: shmem_init and the killing loop of shmem_cleanup (manage.c), shmem_load (shmem.c).
--     Shmem/Shutdown: shmem_kill of report.c, the wait of main and shmem_cleanup of manage.c.
--   Compute/Perfect: is_perfect_number. Compute/Claim: next_test of compute.c, one access to shared
--     memory per step, for any number of workers. Compute/Table: shmem_loop and shmem_report.
--     Compute/Lock: shmem_report, and Compute/Slots: the slots of the process list, one access to
--     shared memory per step, for any number of workers.
--     Compute/Pipe: pipe_loop and pipe_report. Compute/Sock: sock_loop and sock_report. Compute/Main:
--     the choice of the mode in main.
--   Manage/Sock: struct sock_res and sock_handle_packet. Manage/Sock/Accept: accept_client, and the
--     loss of a client. Manage/Sock/Loop: sock_init, sock_report and sock_cleanup.
--     Manage/Sock/Trace: the server's events in any order. Manage/Sock/Events: the same with the
--     reads and the descriptors that they come from.
--   Manage/Spawn: spawn_computes, in the parent and in a child. Manage/Pipe: pipe_report,
--     collect_computes and pipe_cleanup. Manage/Files: pipe_init's pid file and fifo, and main where
--     pipe_init fails. Manage/Main: the choice of the mode in main.
--   Report: pipe_report, sock_report, sock_init and sock_kill of report.c. Report/Shared: its
--     shmem_report. Report/Chain: pipe mode from the workers' packets to the printed lines.
--     Report/Session: the report beside the socket server. Report/Pid: load_pid_file, pipe_init and
--     pipe_kill. Report/Main: main, check_kill, and sock_connect of sock.c.
--   Network: socket mode as a whole. Its events are a packet that the server handles, a step of a
--     client's program, and clients that come and leave, in any order. Network/Worker compares the
--     client's steps with sock_loop. Network/Room, with Network/Copies, is about the room for results.
--     Network/Termination weighs what is left to do; Network/Finish is about runs in which no signal
--     and no new client comes.
--   Shared: shared memory mode as a whole, with the steps of Compute/Claim and Compute/Lock under the
--     loop of shmem_loop.
--
-- State and errors. A struct is a record, and each function of the code is one of the same name that
-- returns the new state with the packets sent. `none` stands for a write outside an array or a failed
-- assertion, and in shmem_loop also for a wait for ever. A caught signal is an input: whether exit_status is set at a given look at it. Loops that
-- wait for the outside run over a list of what each round meets, and the results say whether the loop
-- has ended or the list has. Loops over numbers and arrays are given exactly the rounds that the code
-- makes, so that no fuel runs out.
--
-- Numbers. The array of divisors has 10000 cells, and its sum wraps around at 2 ^ 32. Statements on
-- is_perfect_number are for numbers up to 25000000, whose divisors fit: at most 5000 of them are up to
-- 5000, and at most 5000 are above. Quotients of doubles are those of 32-bit integers, which doubles
-- hold exactly. The counts of a process and the size of the shared object are
-- far below 2 ^ 31 for every limit that the bitmap is made for, and are not wrapped. The server's
-- highest_assigned is a natural number; an int holds it for limits up to 2147483000, for which the
-- model is made. atoi is for texts whose number an int holds.
--
-- Not modelled: messages and usage texts, signal handlers, the making of sockets, pipes and fifos and
-- the mapping of shared memory, which are calls of the system. The packets of the network are
-- neither lost nor cut; a read of a part of a packet is an input of the server's loop in Manage/Sock.
-- next_test of compute.c runs on behind the bitmap once all numbers are claimed, and sets bits of
-- perfect_numbers_sem: Compute/Lock and Shared are about the time before that, and Shmem/Scan about the
-- overrun. Compute/Slots is about the time before shmem_cleanup clears the slots.
pub mod Prelude
pub mod Packet
pub mod Decimal
pub mod Shmem
pub mod Compute
pub mod Manage
pub mod Report
pub mod Network
pub mod Shared

-- ===== src/Report.antt =====
-- report.c: the loops of pipe_report and sock_report, sock_init and sock_kill.
pub mod Listen
pub mod Chain
pub mod Session
pub mod Pid
pub mod Main
pub mod Shared
pub mod Tests
use perfnum.Prelude.{
  ℕ, ℤ, pos, minus_one, ◌==ℤ◌, ltb_int, Bool, true, false, List, [], ◌∷◌, ◌++◌, if◌then◌else◌,
}
use perfnum.Packet.{
  PacketId, null, done, closed, kill, range, perf_num, notify, accept, refuse, unknown, Packet,
  Read, get_packet, pid_server, Sent, send_packet,
}

-- A line that the program prints.
pub data Line : Type 0 where
  number : ℤ → Line  -- "%d\n"
  complete : Line  -- "Computation complete"
  manage_down : Line  -- "Manage was shut down before execution could complete"
  compute_down : Line  -- "A compute process exited prematurely. ..."
  invalid : PacketId → Line  -- "Invalid packet: ..."
  unrecognized : PacketId → Line  -- "Unrecognized packet: ..."

-- What one round of a loop meets: a caught signal, and what read() does.
pub record Look : Type 0 where
  pub caught : Bool
  pub read : Read

-- case PACKETID_CLOSED: the line, and whether `done` is set.
unfoldable pub on_closed : ℤ → Packet → Line × Bool
on_closed manage p = if p.first ==ℤ manage then (manage_down, true) else (compute_down, false)

-- The switch of pipe_report, on the packet's identifier.
unfoldable pub pipe_packet : ℤ → PacketId → Packet → Line × Bool
unfolding on_closed
pipe_packet manage perf_num p = (number p.first, false)
pipe_packet manage done p = (complete, true)
pipe_packet manage closed p = on_closed manage p
pipe_packet manage null p = (invalid null, false)
pipe_packet manage range p = (invalid range, false)
pipe_packet manage i p = (unrecognized i, false)

-- The switch of sock_report.
unfoldable pub sock_packet : PacketId → Packet → Line × Bool
unfolding on_closed
sock_packet perf_num p = (number p.first, false)
sock_packet done p = (complete, true)
sock_packet closed p = on_closed pid_server p
sock_packet null p = (invalid null, false)
sock_packet range p = (invalid range, false)
sock_packet notify p = (invalid notify, false)
sock_packet i p = (unrecognized i, false)

-- Whether the loop has ended, or only the list of rounds has, and the lines printed.
pub record Heard : Type 0 where
  pub ended : Bool
  pub lines : List Line

-- The loop of both functions, with the value of `done`, for the switch `handle`.
unfoldable pub listen : (PacketId → Packet → Line × Bool) → List Look → Bool → Heard
listen handle [] finished = record { ended = finished; lines = [] }
listen handle (l ∷ ls) finished =
    let (bytes_read, p) = get_packet l.read in
    let (line, final) = handle p.id p in
    let rest = listen handle ls final in
    let same = listen handle ls false in
    if finished
    then record { ended = true; lines = [] }
    else if l.caught
    then record { ended = true; lines = [] }
    else if ltb_int (pos 0) bytes_read
    then record { ended = rest.ended; lines = line ∷ rest.lines }
    else same

unfoldable pub pipe_report : ℤ → List Look → Heard
unfolding listen pipe_packet
pipe_report manage ls = listen (pipe_packet manage) ls false

unfoldable pub sock_report : List Look → Heard
unfolding listen sock_packet
sock_report ls = listen sock_packet ls false

-- The return value of sock_init, what it has sent, and the descriptors closed.
pub record Joined : Type 0 where
  pub result : ℤ
  pub sent : List Sent
  pub closed_fds : List ℤ

-- The tests of sock_init on the packet that the server answers.
unfoldable pub answered : ℤ → PacketId → List Sent → Joined
answered fd accept out = record { result = fd; sent = out; closed_fds = [] }
answered fd _ out = record { result = minus_one; sent = out; closed_fds = fd ∷ [] }

-- sock_init behind sock_connect, which has returned fd. `local` is the uninitialised packet.
unfoldable pub sock_init : ℤ → Packet → Read → Joined
unfolding answered
sock_init fd local r =
    if fd ==ℤ minus_one
    then record { result = minus_one; sent = []; closed_fds = [] }
    else answered fd (get_packet r).1.id (send_packet fd (record local { id = notify }))

-- The packet of sock_kill.
unfoldable pub sock_kill : ℤ → Packet → List Sent
sock_kill fd local = send_packet fd (record local { id = kill })

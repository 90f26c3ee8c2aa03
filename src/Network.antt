-- ===== src/Network.antt =====
-- Socket mode as a whole: the server of manage.c, workers that run sock_loop of compute.c, a report,
-- and the packets on the way between them. One event is one packet or one number tested.
pub mod Count
pub mod Conserve
pub mod Balance
pub mod Complete
pub mod Progress
pub mod Seats
pub mod Worker
pub mod All
pub mod Weights
pub mod Plain
pub mod Orderly
pub mod Copies
pub mod Room
pub mod Termination
pub mod Finish
pub mod Tests
use perfnum.Prelude.{
  ℕ, zero, suc, ◌+◌, ◌≤◌, ◌<◌, ◌≡◌, ◌≢◌, ◌⊎◌, ℤ, pos, ◌==ℤ◌, Bool, true, false, some, List, [], ◌∷◌,
  ◌++◌, map, get_elem?, set, leb, ◌&&◌, if◌then◌else◌,
}
use perfnum.Packet.{
  PacketId, null, done, closed, kill, range, perf_num, notify, accept, refuse, unknown, Packet,
  pid_client, Sent,
}
use perfnum.Compute.Perfect.{is_perfect_number}
use perfnum.Manage.Sock.{SockRes, Reply, sock_handle_packet}
use perfnum.Manage.Sock.Accept.{Accepted, accept_client, disconnect}
use perfnum.Manage.Sock.Trace.{IsClient}

-- Where a client's program stands. A worker is at the top of the loop of sock_loop, in get_packet,
-- or at number i of a range that ends at `stop`; a report is in sock_init or in the loop of
-- sock_report.
pub data Phase : Type 0 where
  asking : Phase
  waiting : Phase
  testing : (i stop : ℕ) → Phase
  registering : Phase
  listening : Phase
  finished : Phase

-- A connection: the descriptor and the index that the server has for it, the client's program, and
-- the packets on the way.
pub record Conn : Type 0 where
  pub fd : ℤ
  pub slot : ℕ
  pub phase : Phase
  pub to_server : List Packet
  pub to_client : List Packet

-- The range of a packet, if it is one.
abbrev pub range_of : PacketId → Packet → List (ℤ × ℤ)
range_of range p = (p.first, p.second) ∷ []
range_of _ p = []

abbrev pub ranges_in : List Packet → List (ℤ × ℤ)
ranges_in [] = []
ranges_in (p ∷ ps) = range_of p.id p ++ ranges_in ps

abbrev pub with_done : Packet → Packet
with_done p = record p { id = done }

-- An answer that sock_loop passes over.
abbrev pub passed_over : PacketId → Bool
passed_over closed = false
passed_over refuse = false
passed_over range = false
passed_over _ = true

-- One step of a client's program, and the ranges that it gives up. `p` is what the packet variable
-- held before.
pub data Move (c : Conn) : Conn → List (ℤ × ℤ) → Type 0 where
  ask :
      (p : Packet)
      → c.phase ≡ asking
      → Move c (record c { phase = waiting; to_server = c.to_server ++ with_done p ∷ [] }) []
  take_range :
      {p : Packet} {ps : List Packet} {a b : ℕ}
      → c.phase ≡ waiting
      → c.to_client ≡ p ∷ ps
      → p.id ≡ range
      → p.first ≡ pos a
      → p.second ≡ pos b
      → Move c (record c { phase = testing a b; to_client = ps }) []
  told_closed :
      {p : Packet} {ps : List Packet}
      → c.phase ≡ waiting
      → c.to_client ≡ p ∷ ps
      → p.id ≡ closed
      → Move c (record c { phase = finished; to_client = ps }) []
  refused :
      {p : Packet} {ps : List Packet}
      → c.phase ≡ waiting
      → c.to_client ≡ p ∷ ps
      → p.id ≡ refuse
      → Move c (record c { phase = finished; to_client = ps }) []
  pass_over :
      {p : Packet} {ps : List Packet}
      → c.phase ≡ waiting
      → c.to_client ≡ p ∷ ps
      → passed_over p.id ≡ true
      → Move c (record c { phase = asking; to_client = ps }) []
  test_perfect :
      {i stop : ℕ} (p : Packet)
      → c.phase ≡ testing i stop
      → i ≤ stop
      → is_perfect_number i ≡ some true
      → Move c
          (record c {
            phase = testing (suc i) stop;
            to_server = c.to_server ++ record p { id = perf_num; first = pos i } ∷ [];
          })
          []
  test_other :
      {i stop : ℕ}
      → c.phase ≡ testing i stop
      → i ≤ stop
      → is_perfect_number i ≡ some false
      → Move c (record c { phase = testing (suc i) stop }) []
  range_over :
      {i stop : ℕ} → c.phase ≡ testing i stop → stop < i → Move c (record c { phase = asking }) []
  -- a signal is seen at the top of the loop, during get_packet, or in the loop over the range
  quit_asking : c.phase ≡ asking → Move c (record c { phase = finished }) []
  quit_waiting : c.phase ≡ waiting → Move c (record c { phase = finished }) []
  quit_testing :
      {i stop : ℕ} (p : Packet)
      → c.phase ≡ testing i stop
      → i ≤ stop
      → Move c
          (record c {
            phase = finished;
            to_server = c.to_server ++ record p { id = closed; first = pid_client } ∷ [];
          })
          ((pos i, pos stop) ∷ [])
  -- the report
  register :
      (p : Packet)
      → c.phase ≡ registering
      → Move c
          (record c { phase = listening; to_server = c.to_server ++ record p { id = notify } ∷ [] })
          []
  hear :
      {p : Packet} {ps : List Packet}
      → c.phase ≡ listening
      → c.to_client ≡ p ∷ ps
      → Move c (record c { to_client = ps }) (range_of p.id p)
  quit_listening : c.phase ≡ listening → Move c (record c { phase = finished }) []

-- send_packet: the packet joins what is on the way to the client with that descriptor.
abbrev pub push : Sent → Conn → Conn
push s c = if c.fd ==ℤ s.fd then record c { to_client = c.to_client ++ s.packet ∷ [] } else c

abbrev pub deliver : List Sent → List Conn → List Conn
deliver [] cs = cs
deliver (s ∷ ss) cs = deliver ss (map (push s) cs)

abbrev pub remove : List Conn → ℕ → List Conn
remove [] j = []
remove (c ∷ cs) zero = cs
remove (c ∷ cs) (suc j) = c ∷ remove cs j

-- The server, the connections, and the ranges that clients have given up; the last are not in the
-- program.
pub record Net : Type 0 where
  pub server : SockRes
  pub conns : List Conn
  pub given_up : List (ℤ × ℤ)

abbrev pub new_conn : ℤ → ℕ → Phase → Conn
new_conn fd slot phase = record {
  fd = fd;
  slot = slot;
  phase = phase;
  to_server = [];
  to_client = [];
}

-- One event. The descriptor that accept() returns is not in use, and a new client is a worker or a
-- report. A client that has finished is taken off by the server when its packets have been read.
pub data Step (n : Net) : Net → List Sent → Type 0 where
  serve :
      (j : ℕ) {c : Conn} {p : Packet} {ps : List Packet} (outbound : Packet) {r : Reply}
      → get_elem? n.conns j ≡ some c
      → c.to_server ≡ p ∷ ps
      → IsClient n.server c.slot c.fd
      → sock_handle_packet c.fd n.server p outbound ≡ some r
      → Step n
          (record n {
            server = r.res;
            conns = deliver r.sent (set n.conns j (record c { to_server = ps }));
          })
          r.sent
  move :
      (j : ℕ) {c c' : Conn} {lost : List (ℤ × ℤ)}
      → get_elem? n.conns j ≡ some c
      → Move c c' lost
      → Step n (record n { conns = set n.conns j c'; given_up = lost ++ n.given_up }) []
  arrive :
      (fd : ℤ) (slot : ℕ) (phase : Phase) {a : Accepted}
      → (phase ≡ asking) ⊎ (phase ≡ registering)
      → ((i : ℕ) → get_elem? n.server.clients i ≢ some fd)
      → ((j : ℕ) (c : Conn) → get_elem? n.conns j ≡ some c → c.fd ≢ fd)
      → accept_client n.server fd ≡ some a
      → IsClient a.res slot fd
      → Step n (record n { server = a.res; conns = n.conns ++ new_conn fd slot phase ∷ [] }) []
  turned_away :
      (fd : ℤ) {a : Accepted}
      → ((i : ℕ) → get_elem? n.server.clients i ≢ some fd)
      → accept_client n.server fd ≡ some a
      → a.dropped ≢ []
      → Step n (record n { server = a.res }) []
  leave :
      (j : ℕ) {c : Conn}
      → get_elem? n.conns j ≡ some c
      → c.phase ≡ finished
      → c.to_server ≡ []
      → IsClient n.server c.slot c.fd
      → Step n
          (record {
            server = disconnect n.server c.slot c.fd;
            conns = remove n.conns j;
            given_up = ranges_in c.to_client ++ n.given_up;
          })
          []

pub data Run (n : Net) : Net → List Sent → Type 0 where
  start : Run n n []
  later : {m k : Net} {s s' : List Sent} → Run n m s → Step m k s' → Run n k (s ++ s')

-- No connection yet.
abbrev pub fresh : SockRes → Net
fresh res = record { server = res; conns = []; given_up = [] }

-- ===== src/Packet.antt =====
-- packets.h and packets.c: the packets that the three programs exchange, and the two calls that
-- move one over a stream.
use perfnum.Prelude.{ℕ, ℤ, pos, negsuc, List, ◌∷◌, []}

-- enum packet_id. A stream can carry any other number as well.
pub data PacketId : Type 0 where
  null done closed kill range perf_num notify accept refuse : PacketId
  unknown : ℕ → PacketId

-- union packet: the members share their memory. `first` is done.pid, closed.pid, range.start and
-- perfnum.perfnum; `second` is range.end.
pub record Packet : Type 0 where
  pub id : PacketId
  pub first : ℤ
  pub second : ℤ

-- "pid" of closed packets in socket mode
abbrev pub pid_server : ℤ
pid_server = pos 0

abbrev pub pid_client : ℤ
pid_client = pos 1

-- memset(p, 0, sizeof(union packet))
abbrev pub zero_packet : Packet
zero_packet = record { id = null; first = pos 0; second = pos 0 }

-- What read() of one packet may do: hand over a whole packet, a part of one (some bytes, with what
-- the union then holds), the end of the stream, or an error with its errno.
pub data Read : Type 0 where
  whole : Packet → Read
  part : ℕ → Packet → Read
  eof : Read
  failed : ℕ → Read

-- sizeof(union packet): three 4-byte words.
abbrev pub packet_size : ℕ
packet_size = 12

-- get_packet: the return value, and the packet in memory. It is zeroed before the read.
unfoldable pub get_packet : Read → ℤ × Packet
get_packet (whole p) = (pos packet_size, p)
get_packet (part n p) = (pos n, p)
get_packet eof = (pos 0, zero_packet)
get_packet (failed errno) = (negsuc 0, zero_packet)

-- send_packet, where the caller ignores the result: the packet is put on the stream of `fd`.
pub record Sent : Type 0 where
  pub fd : ℤ
  pub packet : Packet

abbrev pub send_packet : ℤ → Packet → List Sent
send_packet fd p = record { fd = fd; packet = p } ∷ []

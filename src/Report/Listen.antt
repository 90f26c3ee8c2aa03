-- ===== src/Report/Listen.antt =====
-- What the report prints, as a function of the packets that arrive.
use perfnum.Prelude.{
  ℕ, zero, suc, ◌≡◌, refl, ℤ, pos, ltb_int, ◌==ℤ◌, Bool, true, false, ◌||◌, List, [], ◌∷◌,
  replicate, if◌then◌else◌, arith,
}
use perfnum.Packet.{
  PacketId, null, done, closed, range, perf_num, notify, Packet, eof, get_packet, pid_server,
}
use perfnum.Report.{
  Line, Look, on_closed, pipe_packet, sock_packet, listen, pipe_report, sock_report,
}

-- The packets read before a signal: those of which some bytes came.
abbrev pub arrived : List Look → List Packet
arrived [] = []
arrived (l ∷ ls) =
    let rest = arrived ls in
    if l.caught
    then []
    else if ltb_int (pos 0) (get_packet l.read).0
    then (get_packet l.read).1 ∷ rest
    else rest

-- Whether a signal is seen.
abbrev pub signalled : List Look → Bool
signalled [] = false
signalled (l ∷ ls) = l.caught || signalled ls

-- The packets up to the one that says that the server stops, and whether there is one.
abbrev pub is_last : ℤ → Packet → PacketId → Bool
is_last server p done = true
is_last server p closed = p.first ==ℤ server
is_last server p _ = false

abbrev pub up_to_last : ℤ → List Packet → List Packet × Bool
up_to_last server [] = ([], false)
up_to_last server (p ∷ ps) =
    let (rest, stopped) = up_to_last server ps in
    if is_last server p p.id then (p ∷ [], true) else (p ∷ rest, stopped)

abbrev pub lines_of : (PacketId → Packet → Line × Bool) → List Packet → List Line
lines_of handle [] = []
lines_of handle (p ∷ ps) = (handle p.id p).0 ∷ lines_of handle ps

pipe_packet-is_last :
    (server : ℤ) (p : Packet) (i : PacketId) → (pipe_packet server i p).1 ≡ is_last server p i
unfolding pipe_packet on_closed
pipe_packet-is_last server p closed = ground arith
pipe_packet-is_last server p done = refl
pipe_packet-is_last server p null = refl
pipe_packet-is_last server p range = refl
pipe_packet-is_last server p perf_num = refl
pipe_packet-is_last server p _ = refl

sock_packet-is_last : (p : Packet) (i : PacketId) → (sock_packet i p).1 ≡ is_last pid_server p i
unfolding sock_packet on_closed
sock_packet-is_last p closed = ground arith
sock_packet-is_last p done = refl
sock_packet-is_last p null = refl
sock_packet-is_last p range = refl
sock_packet-is_last p perf_num = refl
sock_packet-is_last p notify = refl
sock_packet-is_last p _ = refl

listen-done :
    (handle : PacketId → Packet → Line × Bool) (ls : List Look)
    → listen handle ls true ≡ record { ended = true; lines = [] }
unfolding listen
listen-done handle [] = refl
listen-done handle (l ∷ ls) = refl

listen-lem :
    (server : ℤ) (handle : PacketId → Packet → Line × Bool) (ls : List Look)
    → ((p : Packet) (i : PacketId) → (handle i p).1 ≡ is_last server p i)
    → listen handle ls false ≡ record {
      ended = (up_to_last server (arrived ls)).1 || signalled ls;
      lines = lines_of handle (up_to_last server (arrived ls)).0;
    }
unfolding listen
listen-lem server handle [] h = refl
listen-lem server handle (l ∷ ls) h = ground (
  arith,
  h (get_packet l.read).1 (get_packet l.read).1.id,
  listen-done handle ls,
  listen-lem server handle ls h,
)

-- sock_report prints one line for each packet that arrives, up to and with the first done packet or
-- closed packet of the server, and returns if there is such a packet or if a signal is caught.
pub sock_report-lines :
    (ls : List Look)
    → sock_report ls ≡ record {
      ended = (up_to_last pid_server (arrived ls)).1 || signalled ls;
      lines = lines_of sock_packet (up_to_last pid_server (arrived ls)).0;
    }
unfolding sock_report
sock_report-lines ls = listen-lem pid_server sock_packet ls sock_packet-is_last

-- pipe_report prints one line for each packet that arrives, up to and with the first done packet or
-- closed packet with the process id of manage, and returns if there is such a packet or if a signal
-- is caught.
pub pipe_report-lines :
    (manage : ℤ) (ls : List Look)
    → pipe_report manage ls ≡ record {
      ended = (up_to_last manage (arrived ls)).1 || signalled ls;
      lines = lines_of (pipe_packet manage) (up_to_last manage (arrived ls)).0;
    }
unfolding pipe_report
pipe_report-lines manage ls = listen-lem manage (pipe_packet manage) ls (pipe_packet-is_last manage)

abbrev pub at_eof : Look
at_eof = record { caught = false; read = eof }

-- When the server is gone without a last packet, neither loop of the report ends, for any number of
-- rounds: each reads the end of the stream again.
report_spins :
    (manage : ℤ) (n : ℕ)
    → (pipe_report manage (replicate n at_eof) ≡ record { ended = false; lines = [] })
      × (sock_report (replicate n at_eof) ≡ record { ended = false; lines = [] })
unfolding pipe_report sock_report listen get_packet
report_spins manage zero = (refl, refl)
report_spins manage (suc n) = report_spins manage n

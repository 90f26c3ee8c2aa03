-- ===== src/Manage/Sock/Trace.antt =====
-- The events of the server, in any order and number, and what it sends on the way.
use perfnum.Prelude.{ℕ, ℤ, ◌≡◌, ◌≢◌, false, some, List, [], ◌++◌, get_elem?, is_neg}
use perfnum.Packet.{Packet, Sent}
use perfnum.Manage.Sock.{SockRes, Reply, sock_handle_packet}
use perfnum.Manage.Sock.Accept.{Accepted, accept_client, disconnect}

-- `fd` is the descriptor of the client at index `i`.
abbrev pub IsClient : SockRes → ℕ → ℤ → Type 0
IsClient res i fd = (get_elem? res.clients i ≡ some fd) × (is_neg fd ≡ false)

-- A packet comes from a connected client. accept() returns a descriptor that is not in use.
pub data Step (res : SockRes) : SockRes → List Sent → Type 0 where
  handled :
      (i : ℕ) (fd : ℤ) (p outbound : Packet) (r : Reply)
      → IsClient res i fd
      → sock_handle_packet fd res p outbound ≡ some r
      → Step res r.res r.sent
  accepted :
      (fd : ℤ) (a : Accepted)
      → ((i : ℕ) → get_elem? res.clients i ≢ some fd)
      → accept_client res fd ≡ some a
      → Step res a.res []
  left : (i : ℕ) (fd : ℤ) → IsClient res i fd → Step res (disconnect res i fd) []

pub data Trace (res : SockRes) : SockRes → List Sent → Type 0 where
  start : Trace res res []
  later : {t u : SockRes} {s s' : List Sent} → Trace res t s → Step t u s' → Trace res u (s ++ s')

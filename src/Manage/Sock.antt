-- ===== src/Manage/Sock.antt =====
-- manage.c, socket mode: the server's state and the handler of one packet.
pub mod Accept
pub mod Loop
pub mod Trace
pub mod Cases
pub mod Clients
pub mod Results
pub mod Events
pub mod Refine
pub mod Bounds
pub mod Shutdown
pub mod Tests
pub mod Assign
use perfnum.Prelude.{
  ℕ, zero, suc, ◌+◌, ◌-◌, ℤ, pos, negsuc, minus_one, ◌==ℤ◌, ltb_int, Bool, true, false, Option,
  none, some, List, [], ◌∷◌, ◌++◌, ltb, if◌then◌else◌, length, set, get_elem?, take, not,
}
use perfnum.Packet.{
  PacketId, null, done, closed, kill, range, perf_num, notify, accept, refuse, unknown, Packet,
  pid_client, pid_server, Sent, send_packet,
}

-- Number of tests to assign in each block, NASSIGN.
abbrev pub nassign : ℕ
nassign = 1000

-- Size of the perfnums array, SPERFNUMS.
abbrev pub sperfnums : ℕ
sperfnums = 5

-- The largest limit for which highest_assigned, a multiple of NASSIGN, never passes 2 ^ 31 - 1.
abbrev pub max_limit : ℕ
max_limit = 2147483000

-- struct sock_res. `perfnums` and `clients` are arrays, as lists of their cells; `allfds` is the
-- fd_set as its membership test. highest_assigned starts at 0 and only grows; it is an int of the
-- program, which holds it for limits up to `max_limit`. The model is for these limits: with a larger
-- one the int overflows at the last range.
pub record SockRes : Type 0 where
  pub listen : ℤ
  pub notify : ℤ
  pub clients : List ℤ
  pub perfnums : List ℤ
  pub nperfnums : ℕ
  pub limit : ℤ
  pub highest_assigned : ℕ
  pub done : Bool
  pub allfds : ℤ → Bool
  pub maxfd : ℤ
  pub maxi : ℤ
  pub missed_some : Bool

-- What a handler leaves: the state, the packets that it sent in order, and its return value.
pub record Reply : Type 0 where
  pub res : SockRes
  pub sent : List Sent
  pub stop : Bool

-- res->perfnums[res->nperfnums++] = n. `none` is a write past the end of the array.
unfoldable pub store_perfnum : SockRes → ℤ → Option SockRes
store_perfnum res n =
    if ltb res.nperfnums (length res.perfnums)
    then some
        (record res { perfnums = set res.perfnums res.nperfnums n; nperfnums = suc res.nperfnums })
    else none

-- send_packet(res->notify, p), if a client is registered.
unfoldable pub tell_notify : SockRes → Packet → List Sent
tell_notify res p = if res.notify ==ℤ minus_one then [] else send_packet res.notify p

-- case PACKETID_PERFNUM
unfoldable pub on_perfnum : SockRes → Packet → Option Reply
unfolding store_perfnum tell_notify
on_perfnum res p = elim (store_perfnum res p.first) [
  | none ↦ none
  | some stored ↦ some (record { res = stored; sent = tell_notify stored p; stop = false })
]

-- The range that the next free client gets. An int holds its ends if highest_assigned is below a limit
-- of at most max_limit.
abbrev pub next_range : SockRes → Packet
next_range res = record {
  id = range;
  first = pos (res.highest_assigned + 1);
  second = pos (res.highest_assigned + 1 + nassign - 1);
}

-- case PACKETID_DONE: a client is free. `outbound` is what the local variable holds. For limits up to
-- max_limit no int overflows here.
unfoldable pub on_done : ℤ → SockRes → Packet → Reply
unfolding tell_notify
on_done fd res outbound =
    if ltb_int (pos res.highest_assigned) res.limit
    then record {
      res = record res { highest_assigned = res.highest_assigned + 1 + nassign - 1 };
      sent = send_packet fd (next_range res);
      stop = false;
    }
    else record {
      res = record res { done = true };
      sent =
          send_packet fd (record outbound { id = refuse })
          ++ tell_notify res (record outbound { id = done });
      stop = false;
    }

-- case PACKETID_CLOSED
unfoldable pub on_closed : SockRes → Packet → Reply
unfolding tell_notify
on_closed res p = record {
  res = record res { missed_some = true };
  sent = tell_notify res p;
  stop = false;
}

-- The loop that sends the list of numbers already found.
unfoldable pub send_found : ℤ → List ℤ → Packet → List Sent
send_found fd [] outbound = []
send_found fd (n ∷ ns) outbound =
    send_packet fd (record outbound { first = n })
    ++ send_found fd ns (record outbound { first = n })

-- What the loop leaves in `outbound`.
unfoldable pub last_found : List ℤ → Packet → Packet
last_found [] outbound = outbound
last_found (n ∷ ns) outbound = last_found ns (record outbound { first = n })

-- outbound after `missed_some` was reported, if it was.
abbrev pub after_missed : SockRes → Packet → Packet
after_missed res outbound =
    if res.missed_some then record outbound { id = closed; first = pid_client } else outbound

-- The numbers found, the first nperfnums cells of the array.
abbrev pub found : SockRes → List ℤ
found res = take res.nperfnums res.perfnums

-- The numbers, and the end of the computation if all is assigned.
unfoldable pub send_history : ℤ → SockRes → Packet → List Sent
unfolding send_found last_found
send_history fd res outbound =
    send_found fd (found res) (record outbound { id = perf_num })
    ++ (if res.done
        then send_packet fd (record (last_found (found res) outbound) { id = done })
        else [])

-- case PACKETID_NOTIFY
unfoldable pub on_notify : ℤ → SockRes → Packet → Reply
unfolding send_history
on_notify fd res outbound =
    if res.notify ==ℤ minus_one
    then record {
      res = record res { notify = fd };
      sent =
          send_packet fd (record outbound { id = accept })
          ++ (if res.missed_some
              then send_packet fd (record outbound { id = closed; first = pid_client })
              else [])
          ++ send_history fd res (after_missed res outbound);
      stop = false;
    }
    else record { res = res; sent = send_packet fd (record outbound { id = refuse }); stop = false }

-- The switch on the packet's identifier; the log messages of the last cases are left out.
unfoldable pub dispatch : PacketId → ℤ → SockRes → Packet → Packet → Option Reply
unfolding on_perfnum on_done on_closed on_notify
dispatch perf_num fd res p outbound = on_perfnum res p
dispatch done fd res p outbound = some (on_done fd res outbound)
dispatch closed fd res p outbound = some (on_closed res p)
dispatch kill fd res p outbound = some (record { res = res; sent = []; stop = true })
dispatch notify fd res p outbound = some (on_notify fd res outbound)
dispatch _ fd res p outbound = some (record { res = res; sent = []; stop = false })

-- sock_handle_packet, on the packet `p` from `fd`. `outbound` is the uninitialised local variable.
unfoldable pub sock_handle_packet : ℤ → SockRes → Packet → Packet → Option Reply
unfolding dispatch
sock_handle_packet fd res p outbound = dispatch p.id fd res p outbound

-- ===== src/Manage/Sock/Tests.antt =====
-- The theorems about the socket server at concrete inputs.
use perfnum.Prelude.{
  true, none, ◌↔◌, ℤ, ◌⊎◌, ℕ, zero, suc, ◌≡◌, ◌≢◌, ◌≤◌, ◌<◌, ◌+◌, refl, pos, minus_one, false, some,
  [], ◌∷◌, ◌++◌, get_elem?, if◌then◌else◌, ltb_int, replicate, arith, get_elem?-replicate, ◌==◌,
}
use perfnum.Packet.{
  Packet, done, kill, notify, perf_num, zero_packet, whole, get_packet, send_packet,
}
use perfnum.Manage.Sock.{
  SockRes, Reply, nassign, max_limit, sperfnums, on_done, on_notify, sock_handle_packet,
}
use perfnum.Manage.Sock.Accept.{accept_client, fd_set}
use perfnum.Manage.Sock.Loop.{
  Server, Round, ready, sock_init, sock_report, serve_client, scan_clients,
}
use perfnum.Manage.Sock.Trace.{handled, accepted, Trace, start, later}
use perfnum.Manage.Sock.Assign.{ranges, IsIn, Trace-covers}
use perfnum.Manage.Sock.Clients.{IsServing, reachable-IsServing}
use perfnum.Manage.Sock.Results.{IsInformed, Session, registered, goes_on, Session-IsInformed}
use perfnum.Manage.Sock.Events.{Extends}
use perfnum.Manage.Sock.Refine.{Among, AcceptsFresh, sock_report-Events}
use perfnum.Manage.Sock.Bounds.{assigned_bounds}
use perfnum.Manage.Sock.Shutdown.{kill_lost}

abbrev request : Packet
request = record zero_packet { id = done }

abbrev register : Packet
register = record zero_packet { id = notify }

abbrev six : Packet
six = record { id = perf_num; first = pos 6; second = pos 0 }

-- A server with limit 1500 and two clients, at descriptors 4 and 5.
abbrev busy : SockRes
busy = record {
  listen = pos 3;
  notify = minus_one;
  clients =
      pos 4 ∷ pos 5 ∷ minus_one ∷ minus_one ∷ minus_one ∷ minus_one ∷ minus_one ∷ minus_one ∷ [];
  perfnums = replicate 5 (pos 0);
  nperfnums = 0;
  limit = pos 1500;
  highest_assigned = 0;
  done = false;
  allfds = λ x. ltb_int (pos 2) x;
  maxfd = pos 5;
  maxi = pos 1;
  missed_some = false;
}

abbrev assigned_once : Reply
assigned_once = on_done (pos 4) busy zero_packet

abbrev assigned_twice : Reply
assigned_twice = on_done (pos 5) assigned_once.res zero_packet

two_requests : Trace busy assigned_twice.res (([] ++ assigned_once.sent) ++ assigned_twice.sent)
unfolding sock_handle_packet on_done
two_requests =
    later (later start (handled 0 (pos 4) request zero_packet assigned_once (refl, refl) refl))
      (handled 1 (pos 5) request zero_packet assigned_twice (refl, refl) refl)

Trace-covers_example :
    (i : ℕ) × (x : ℤ × ℤ) × (get_elem?
        (ranges (([] ++ assigned_once.sent) ++ assigned_twice.sent))
        i
      ≡ some x)
    × IsIn 1500 x
    × ((j : ℕ) (y : ℤ × ℤ)
        → get_elem? (ranges (([] ++ assigned_once.sent) ++ assigned_twice.sent)) j ≡ some y
        → IsIn 1500 y
        → j ≡ i)
unfolding on_done
Trace-covers_example = Trace-covers 1500 two_requests refl (omega arith) (omega arith) (omega arith)

abbrev fresh_server : SockRes
fresh_server = sock_init 8 (pos 3) (pos 700) (pos 0)

abbrev with_client : SockRes
with_client = record {
  listen = pos 3;
  notify = minus_one;
  clients = pos 4 ∷ replicate 7 minus_one;
  perfnums = replicate 5 (pos 0);
  nperfnums = 0;
  limit = pos 700;
  highest_assigned = 0;
  done = false;
  allfds = fd_set (pos 4) (fd_set (pos 3) (λ x. false));
  maxfd = pos 4;
  maxi = pos 0;
  missed_some = false;
}

abbrev first_block : Reply
first_block = on_done (pos 4) with_client zero_packet

abbrev no_block : Reply
no_block = on_done (pos 4) first_block.res zero_packet

-- A client connects, works on the one block that there is, and is refused another.
whole_run : Trace fresh_server no_block.res ((([] ++ []) ++ first_block.sent) ++ no_block.sent)
unfolding sock_init sock_handle_packet on_done accept_client
whole_run =
    later
      (later
        (later start (
          accepted (pos 4) (record { res = with_client; dropped = [] })
            (λ i e. cc (get_elem?-replicate 8 i minus_one e)) refl))
        (handled 0 (pos 4) request zero_packet first_block (refl, refl) refl))
      (handled 0 (pos 4) request zero_packet no_block (refl, refl) refl)

reachable-IsServing_example : IsServing no_block.res
reachable-IsServing_example = reachable-IsServing 8 (pos 3) (pos 700) (pos 0) whole_run

assigned_bounds_example :
    (no_block.res.highest_assigned < 700 + nassign)
    × (no_block.res.highest_assigned ≤ max_limit)
    × ((no_block.res.done ≡ false) ⊎ (700 ≤ no_block.res.highest_assigned))
    × ((sock_handle_packet (pos 4) no_block.res six zero_packet ≡ none)
        ↔ ((six.id ≡ perf_num) × (no_block.res.nperfnums ≡ sperfnums)))
assigned_bounds_example =
    assigned_bounds 8 (pos 3) 700 (pos 0) (pos 4) six zero_packet whole_run (omega arith)

-- Client 5 finds 6, client 4 registers, and client 5 reports 28.
abbrev found_six : Reply
found_six = record {
  res = record busy { perfnums = pos 6 ∷ replicate 4 (pos 0); nperfnums = 1 };
  sent = [];
  stop = false;
}

abbrev registration : Reply
registration = on_notify (pos 4) found_six.res zero_packet

abbrev twenty_eight : Packet
twenty_eight = record { id = perf_num; first = pos 28; second = pos 0 }

abbrev found_more : Reply
found_more = record {
  res = record (registration.res) {
    perfnums = pos 6 ∷ pos 28 ∷ replicate 3 (pos 0);
    nperfnums = 2;
  };
  sent = send_packet (pos 4) twenty_eight;
  stop = false;
}

notified : Session (pos 4) found_more.res (registration.sent ++ found_more.sent)
unfolding sock_handle_packet on_notify
notified =
    goes_on (registered found_six.res register zero_packet registration refl refl refl)
      (handled 1 (pos 5) twenty_eight zero_packet found_more (refl, refl) refl) refl refl

Session-IsInformed_example :
    IsInformed (pos 4) found_more.res (registration.sent ++ found_more.sent)
Session-IsInformed_example = Session-IsInformed refl notified

-- Both clients are ready; client 4 sends a kill packet, and client 5 asks for work.
abbrev kill_round : Round
kill_round = record {
  caught = false;
  select = ready (pos 2) (λ x. ltb_int (pos 3) x);
  accept = pos 6;
  reads = λ i. if i == 0 then whole (record zero_packet { id = kill }) else whole request;
  outbound = zero_packet;
}

abbrev serving : SockRes → Server
serving res = record { res = res; done = false; nready = pos 2; sent = []; dropped = [] }

abbrev after_kill : Server
after_kill = record {
  res = (on_done (pos 5) busy zero_packet).res;
  done = false;
  nready = pos 0;
  sent = [] ++ (on_done (pos 5) busy zero_packet).sent;
  dropped = [];
}

kill_lost_example :
    (v : Server) × (serve_client kill_round 0 (pos 4) (serving busy) ≡ some v)
    × (v.done ≡ true)
    × (after_kill.done ≡ false)
unfolding scan_clients sock_handle_packet serve_client get_packet on_done
kill_lost_example =
    kill_lost kill_round (λ x. ltb_int (pos 3) x) (pos 4) (pos 5) (replicate 6 minus_one)
      (record zero_packet { id = kill }) request (serving busy) after_kill refl (refl, refl)
      (refl, refl) refl (refl, refl) (refl, λ e. cc) refl

busy_has_no_six : (i : ℕ) → get_elem? busy.clients i ≢ some (pos 6)
busy_has_no_six zero e = cc
busy_has_no_six (suc zero) e = cc
busy_has_no_six (suc (suc i)) e = cc (get_elem?-replicate 6 i minus_one e)

sock_report-Events_example : Extends (Among (kill_round ∷ [])) (serving busy) after_kill
unfolding sock_report AcceptsFresh scan_clients sock_handle_packet serve_client get_packet on_done
sock_report-Events_example =
    sock_report-Events (kill_round ∷ []) (serving busy) after_kill false
      (busy_has_no_six, λ t e. tt) refl

abbrev full : SockRes
full = record busy { clients = pos 4 ∷ pos 5 ∷ pos 6 ∷ pos 7 ∷ pos 0 ∷ pos 1 ∷ pos 2 ∷ pos 3 ∷ [] }

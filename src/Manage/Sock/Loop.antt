-- ===== src/Manage/Sock/Loop.antt =====
-- manage.c, sock_init, sock_report and sock_cleanup: the life of the server.
use perfnum.Prelude.{
  ℕ, zero, suc, ℤ, pos, negsuc, minus_one, ◌==ℤ◌, ltb_int, is_neg, Bool, true, false, Option, none,
  some, List, [], ◌∷◌, ◌++◌, get_elem?, replicate, not, if◌then◌else◌,
}
use perfnum.Packet.{Packet, closed, pid_server, Read, get_packet, packet_size, Sent, send_packet}
use perfnum.Manage.Sock.{SockRes, sock_handle_packet, sperfnums}
use perfnum.Manage.Sock.Accept.{fd_set, accept_client, disconnect}

-- sock_init after the socket is open and bound: `listen` is its descriptor, `limit` is the number
-- on the command line, `max_clients` is FD_SETSIZE and `junk` is what the array holds at first.
unfoldable pub sock_init : ℕ → ℤ → ℤ → ℤ → SockRes
sock_init max_clients listen limit junk = record {
  listen = listen;
  notify = minus_one;
  clients = replicate max_clients minus_one;
  perfnums = replicate sperfnums junk;
  nperfnums = 0;
  limit = limit;
  highest_assigned = 0;
  done = false;
  allfds = fd_set listen (λ x. false);
  maxfd = listen;
  maxi = minus_one;
  missed_some = false;
}

-- What select() did. On an error other than EINTR the program goes on with the sets as they were.
pub data Select : Type 0 where
  ready : ℤ → (ℤ → Bool) → Select
  interrupted : Select
  broken : Select

-- What one round of the loop meets: whether a signal was caught, select(), the descriptor that
-- accept() returns, what read() returns for the client at each index, and the uninitialised local
-- variable of the packet handler.
pub record Round : Type 0 where
  pub caught : Bool
  pub select : Select
  pub accept : ℤ
  pub reads : ℕ → Read
  pub outbound : Packet

-- The variables of sock_report, and what it has sent and closed so far.
pub record Server : Type 0 where
  pub res : SockRes
  pub done : Bool
  pub nready : ℤ
  pub sent : List Sent
  pub dropped : List ℤ

abbrev pub pred_int : ℤ → ℤ
pred_int (pos zero) = negsuc 0
pred_int (pos (suc n)) = pos n
pred_int (negsuc n) = negsuc (suc n)

-- --nready <= 0, after the decrement
abbrev pub all_served : ℤ → Bool
all_served nready = not (ltb_int (pos 0) nready)

-- done = sock_handle_packet(fd, res, &packet)
unfoldable pub handle : Round → ℤ → Packet → Server → Option Server
handle r fd packet s = elim (sock_handle_packet fd s.res packet r.outbound) [
  | none ↦ none
  | some reply ↦ some (record s { res = reply.res; done = reply.stop; sent = s.sent ++ reply.sent })
]

-- The branches on the result of get_packet, in the order of the code.
unfoldable pub serve_packet : Round → ℕ → ℤ → ℤ × Packet → Server → Option Server
unfolding handle
serve_packet r i fd (bytes_read, packet) s =
    if bytes_read ==ℤ pos 0
    then some (record s { res = disconnect s.res i fd; dropped = s.dropped ++ fd ∷ [] })
    else if not (bytes_read ==ℤ pos packet_size)
    then some s
    else if bytes_read ==ℤ minus_one
    then some s
    else handle r fd packet s

-- FD_ISSET, get_packet and the branches for the client at index `i`, with the decrement.
unfoldable pub serve_client : Round → ℕ → ℤ → Server → Option Server
unfolding serve_packet
serve_client r i fd s =
    serve_packet r i fd (get_packet (r.reads i)) (record s { nready = pred_int s.nready })

-- The loop over the clients, with `rounds` indices left. It reads clients[i] inside the array.
unfoldable pub scan_clients : Round → (ℤ → Bool) → ℕ → ℕ → Server → Option Server
scan_clients r rset zero i s = some s
scan_clients r rset (suc rounds) i s = elim (get_elem? s.res.clients i) [
  | none ↦ none
  | some fd ↦
      let rest = scan_clients r rset rounds (suc i) s in
      if is_neg fd then rest else if not (rset fd) then rest else elim (serve_client r i fd s) [
        | none ↦ none
        | some t ↦
            let others = scan_clients r rset rounds (suc i) t in
            if all_served t.nready then some t else others
      ]
]

-- i <= res->maxi
abbrev pub indices : ℤ → ℕ
indices (pos maxi) = suc maxi
indices (negsuc _) = 0

-- The part of the loop's body behind select().
unfoldable pub after_select : Round → ℤ → (ℤ → Bool) → Server → Option Server
unfolding scan_clients
after_select r nready rset s =
    if rset s.res.listen
    then elim (accept_client s.res r.accept) [
      | none ↦ none
      | some a ↦
          let t : Server = record s {
            res = a.res;
            nready = pred_int nready;
            dropped = s.dropped ++ a.dropped;
          } in
          if all_served t.nready then some t else scan_clients r rset (indices t.res.maxi) 0 t
    ]
    else scan_clients r rset (indices s.res.maxi) 0 (record s { nready = nready })

-- The rest of the round after a select() that did not end the loop.
unfoldable pub go_on : Option Server → Option (Server × Bool)
go_on none = none
go_on (some s) = some (s, false)

-- The body of the loop; `true` says that it breaks out.
unfoldable pub one_round : Round → Server → Option (Server × Bool)
unfolding after_select go_on
one_round r s = if r.caught then some (s, true) else elim r.select [
  | interrupted ↦ some (s, true)
  | broken ↦ go_on (after_select r minus_one s.res.allfds s)
  | ready nready rset ↦ go_on (after_select r nready rset s)
]

-- The loop `while (done == false)`, a round for each entry of the list. `true` says that the loop
-- has ended, and `false` that the rounds have run out first.
unfoldable pub sock_report : List Round → Server → Option (Server × Bool)
unfolding one_round
sock_report [] s = some (s, s.done)
sock_report (r ∷ rs) s =
    let body : Option (Server × Bool) = elim (one_round r s) [
      | none ↦ none
      | some (t, over) ↦ elim over [ true ↦ some (t, true) | false ↦ sock_report rs t ]
    ] in
    if s.done then some (s, true) else body

-- The loop of sock_cleanup: each client is told and closed, and its index becomes unused.
unfoldable pub close_clients : Packet → List ℤ → List ℤ × List Sent × List ℤ
close_clients p [] = ([], [], [])
close_clients p (c ∷ cs) =
    let (cells, sent, gone) = close_clients p cs in
    if c ==ℤ minus_one
    then (c ∷ cells, sent, gone)
    else (minus_one ∷ cells, send_packet c p ++ sent, c ∷ gone)

-- sock_cleanup; `p` is its uninitialised local variable.
unfoldable pub sock_cleanup : Packet → SockRes → SockRes × List Sent × List ℤ
unfolding close_clients
sock_cleanup p res =
    let (cells, sent, gone) =
      close_clients (record p { id = closed; first = pid_server }) res.clients in
    (
      record res { clients = cells; notify = minus_one; listen = minus_one },
      sent,
      gone ++ res.listen ∷ [],
    )

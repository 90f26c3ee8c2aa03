-- ===== src/Manage/Sock/Shutdown.antt =====
-- How the socket server ends: kill packets, and a client too many.
use perfnum.Prelude.{
  ℕ, ◌≡◌, ◌≢◌, ◌↔◌, inl, inr, refl, ℤ, pos, minus_one, ◌==ℤ◌, ==ℤ_refl, ==ℤ_iff, replicate, is_neg,
  ltb_int, Bool, true, false, none, some, List, [], ◌∷◌, ◌++◌, if◌then◌else◌, length, Option-cases,
  arith,
}
use perfnum.Packet.{
  PacketId, done, closed, kill, perf_num, notify, Packet, Sent, whole, get_packet, pid_server,
}
use perfnum.Manage.Sock.{
  SockRes, Reply, on_perfnum, on_done, on_closed, on_notify, dispatch, sock_handle_packet,
}
use perfnum.Manage.Sock.Accept.{Accepted, free_slot, place_client, accept_client, watch}
use perfnum.Manage.Sock.Loop.{
  Server, Round, pred_int, handle, serve_client, scan_clients, close_clients, sock_cleanup,
}

dispatch-stop :
    (i : PacketId) (fd : ℤ) (t : SockRes) (p o : Packet) (r : Reply)
    → dispatch i fd t p o ≡ some r
    → (r.stop ≡ true) ↔ (i ≡ kill)
unfolding dispatch on_perfnum on_done on_closed on_notify
dispatch-stop perf_num fd t p o r e = ground arith
dispatch-stop done fd t p o r e = ground arith
dispatch-stop closed fd t p o r e = ground arith
dispatch-stop kill fd t p o r e = ground arith
dispatch-stop notify fd t p o r e = ground arith
dispatch-stop _ fd t p o r e = ground arith

-- The handler asks the loop to stop exactly for a kill packet.
pub handle-stop :
    (fd : ℤ) (t : SockRes) (p o : Packet) (r : Reply)
    → sock_handle_packet fd t p o ≡ some r
    → (r.stop ≡ true) ↔ (p.id ≡ kill)
unfolding sock_handle_packet
handle-stop fd t p o r e = dispatch-stop p.id fd t p o r e

-- Serving a client whose packet arrives whole sets `done` by that packet alone, whatever it was.
serve_client-done :
    (r : Round) (i : ℕ) (fd : ℤ) (p : Packet) (s t : Server)
    → r.reads i ≡ whole p
    → serve_client r i fd s ≡ some t
    → (t.done ≡ true) ↔ (p.id ≡ kill)
unfolding serve_client get_packet handle
serve_client-done r i fd p s t e h =
    elim (Option-cases (sock_handle_packet fd s.res p r.outbound)) [
      | inl fault ↦ absurd (ground arith)
      | inr (q, ok) ↦ ground (arith, handle-stop fd s.res p r.outbound q ok)
    ]

dispatch_kill :
    (i : PacketId) (fd : ℤ) (t : SockRes) (p o : Packet)
    → i ≡ kill
    → dispatch i fd t p o ≡ some (record { res = t; sent = []; stop = true })
unfolding dispatch
dispatch_kill kill fd t p o e = refl
dispatch_kill _ fd t p o e = cc

pub serve_client_kill :
    (r : Round) (i : ℕ) (fd : ℤ) (k : Packet) (s : Server)
    → r.reads i ≡ whole k
    → k.id ≡ kill
    → serve_client r i fd s
      ≡ some (record s { nready = pred_int s.nready; done = true; sent = s.sent ++ [] })
unfolding serve_client get_packet sock_handle_packet handle
serve_client_kill r i fd k s e h = ground (arith, dispatch_kill k.id fd s.res k r.outbound h)

-- When select() has reported exactly the clients at the indices 0 and 1, the first sends a kill packet
-- and the second a whole packet of another kind, the kill packet is lost: `done` is true when the
-- first client has been served, and false after the scan of the two indices.
pub kill_lost :
    (r : Round) (rset : ℤ → Bool) (a b : ℤ) (cs : List ℤ) (k p : Packet) (s t : Server)
    → s.res.clients ≡ a ∷ b ∷ cs
    → (is_neg a ≡ false) × (is_neg b ≡ false)
    → (rset a ≡ true) × (rset b ≡ true)
    → s.nready ≡ pos 2
    → (r.reads 0 ≡ whole k) × (k.id ≡ kill)
    → (r.reads 1 ≡ whole p) × (p.id ≢ kill)
    → scan_clients r rset 2 0 s ≡ some t
    → (v : Server) × (serve_client r 0 a s ≡ some v) × (v.done ≡ true) × (t.done ≡ false)
unfolding scan_clients
kill_lost r rset a b cs k p s t clients used readable two first second e = (
  u,
  serve_client_kill r 0 a k s first.0 first.1,
  refl,
  elim (Option-cases (serve_client r 1 b u)) [
    | inl fault ↦ absurd (ground (arith, serve_client_kill r 0 a k s first.0 first.1))
    | inr (w, served) ↦ ground (
      arith,
      serve_client_kill r 0 a k s first.0 first.1,
      serve_client-done r 1 b p u w second.0 served,
    )
  ],
)
  where
    u : Server
    u = record s { nready = pred_int s.nready; done = true; sent = s.sent ++ [] }

-- With all indices in use, accept_client closes the new descriptor, leaves the clients alone, and
-- still adds the closed descriptor to the set for select() and to its count.
accept_full :
    (t : SockRes) (fd : ℤ)
    → free_slot 0 t.clients ≡ none
    → is_neg fd ≡ false
    → ltb_int fd (pos (length t.clients)) ≡ true
    → (a : Accepted) × (accept_client t fd ≡ some a)
      × (a.dropped ≡ fd ∷ [])
      × (a.res.clients ≡ t.clients)
      × (a.res.allfds fd ≡ true)
      × (ltb_int a.res.maxfd fd ≡ false)
unfolding accept_client
accept_full t fd full real small = (
  record (place_client t fd) { res = watch (place_client t fd).res fd },
  ground arith,
  ground arith,
  ground arith,
  ground (arith, ==ℤ_refl fd),
  ground arith,
)

-- The connected clients, in the order of their indices.
abbrev pub connected : List ℤ → List ℤ
connected [] = []
connected (c ∷ cs) = if c ==ℤ minus_one then connected cs else c ∷ connected cs

-- One packet to each of some descriptors.
abbrev pub to_each : List ℤ → Packet → List Sent
to_each [] p = []
to_each (c ∷ cs) p = record { fd = c; packet = p } ∷ to_each cs p

close_clients-eq :
    (p : Packet) (cs : List ℤ)
    → ((close_clients p cs).0 ≡ replicate (length cs) minus_one)
      × ((close_clients p cs).1 ≡ to_each (connected cs) p)
      × ((close_clients p cs).2 ≡ connected cs)
unfolding close_clients
close_clients-eq p [] = (refl, refl, refl)
close_clients-eq p (c ∷ cs) = ground (arith, close_clients-eq p cs, ==ℤ_iff c minus_one)

-- sock_cleanup sends every connected client one closed packet of the server, closes those clients
-- and the listening socket and nothing else, and leaves no client and no registration behind.
sock_cleanup-closes :
    (p : Packet) (t : SockRes)
    → ((sock_cleanup p t).0.clients ≡ replicate (length t.clients) minus_one)
      × ((sock_cleanup p t).0.notify ≡ minus_one)
      × ((sock_cleanup p t).1
          ≡ to_each (connected t.clients) (record p { id = closed; first = pid_server }))
      × ((sock_cleanup p t).2 ≡ connected t.clients ++ t.listen ∷ [])
unfolding sock_cleanup
sock_cleanup-closes p t =
    ground (arith, close_clients-eq (record p { id = closed; first = pid_server }) t.clients)

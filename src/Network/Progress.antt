-- ===== src/Network/Progress.antt =====
-- A worker that waits is owed an answer.
use perfnum.Prelude.{
  ℕ, ◌≤◌, length, Option-cases, ◌≡◌, ◌⊎◌, inl, inr, refl, sym, ◌∙◌, ap, some_inj, ltb_int, ℤ, pos,
  ==ℤ_iff, Bool, true, false, ◌||◌, some, List, [], ◌∷◌, ◌++◌, map, get_elem?, set, Bool-cases,
  arith,
}
use perfnum.Packet.{PacketId, done, perf_num, refuse, Packet, Sent}
use perfnum.Manage.Sock.{
  SockRes, Reply, dispatch, on_done, next_range, tell_notify, sock_handle_packet,
}
use perfnum.Manage.Sock.Loop.{sock_init}
use perfnum.Manage.Sock.Bounds.{handle-faults}
use perfnum.Manage.Sock.Trace.{IsClient}
use perfnum.Network.All.{All, All-set, All-get, All-append, All-remove}
use perfnum.Network.Seats.{Seated-get, Run-Seated}
use perfnum.Network.{
  Phase, waiting, Conn, with_done, Move, ask, test_perfect, quit_testing, register, hear, push,
  deliver, Net, new_conn, Step, serve, move, arrive, turned_away, leave, Run, start, later, fresh,
}

abbrev pub is_done : PacketId → Bool
is_done done = true
is_done _ = false

abbrev pub asks : List Packet → Bool
asks [] = false
asks (p ∷ ps) = is_done p.id || asks ps

abbrev some_packet : List Packet → Bool
some_packet [] = false
some_packet (p ∷ ps) = true

abbrev waits : Phase → Bool
waits waiting = true
waits _ = false

-- A client that waits has an answer or a request on the way.
abbrev Owed : Conn → Type 0
Owed c = waits c.phase ≡ true → (some_packet c.to_client || asks c.to_server) ≡ true

-- The same, but for the connection that is being answered.
abbrev Served : ℤ → Conn → Type 0
Served fd c = (c.fd ≡ fd) ⊎ Owed c

asks-append : (ps : List Packet) (p : Packet) → asks (ps ++ p ∷ []) ≡ (asks ps || is_done p.id)
asks-append [] p = ground arith
asks-append (q ∷ ps) p = ground (arith, asks-append ps p)

some_packet-append : (ps : List Packet) (p : Packet) → some_packet (ps ++ p ∷ []) ≡ true
some_packet-append [] p = refl
some_packet-append (q ∷ ps) p = refl

Move-Owed : {c c' : Conn} {lost : List (ℤ × ℤ)} → Move c c' lost → Owed c → Owed c'
Move-Owed {c} (ask p e) o = ground (arith, asks-append c.to_server (with_done p))
Move-Owed {c} (quit_testing p e le) o = λ w. cc
Move-Owed {c} (register p e) o = λ w. cc
Move-Owed {c} (test_perfect p e le t) o = λ w. cc
Move-Owed {c} (hear e h) o = ground arith
Move-Owed mv o = λ w. ground arith

push-Owed : (s : Sent) (c : Conn) → Owed c → Owed (push s c)
push-Owed s c o = ground (arith, some_packet-append c.to_client s.packet)

deliver-Owed : (ss : List Sent) (cs : List Conn) → All Owed cs → All Owed (deliver ss cs)
deliver-Owed [] cs h = h
deliver-Owed (s ∷ ss) cs h = deliver-Owed ss (map (push s) cs) (map_all cs h)
  where
    map_all : (ds : List Conn) → All Owed ds → All Owed (map (push s) ds)
    map_all [] h = tt
    map_all (d ∷ ds) h = (push-Owed s d h.0, map_all ds h.1)

-- The first packet of an answer to the connection with descriptor fd.
push-Served : (s : Sent) (c : Conn) → Served s.fd c → Owed (push s c)
push-Served s c (inl same) =
    ground (arith, ==ℤ_iff c.fd s.fd, some_packet-append c.to_client s.packet)
push-Served s c (inr o) = push-Owed s c o

map-Served : (s : Sent) (cs : List Conn) → All (Served s.fd) cs → All Owed (map (push s) cs)
map-Served s [] h = tt
map-Served s (c ∷ cs) h = (push-Served s c h.0, map-Served s cs h.1)

Owed-Served : (fd : ℤ) (cs : List Conn) → All Owed cs → All (Served fd) cs
Owed-Served fd [] h = tt
Owed-Served fd (c ∷ cs) h = (inr h.0, Owed-Served fd cs h.1)

on_done-first :
    (fd : ℤ) (res : SockRes) (o : Packet)
    → (s : Sent) × (rest : List Sent) × ((on_done fd res o).sent ≡ s ∷ rest) × (s.fd ≡ fd)
unfolding on_done
on_done-first fd res o = elim (Bool-cases (ltb_int (pos res.highest_assigned) res.limit)) [
  | inl more ↦ (record { fd = fd; packet = next_range res }, [], rw (more, on_done) refl, refl)
  | inr none_left ↦ (
    record { fd = fd; packet = record o { id = refuse } },
    tell_notify res (record o { id = done }),
    rw (none_left, on_done) refl,
    refl,
  )
]

serve-Owed :
    (i : PacketId) (res : SockRes) (cs : List Conn) (j : ℕ) (c : Conn) (p o : Packet)
    (ps : List Packet) (r : Reply)
    → All Owed cs
    → get_elem? cs j ≡ some c
    → c.to_server ≡ p ∷ ps
    → p.id ≡ i
    → dispatch i c.fd res p o ≡ some r
    → All Owed (deliver r.sent (set cs j (record c { to_server = ps })))
unfolding dispatch
serve-Owed done res cs j c p o ps r h e q k d =
    let c' : Conn = record c { to_server = ps } in
    let (s, rest, sent, to) = on_done-first c.fd res o in
    let answer : r.sent ≡ s ∷ rest = ap (λ (x : Reply). x.sent) (sym (some_inj d)) ∙ sent in
    let popped : All (Served s.fd) (set cs j c') =
      All-set (Served s.fd) cs j c' (Owed-Served s.fd cs h) (inl (sym to)) in
    rw answer (deliver-Owed rest (map (push s) (set cs j c')) (map-Served s (set cs j c') popped))
serve-Owed i res cs j c p o ps r h e q k d = other_packet
  where
    other_packet : All Owed (deliver r.sent (set cs j (record c { to_server = ps })))
    other_packet = deliver-Owed r.sent (set cs j (record c { to_server = ps })) (
        All-set Owed cs j (record c { to_server = ps }) h (ground (arith, All-get Owed cs j c h e)))

Step-Owed : {m n : Net} {s : List Sent} → Step m n s → All Owed m.conns → All Owed n.conns
unfolding sock_handle_packet
Step-Owed {m} (serve j {c} {p} {ps} o {r = r} e q cl h) v =
    serve-Owed p.id m.server m.conns j c p o ps r v e q refl h
Step-Owed {m} (move j {c} {c'} e mv) v =
    All-set Owed m.conns j c' v (Move-Owed mv (All-get Owed m.conns j c v e))
Step-Owed {m} (arrive new slot phase ph un free ac cl) v =
    All-append Owed m.conns (new_conn new slot phase) v (ground arith)
Step-Owed (turned_away new un ac drop) v = v
Step-Owed {m} (leave j {c} e ph q cl) v = All-remove Owed m.conns j v

Run-Owed : {m n : Net} {s : List Sent} → Run m n s → All Owed m.conns → All Owed n.conns
Run-Owed start v = v
Run-Owed (later r st) v = Step-Owed st (Run-Owed r v)

asks-cons :
    (ps : List Packet) → asks ps ≡ true → (p : Packet) × (rest : List Packet) × (ps ≡ p ∷ rest)
asks-cons [] h = cc
asks-cons (p ∷ ps) h = (p, ps, refl)

packet-cons :
    (ps : List Packet)
    → some_packet ps ≡ true
    → (p : Packet) × (rest : List Packet) × (ps ≡ p ∷ rest)
packet-cons [] h = cc
packet-cons (p ∷ ps) h = (p, ps, refl)

-- However the clients came, worked and left, a worker in get_packet has an
-- answer on the way, or its packets, its request among them, are on the way to the server, which has
-- its descriptor among its clients and handles the first of them, unless that one is a perfect number
-- for which the array of results has no room.
pub waiting_answered :
    {n : Net} {s : List Sent} (max_clients : ℕ) (listen limit junk : ℤ) (j : ℕ) (c : Conn)
    (o : Packet)
    → Run (fresh (sock_init max_clients listen limit junk)) n s
    → get_elem? n.conns j ≡ some c
    → c.phase ≡ waiting
    → ((p : Packet) × (rest : List Packet) × (c.to_client ≡ p ∷ rest))
      ⊎ ((p : Packet) × (rest : List Packet) × (c.to_server ≡ p ∷ rest)
          × (asks c.to_server ≡ true)
          × IsClient n.server c.slot c.fd
          × (((r : Reply) × (sock_handle_packet c.fd n.server p o ≡ some r))
              ⊎ ((p.id ≡ perf_num) × (length n.server.perfnums ≤ n.server.nperfnums))))
waiting_answered {n} max_clients listen limit junk j c o r e w =
    let owed = All-get Owed n.conns j c (Run-Owed r tt) e (rw w refl) in
    let seated = (Run-Seated r (λ fd. omega arith) tt).0 in
    elim (Bool-cases (some_packet c.to_client)) [
      | inl answer ↦ inl (packet-cons c.to_client answer)
      | inr nothing ↦
          let request : asks c.to_server ≡ true = ground arith in
          let (p, rest, q) = asks-cons c.to_server request in
          inr (
            p,
            rest,
            q,
            request,
            Seated-get n.server n.conns j c seated e,
            elim (Option-cases (sock_handle_packet c.fd n.server p o)) [
              | inl fault ↦ inr ((handle-faults c.fd n.server p o).0 fault)
              | inr reply ↦ inl reply
            ],
          )
    ]

-- ===== src/Network/Balance.antt =====
-- The balance of each number, in every state of the network.
use perfnum.Prelude.{
  ℕ, suc, ◌+◌, ◌≤◌, ◌≡◌, ◌≢◌, refl, ap, ℤ, ==ℤ_iff, true, false, some, List, [], ◌∷◌, get_elem?,
  set, arith,
}
use perfnum.Packet.{Packet, Sent}
use perfnum.Manage.Sock.{Reply, sock_handle_packet}
use perfnum.Manage.Sock.Accept.{accept_client, disconnect}
use perfnum.Network.{
  Conn, ranges_in, deliver, Net, new_conn, Step, serve, move, arrive, turned_away, leave,
}
use perfnum.Network.Count.{
  sum_of, is_report, reports_of, pending, underway, has_fd, in_ranges-append, sum_of-set,
  sum_of-remove, sum_of-append, sum_of-le, has_fd-deliver,
}
use perfnum.Network.Conserve.{
  says, up_to, settled, unsettled, Move-account, dispatch-Served, serve-account,
}

-- No two connections have the same descriptor.
abbrev pub Distinct : Net → Type 0
Distinct n = (fd : ℤ) → sum_of (has_fd fd) n.conns ≤ 1

abbrev pub Balance : ℕ → Net → Type 0
Balance k n =
    (says k ≡ true → settled k n + unsettled k n ≡ up_to k n.server.highest_assigned)
    × (says k ≡ false → settled k n ≡ 0)

-- A descriptor that no connection has.
unused_fd :
    (fd : ℤ) (cs : List Conn)
    → ((j : ℕ) (c : Conn) → get_elem? cs j ≡ some c → c.fd ≢ fd)
    → sum_of (has_fd fd) cs ≡ 0
unused_fd fd [] h = refl
unused_fd fd (c ∷ cs) h =
    ground (arith, h 0 c refl, ==ℤ_iff c.fd fd, unused_fd fd cs (λ j d e. h (suc j) d e))

pub Step-Distinct : {m n : Net} {s : List Sent} → Step m n s → Distinct m → Distinct n
Step-Distinct {m} (serve j {c} {ps = ps} o {r} e q cl h) d fd =
    let c' : Conn = record c { to_server = ps } in
    omega (
      arith,
      d fd,
      has_fd-deliver fd r.sent (set m.conns j c'),
      sum_of-set (has_fd fd) m.conns j c c' e,
    )
Step-Distinct {m} (move j {c} {c'} e mv) d fd =
    let same = (Move-account 0 mv).2 in
    ground (arith, d fd, sum_of-set (has_fd fd) m.conns j c c' e, same)
Step-Distinct {m} (arrive new slot phase ph un free ac cl) d fd = ground (
  arith,
  d fd,
  sum_of-append (has_fd fd) m.conns (new_conn new slot phase ∷ []),
  unused_fd new m.conns free,
  ==ℤ_iff new fd,
)
Step-Distinct (turned_away new un ac drop) d fd = d fd
Step-Distinct {m} (leave j {c} e ph q cl) d fd =
    omega (arith, d fd, sum_of-remove (has_fd fd) m.conns j c e)

pub one_connection :
    (cs : List Conn) (j : ℕ) (c : Conn)
    → sum_of (has_fd c.fd) cs ≤ 1
    → get_elem? cs j ≡ some c
    → sum_of (has_fd c.fd) cs ≡ 1
one_connection cs j c le e = ground (arith, sum_of-le (has_fd c.fd) cs j c e, ==ℤ_iff c.fd c.fd)

serve-Balance :
    (k : ℕ) (m : Net) (j : ℕ) (c : Conn) (p o : Packet) (ps : List Packet) {r : Reply}
    → Distinct m
    → get_elem? m.conns j ≡ some c
    → c.to_server ≡ p ∷ ps
    → sock_handle_packet c.fd m.server p o ≡ some r
    → Balance k m
    → Balance k (record m {
      server = r.res;
      conns = deliver r.sent (set m.conns j (record c { to_server = ps }));
    })
unfolding sock_handle_packet
serve-Balance k m j c p o ps {r} d e q h b =
    let c' : Conn = record c { to_server = ps } in
    let cs = set m.conns j c' in
    let served = dispatch-Served k p.id c.fd m.server p o r refl h in
    let one : sum_of (has_fd c.fd) cs ≡ 1 =
      omega
        (arith, one_connection m.conns j c (d c.fd) e, sum_of-set (has_fd c.fd) m.conns j c c' e) in
    let (moved, assigned) = serve-account k m.server cs c p.id p r one served in
    let reported : underway k c ≡ is_report k p.id p + reports_of k ps = ap (reports_of k) q in
    let under = sum_of-set (underway k) m.conns j c c' e in
    let pend = sum_of-set (pending k) m.conns j c c' e in
    let found_now = served.0 in (λ t. omega (arith, b.0 t), λ t. omega (arith, b.1 t))

pub Step-Balance :
    {m n : Net} {s : List Sent} (k : ℕ) → Step m n s → Distinct m → Balance k m → Balance k n
unfolding accept_client disconnect
Step-Balance {m} k (serve j {c} {p} {ps} o e q cl h) d b = serve-Balance k m j c p o ps d e q h b
Step-Balance {m} k (move j {c} {c'} {lost} e mv) d b =
    let (kept, still, same) = Move-account k mv in
    let under = sum_of-set (underway k) m.conns j c c' e in
    let pend = sum_of-set (pending k) m.conns j c c' e in
    (
      λ t. omega (arith, b.0 t, kept t, in_ranges-append k lost m.given_up),
      λ t. omega (arith, b.1 t, still t),
    )
Step-Balance {m} k (arrive new slot phase ph un free ac cl) d b = ground (
  arith,
  sum_of-append (underway k) m.conns (new_conn new slot phase ∷ []),
  sum_of-append (pending k) m.conns (new_conn new slot phase ∷ []),
)
Step-Balance k (turned_away new un ac drop) d b = ground arith
Step-Balance {m} k (leave j {c} e ph q cl) d b = ground (
  arith,
  sum_of-remove (underway k) m.conns j c e,
  sum_of-remove (pending k) m.conns j c e,
  in_ranges-append k (ranges_in c.to_client) m.given_up,
)

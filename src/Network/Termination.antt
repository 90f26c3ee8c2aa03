-- ===== src/Network/Termination.antt =====
-- How long the network can run.
use perfnum.Prelude.{
  ℕ, suc, ◌+◌, ◌*◌, ◌/◌, ◌≤◌, ◌<◌, ◌≡◌, ◌≢◌, ◌⊎◌, inl, inr, refl, ℤ, pos, negsuc, some, List, [],
  ◌∷◌, get_elem?, set, arith,
}
use perfnum.Packet.{range, refuse, Packet, Sent}
use perfnum.Manage.Sock.{max_limit, SockRes, Reply, nassign, sock_handle_packet}
use perfnum.Manage.Sock.Accept.{Accepted, accept_client, disconnect}
use perfnum.Manage.Sock.Loop.{sock_init}
use perfnum.Manage.Sock.Bounds.{IsBounded, reachable-IsBounded, highest_fits}
use perfnum.Network.{
  asking, registering, Conn, deliver, Net, new_conn, Step, serve, move, arrive, turned_away, leave,
  Run, start, later, fresh,
}
use perfnum.Network.Count.{sum_of, has_fd, sum_of-set, sum_of-remove, sum_of-append}
use perfnum.Network.Balance.{Distinct}
use perfnum.Network.Seats.{Run-Seated}
use perfnum.Network.All.{All-get}
use perfnum.Network.Complete.{Run-Trace}
use perfnum.Network.Weights.{
  weight, out_weight, ahead, remaining, Move-weight, weight-deliver, dispatch-weight,
}
use perfnum.Network.Plain.{Plain, Plain-passes}
use perfnum.Network.Plain.Steps.{Reaches}
use perfnum.Network.Orderly.{Orderly}
use perfnum.Network.Orderly.Steps.{Run-Orderly}

abbrev pub measure : Net → ℕ
measure n = sum_of weight n.conns + ahead n.server

-- 1 for a new client, and 0 for any other event.
abbrev pub arrival : {m n : Net} {s : List Sent} → Step m n s → ℕ
arrival (arrive fd slot phase ph un free ac cl) = 1
arrival (turned_away fd un ac drop) = 1
arrival _ = 0

abbrev pub arrivals : {m n : Net} {s : List Sent} → Run m n s → ℕ
arrivals start = 0
arrivals (later r st) = arrival st + arrivals r

abbrev pub events : {m n : Net} {s : List Sent} → Run m n s → ℕ
events start = 0
events (later r st) = suc (events r)

accept-ahead :
    (t : SockRes) (fd : ℤ) {a : Accepted} → accept_client t fd ≡ some a → ahead a.res ≡ ahead t
unfolding accept_client
accept-ahead t fd e = ground arith

serve-measure :
    (m : Net) (j : ℕ) {c : Conn} {p : Packet} {ps : List Packet} (o : Packet) {r : Reply}
    → Distinct m
    → IsBounded m.server
    → get_elem? m.conns j ≡ some c
    → c.to_server ≡ p ∷ ps
    → sock_handle_packet c.fd m.server p o ≡ some r
    → sum_of weight (deliver r.sent (set m.conns j (record c { to_server = ps }))) + ahead r.res
      < measure m
unfolding sock_handle_packet
serve-measure m j {c} {p} {ps} o {r} d v e q h =
    let c' : Conn = record c { to_server = ps } in
    omega (
      arith,
      weight-deliver r.sent (set m.conns j c')
          (λ fd. omega (arith, d fd, sum_of-set (has_fd fd) m.conns j c c' e)),
      sum_of-set weight m.conns j c c' e,
      lighter c' refl,
      dispatch-weight p.id c.fd m.server p o r v refl h,
    )
  where
    lighter :
        (c' : Conn) → c' ≡ record c { to_server = ps } → weight c' + out_weight p.id ≡ weight c
    lighter c' same = ground arith

-- Each event but a new client makes the network lighter.
pub Step-measure :
    {m n : Net} {s : List Sent} (b : ℕ)
    → (st : Step m n s) → Distinct m
    → IsBounded m.server
    → Orderly b m
    → suc (measure n) ≤ measure m + 15 * arrival st
unfolding disconnect
Step-measure {m} b (serve j o e q cl h) d v w = omega (arith, serve-measure m j o d v e q h)
Step-measure {m} b (move j {c} {c'} e mv) d v w = elim (Move-weight mv) [
  | inl less ↦ omega (arith, less, sum_of-set weight m.conns j c c' e)
  | inr (waits, p, ps, there, no_range, no_refusal) ↦ absurd (
      neither p
        (Plain-passes b m.server.done m.server.notify c p ps
          (All-get (Plain b m.server.done m.server.notify) m.conns j c w.plain e) waits there)
        no_range no_refusal)
]
  where
    neither : (p : Packet) → (p.id ≡ range) ⊎ (p.id ≡ refuse) → p.id ≢ range → p.id ≢ refuse → ⊥
    neither p (inl i) x y = x i
    neither p (inr i) x y = y i
Step-measure {m} b (arrive new slot phase {a = a} ph un free ac cl) d v w = omega (
  arith,
  accept-ahead m.server new ac,
  sum_of-append weight m.conns (new_conn new slot phase ∷ []),
  new_weight ph,
)
  where
    new_weight : (phase ≡ asking) ⊎ (phase ≡ registering) → weight (new_conn new slot phase) ≤ 13
    new_weight (inl e) = ground arith
    new_weight (inr e) = ground arith
Step-measure {m} b (turned_away new un ac drop) d v w = omega (arith, accept-ahead m.server new ac)
Step-measure {m} b (leave j {c} e ph q cl) d v w = omega (arith, sum_of-remove weight m.conns j c e)

Reaches-some : (l : ℤ) → (b : ℕ) × Reaches b l
Reaches-some (pos l) = (l + nassign, omega arith)
Reaches-some (negsuc l) = (0, tt)

module _ (max_clients : ℕ) (listen limit junk : ℤ) where
  Run-measure :
      {n : Net} {s : List Sent} (r : Run (fresh (sock_init max_clients listen limit junk)) n s)
      → events r + measure n ≤ 3006 * remaining limit 0 + 15 * arrivals r
  unfolding sock_init
  Run-measure start = omega arith
  Run-measure (later r st) =
      let (b, h) = Reaches-some limit in
      omega (
        arith,
        Run-measure r,
        Step-measure b st (Run-Seated r (λ fd. omega arith) tt).1
            (reachable-IsBounded max_clients listen limit junk (Run-Trace r))
            (Run-Orderly b max_clients listen limit junk h r),
      )

-- The network never runs for ever, unless clients come for ever: with a limit from 0 to max_limit the
-- number of its events since its start is at most 3006 for each range that the limit needs, and 15
-- for each client that came, whatever the clients do and in whatever order; and an int always holds
-- highest_assigned.
pub run_bounded :
    {n : Net} {s : List Sent} (max_clients : ℕ) (listen : ℤ) (l : ℕ) (junk : ℤ)
    → (r : Run (fresh (sock_init max_clients listen (pos l) junk)) n s) → l ≤ max_limit
    → (events r ≤ 3006 * ((l + 999) / 1000) + 15 * arrivals r)
      × (n.server.highest_assigned ≤ max_limit)
run_bounded max_clients listen l junk r small = (
  omega (arith, Run-measure max_clients listen (pos l) junk r),
  highest_fits max_clients listen l junk (Run-Trace r) small,
)

-- ===== src/Network/Room.antt =====
-- manage.c, res->perfnums: whether the array of results has room for what the workers find.
use perfnum.Compute.Perfect.Spec.{aliquot}
use perfnum.Prelude.{
  sym, ◌==◌, ℕ, ◌+◌, ◌≤◌, ◌<◌, ◌≡◌, inl, inr, refl, ◌∙◌, ap, subst, ℤ, pos, Bool, true, false, ◌&&◌,
  some, List, [], ◌∷◌, ◌++◌, map, length, take-set_end, get_elem?, leb, Option-cases, Bool-cases,
  arith,
}
use perfnum.Packet.{PacketId, perf_num, done, closed, notify, kill, Packet, Sent}
use perfnum.Manage.Sock.{
  SockRes, Reply, sperfnums, found, on_perfnum, sock_handle_packet, dispatch, on_done, on_closed,
  on_notify,
}
use perfnum.Manage.Sock.Accept.{Accepted, accept_client, disconnect}
use perfnum.Manage.Sock.Bounds.{handle-faults, reachable-IsBounded, Trace-limit}
use perfnum.Manage.Sock.Loop.{sock_init}
use perfnum.Network.{
  Conn, Move, ask, take_range, told_closed, refused, pass_over, test_perfect, test_other,
  range_over, quit_asking, quit_waiting, quit_testing, register, hear, quit_listening, push,
  deliver, Net, new_conn, Step, serve, move, arrive, turned_away, leave, Run, start, later, fresh,
}
use perfnum.Network.Count.{sum_of-le, underway, is_report, reports_of}
use perfnum.Network.Conserve.{copies, says, up_to}
use perfnum.Network.Balance.{Balance}
use perfnum.Network.Copies.{is_natural, all_natural, shorter, length-take_all}
use perfnum.Network.Complete.{reachable-Balance, says-aliquot, Run-Trace}
use perfnum.Network.All.{All, All-set, All-get, All-append, All-remove}

abbrev is_genuine : PacketId → Packet → Bool
is_genuine perf_num p = is_natural p.first
is_genuine _ p = true

abbrev all_genuine : List Packet → Bool
all_genuine [] = true
all_genuine (p ∷ ps) = is_genuine p.id p && all_genuine ps

-- The numbers on the way to the server are not negative.
abbrev Genuine : Conn → Type 0
Genuine c = all_genuine c.to_server ≡ true

all_genuine-append :
    (ps : List Packet) (p : Packet)
    → all_genuine ps ≡ true
    → is_genuine p.id p ≡ true
    → all_genuine (ps ++ p ∷ []) ≡ true
all_genuine-append [] p h g = ground arith
all_genuine-append (q ∷ ps) p h g = ground (arith, all_genuine-append ps p)

all_natural-append :
    (ns : List ℤ) (n : ℤ)
    → all_natural ns ≡ true
    → is_natural n ≡ true
    → all_natural (ns ++ n ∷ []) ≡ true
all_natural-append [] n h g = ground arith
all_natural-append (m ∷ ns) n h g = ground (arith, all_natural-append ns n)

Move-Genuine : {c c' : Conn} {lost : List (ℤ × ℤ)} → Move c c' lost → Genuine c → Genuine c'
Move-Genuine {c} (ask p e) h = all_genuine-append c.to_server (record p { id = done }) h refl
Move-Genuine (take_range w e i a b) h = h
Move-Genuine (told_closed w e i) h = h
Move-Genuine (refused w e i) h = h
Move-Genuine (pass_over w e i) h = h
Move-Genuine {c} (test_perfect {i = i} p e le t) h =
    all_genuine-append c.to_server (record p { id = perf_num; first = pos i }) h refl
Move-Genuine (test_other e le t) h = h
Move-Genuine (range_over e le) h = h
Move-Genuine (quit_asking e) h = h
Move-Genuine (quit_waiting e) h = h
Move-Genuine {c} (quit_testing p e le) h = all_genuine-append c.to_server _ h refl
Move-Genuine {c} (register p e) h = all_genuine-append c.to_server (record p { id = notify }) h refl
Move-Genuine (hear e q) h = h
Move-Genuine (quit_listening e) h = h

push-Genuine : (s : Sent) (c : Conn) → Genuine c → Genuine (push s c)
push-Genuine s c h = ground arith

map-Genuine : (s : Sent) (cs : List Conn) → All Genuine cs → All Genuine (map (push s) cs)
map-Genuine s [] h = tt
map-Genuine s (c ∷ cs) h = (push-Genuine s c h.0, map-Genuine s cs h.1)

deliver-Genuine : (ss : List Sent) (cs : List Conn) → All Genuine cs → All Genuine (deliver ss cs)
deliver-Genuine [] cs h = h
deliver-Genuine (s ∷ ss) cs h = deliver-Genuine ss (map (push s) cs) (map-Genuine s cs h)

dispatch-natural :
    (i : PacketId) (fd : ℤ) (t : SockRes) (p o : Packet) {r : Reply}
    → dispatch i fd t p o ≡ some r
    → all_natural (found t) ≡ true
    → is_genuine i p ≡ true
    → all_natural (found r.res) ≡ true
unfolding dispatch on_perfnum on_done on_closed on_notify
dispatch-natural perf_num fd t p o e h g =
    ground
      (arith, take-set_end t.perfnums t.nperfnums p.first, all_natural-append (found t) p.first h g)
dispatch-natural done fd t p o e h g = ground arith
dispatch-natural closed fd t p o e h g = ground arith
dispatch-natural notify fd t p o e h g = ground arith
dispatch-natural kill fd t p o e h g = ground arith
dispatch-natural _ fd t p o e h g = ground arith

-- No number that has been found, or is on its way, is negative.
abbrev Naturals : Net → Type 0
Naturals n = (all_natural (found n.server) ≡ true) × All Genuine n.conns

accept-found :
    (t : SockRes) (fd : ℤ) {a : Accepted} → accept_client t fd ≡ some a → found a.res ≡ found t
unfolding accept_client
accept-found t fd e = ground arith

Step-Naturals : {m n : Net} {s : List Sent} → Step m n s → Naturals m → Naturals n
unfolding sock_handle_packet disconnect
Step-Naturals {m} (serve j {c} {p} {ps} o {r} e q cl h) (natural, genuine) =
    let whole : all_genuine (p ∷ ps) ≡ true =
      subst (λ xs. all_genuine xs ≡ true) q (All-get Genuine m.conns j c genuine e) in
    (
      dispatch-natural p.id c.fd m.server p o h natural (ground arith),
      deliver-Genuine r.sent _
          (All-set Genuine m.conns j (record c { to_server = ps }) genuine (ground arith)),
    )
Step-Naturals {m} (move j {c} {c'} e mv) (natural, genuine) = (
  natural,
  All-set Genuine m.conns j c' genuine (Move-Genuine mv (All-get Genuine m.conns j c genuine e)),
)
Step-Naturals {m} (arrive new slot phase ph un free ac cl) (natural, genuine) = (
  ap all_natural (accept-found m.server new ac) ∙ natural,
  All-append Genuine m.conns (new_conn new slot phase) genuine refl,
)
Step-Naturals {m} (turned_away new un ac drop) (natural, genuine) =
    (ap all_natural (accept-found m.server new ac) ∙ natural, genuine)
Step-Naturals {m} (leave j e ph q cl) (natural, genuine) =
    (natural, All-remove Genuine m.conns j genuine)

Run-Naturals : {m n : Net} {s : List Sent} → Run m n s → Naturals m → Naturals n
Run-Naturals start v = v
Run-Naturals (later r st) v = Step-Naturals st (Run-Naturals r v)

-- A number that has been found or is being read is perfect and assigned, and there once.
held :
    (k : ℕ) (n : Net) (j : ℕ) (c : Conn) (p : Packet) (ps : List Packet)
    → Balance k n
    → get_elem? n.conns j ≡ some c
    → c.to_server ≡ p ∷ ps
    → p.id ≡ perf_num
    → (says k ≡ true → copies k (p.first ∷ found n.server) ≤ up_to k n.server.highest_assigned)
      × (says k ≡ false → copies k (p.first ∷ found n.server) ≡ 0)
held k n j c p ps (perfect, other) e q number =
    let arrives : underway k c ≡ is_report k p.id p + reports_of k ps = ap (reports_of k) q in
    let here = sum_of-le (underway k) n.conns j c e in
    (
      λ t. ground (arith, perfect t, arrives, here, number),
      λ t. ground (arith, other t, arrives, here, number),
    )

among :
    (k : ℕ) (n : Net) (j : ℕ) (c : Conn) (p : Packet) (ps : List Packet) (known : List ℤ)
    → Balance k n
    → get_elem? n.conns j ≡ some c
    → c.to_server ≡ p ∷ ps
    → p.id ≡ perf_num
    → (0 < k → k ≤ n.server.highest_assigned → says k ≡ true → 1 ≤ copies k known)
    → copies k (p.first ∷ found n.server) ≤ copies k known
among k n j c p ps known b e q number all = elim (Bool-cases (says k)) [
  | inl t ↦ assigned t (leb 1 k) (leb k n.server.highest_assigned) refl refl
  | inr t ↦ omega (arith, (held k n j c p ps b e q number).1 t)
]
  where
    assigned :
        says k ≡ true
        → (lo hi : Bool) → leb 1 k ≡ lo
        → leb k n.server.highest_assigned ≡ hi
        → copies k (p.first ∷ found n.server) ≤ copies k known
    assigned t true true lo hi = ground (
      arith,
      (held k n j c p ps b e q number).0 t,
      all (ground (arith, lo)) (ground (arith, hi)) t,
    )
    assigned t _ _ lo hi = ground (arith, (held k n j c p ps b e q number).0 t)

-- In every state of the network the server handles the first packet on its way from any connection:
-- the array of results has room for the number, if it is one. The limit is at most 24999000, and the
-- condition is that `known` has at most SPERFNUMS members, with each perfect number up to
-- highest_assigned among them.
pub results_fit :
    {n : Net} {s : List Sent} (max_clients : ℕ) (listen : ℤ) (l : ℕ) (junk : ℤ) (known : List ℤ)
    → (j : ℕ) (c : Conn) (p : Packet) (ps : List Packet) (outbound : Packet)
    → Run (fresh (sock_init max_clients listen (pos l) junk)) n s
    → l ≤ 24999000
    → length known ≤ sperfnums
    → ((k : ℕ)
        → 0 < k
        → k ≤ n.server.highest_assigned
        → (aliquot k == k) ≡ true
        → 1 ≤ copies k known)
    → get_elem? n.conns j ≡ some c
    → c.to_server ≡ p ∷ ps
    → (r : Reply) × (sock_handle_packet c.fd n.server p outbound ≡ some r)
unfolding sock_init
results_fit {n} max_clients listen l junk known j c p ps o r small few all e q =
    elim (Option-cases (sock_handle_packet c.fd n.server p o)) [
      | inr handled ↦ handled
      | inl fault ↦
          let (number, full) = (handle-faults c.fd n.server p o).0 fault in
          let bounded = reachable-IsBounded max_clients listen (pos l) junk (Run-Trace r) in
          let (natural, genuine) = Run-Naturals r (refl, tt) in
          let whole : all_genuine (p ∷ ps) ≡ true =
            subst (λ xs. all_genuine xs ≡ true) q (All-get Genuine n.conns j c genuine e) in
          absurd (
            omega (
              arith,
              shorter (p.first ∷ found n.server) known (ground (arith, number)) (λ k.
                  among k n j c p ps known (reachable-Balance max_clients listen (pos l) junk k r) e
                    q number
                    (λ lo hi says_so. all k lo hi (
                      sym (
                        says-aliquot k lo
                          (ground (arith, hi, bounded.assigned, Trace-limit (Run-Trace r), small)))
                      ∙ says_so))),
              length-take_all n.server.nperfnums n.server.perfnums,
              bounded.array,
              bounded.filled,
            ))
    ]

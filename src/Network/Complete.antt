-- ===== src/Network/Complete.antt =====
-- What the search in socket mode finds.
use perfnum.Prelude.{
  ℕ, ◌≤◌, ◌<◌, ◌≡◌, refl, sym, subst, ℤ, pos, true, List, [], ◌∷◌, append-nil, ◌==◌, if◌then◌else◌,
  arith,
}
use perfnum.Packet.{Sent}
use perfnum.Compute.Perfect.Spec.{aliquot}
use perfnum.Compute.Perfect.Correct.{is_perfect_number_small}
use perfnum.Manage.Sock.{max_limit, found}
use perfnum.Manage.Sock.Loop.{sock_init}
use perfnum.Manage.Sock.Trace.{Trace, handled, accepted, left}
use perfnum.Manage.Sock.Bounds.{reachable-IsBounded, highest_fits, Trace-limit}
use perfnum.Network.{
  Phase, testing, Conn, ranges_in, Net, serve, move, arrive, turned_away, leave, Run, start, later,
  fresh,
}
use perfnum.Network.Count.{sum_of, in_ranges, pending, underway}
use perfnum.Network.Conserve.{says, copies}
use perfnum.Network.Balance.{Distinct, Balance, Step-Distinct, Step-Balance}

Run-Distinct : {m n : Net} {s : List Sent} → Run m n s → Distinct m → Distinct n
Run-Distinct start d = d
Run-Distinct (later r st) d = Step-Distinct st (Run-Distinct r d)

Run-Balance :
    {m n : Net} {s : List Sent} (k : ℕ) → Run m n s → Distinct m → Balance k m → Balance k n
Run-Balance k start d b = b
Run-Balance k (later r st) d b = Step-Balance k st (Run-Distinct r d) (Run-Balance k r d b)

pub reachable-Balance :
    {n : Net} {s : List Sent} (max_clients : ℕ) (listen limit junk : ℤ) (k : ℕ)
    → Run (fresh (sock_init max_clients listen limit junk)) n s
    → Balance k n
unfolding sock_init
reachable-Balance max_clients listen limit junk k r =
    Run-Balance k r (λ fd. omega arith) (λ t. ground arith, λ t. refl)

-- What the server does in the network is a sequence of its events, with the same packets sent.
pub Run-Trace : {m n : Net} {s : List Sent} → Run m n s → Trace m.server n.server s
Run-Trace start = Trace.start
Run-Trace (later r (serve j {c} {p} o {r = a} e q cl h)) =
    Trace.later (Run-Trace r) (handled c.slot c.fd p o a cl h)
Run-Trace {m} {n} (later {s = s} r (move j e mv)) =
    subst (Trace m.server n.server) (sym (append-nil s)) (Run-Trace r)
Run-Trace (later r (arrive fd slot phase {a = a} ph un free ac cl)) =
    Trace.later (Run-Trace r) (accepted fd a un ac)
Run-Trace (later r (turned_away fd {a = a} un ac drop)) =
    Trace.later (Run-Trace r) (accepted fd a un ac)
Run-Trace (later r (leave j {c} e ph q cl)) = Trace.later (Run-Trace r) (left c.slot c.fd cl)

-- A connection with nothing left to do: no packet on its way to the server, no range on its way to
-- the client, and no range being tested.
abbrev pub Rests : Phase → Type 0
Rests (testing i stop) = ⊥
Rests _ = Unit

abbrev pub Idle : Conn → Type 0
Idle c = (c.to_server ≡ []) × (ranges_in c.to_client ≡ []) × Rests c.phase

abbrev pub AllIdle : List Conn → Type 0
AllIdle [] = Unit
AllIdle (c ∷ cs) = Idle c × AllIdle cs

idle_pending :
    (k : ℕ) (c : Conn) (p : Phase)
    → c.phase ≡ p
    → Rests p
    → ranges_in c.to_client ≡ []
    → pending k c ≡ 0
idle_pending k c (testing i stop) e h r = absurd h
idle_pending k c _ e h r = ground arith

pub AllIdle-pending :
    (k : ℕ) (cs : List Conn)
    → AllIdle cs
    → (sum_of (underway k) cs ≡ 0) × (sum_of (pending k) cs ≡ 0)
AllIdle-pending k [] h = (refl, refl)
AllIdle-pending k (c ∷ cs) ((no_packet, no_range, rests), rest) =
    let (u, p) = AllIdle-pending k cs rest in
    (ground (arith, u), omega (arith, p, idle_pending k c c.phase refl rests no_range))

pub says-aliquot : (k : ℕ) → 0 < k → k ≤ 25000000 → says k ≡ (aliquot k == k)
says-aliquot k h le = rw (is_perfect_number_small k h le, says)

-- When the server, started with a limit of at most 25000000, has announced the end and no connection
-- has work left, each number up to the limit that no client has given up stands among the numbers found exactly once if it is perfect, and not at all if it is
-- not, however the clients came, went, worked and were interrupted.
pub search_complete :
    {n : Net} {s : List Sent} (max_clients : ℕ) (listen : ℤ) (l : ℕ) (junk : ℤ) (k : ℕ)
    → Run (fresh (sock_init max_clients listen (pos l) junk)) n s
    → n.server.done ≡ true
    → AllIdle n.conns
    → in_ranges k n.given_up ≡ 0
    → 0 < k
    → k ≤ l
    → l ≤ 25000000
    → copies k (found n.server) ≡ (if aliquot k == k then 1 else 0)
unfolding sock_init
search_complete {n} max_clients listen l junk k r over idle kept lo hi small =
    let bounded = reachable-IsBounded max_clients listen (pos l) junk (Run-Trace r) in
    let (no_report, no_work) = AllIdle-pending k n.conns idle in
    let (perfect, other) = reachable-Balance max_clients listen (pos l) junk k r in
    ground (
      arith,
      says-aliquot k lo (omega arith),
      perfect,
      other,
      bounded.finished over,
      Trace-limit (Run-Trace r),
    )

-- With a limit from 0 to max_limit, an int always holds highest_assigned, and each perfect number up
-- to it is in exactly one place, once: among the numbers that the server has found, in a packet on
-- its way to the server, in a range that a worker has or will read, or in one that was given up. No
-- other number is found or on its way. Here a number is perfect if is_perfect_number says so.
pub search-Balance :
    {n : Net} {s : List Sent} (max_clients : ℕ) (listen : ℤ) (l : ℕ) (junk : ℤ) (k : ℕ)
    → Run (fresh (sock_init max_clients listen (pos l) junk)) n s
    → l ≤ max_limit
    → Balance k n × (n.server.highest_assigned ≤ max_limit)
unfolding sock_init
search-Balance max_clients listen l junk k r small = (
  reachable-Balance max_clients listen (pos l) junk k r,
  highest_fits max_clients listen l junk (Run-Trace r) small,
)

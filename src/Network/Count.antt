-- ===== src/Network/Count.antt =====
-- Sums over the connections: what is on the way, and who is at work.
use perfnum.Prelude.{
  ℕ, zero, suc, ◌+◌, ◌*◌, ◌≤◌, ◌≡◌, refl, ℤ, pos, ◌==ℤ◌, some, List, [], ◌∷◌, ◌++◌, map, get_elem?,
  set, leb, ◌&&◌, if◌then◌else◌, arith,
}
use perfnum.Packet.{PacketId, perf_num, Packet, Sent}
use perfnum.Network.{Phase, testing, Conn, range_of, ranges_in, push, deliver, remove}

abbrev pub sum_of : (Conn → ℕ) → List Conn → ℕ
sum_of f [] = 0
sum_of f (c ∷ cs) = f c + sum_of f cs

-- 1 if k is from a to b, else 0.
abbrev pub contains : ℕ → ℤ → ℤ → ℕ
contains k (pos a) (pos b) = if leb a k && leb k b then 1 else 0
contains k _ _ = 0

-- How many of the ranges k is in.
abbrev pub in_ranges : ℕ → List (ℤ × ℤ) → ℕ
in_ranges k [] = 0
in_ranges k ((a, b) ∷ rs) = contains k a b + in_ranges k rs

-- How often k is reported by the packets.
abbrev pub is_report : ℕ → PacketId → Packet → ℕ
is_report k perf_num p = if p.first ==ℤ pos k then 1 else 0
is_report k _ p = 0

abbrev pub reports_of : ℕ → List Packet → ℕ
reports_of k [] = 0
reports_of k (p ∷ ps) = is_report k p.id p + reports_of k ps

abbrev at_work : ℕ → Phase → ℕ
at_work k (testing i stop) = contains k (pos i) (pos stop)
at_work k _ = 0

-- How often the connection still has k to test.
abbrev pub pending : ℕ → Conn → ℕ
pending k c = at_work k c.phase + in_ranges k (ranges_in c.to_client)

-- How often k has been found and not yet read by the server.
abbrev pub underway : ℕ → Conn → ℕ
underway k c = reports_of k c.to_server

-- 1 if the connection has this descriptor.
abbrev pub has_fd : ℤ → Conn → ℕ
has_fd fd c = if c.fd ==ℤ fd then 1 else 0

pub in_ranges-append :
    (k : ℕ) (rs ss : List (ℤ × ℤ)) → in_ranges k (rs ++ ss) ≡ in_ranges k rs + in_ranges k ss
in_ranges-append k [] ss = omega arith
in_ranges-append k ((a, b) ∷ rs) ss = omega (arith, in_ranges-append k rs ss)

pub in_ranges-ranges_in :
    (k : ℕ) (ps : List Packet) (p : Packet)
    → in_ranges k (ranges_in (ps ++ p ∷ []))
      ≡ in_ranges k (ranges_in ps) + in_ranges k (range_of p.id p)
in_ranges-ranges_in k [] p = omega (arith, in_ranges-append k (range_of p.id p) [])
in_ranges-ranges_in k (q ∷ ps) p = omega (
  arith,
  in_ranges-append k (range_of q.id q) (ranges_in (ps ++ p ∷ [])),
  in_ranges-append k (range_of q.id q) (ranges_in ps),
  in_ranges-ranges_in k ps p,
)

pub reports_of-append :
    (k : ℕ) (ps : List Packet) (p : Packet)
    → reports_of k (ps ++ p ∷ []) ≡ reports_of k ps + reports_of k (p ∷ [])
reports_of-append k [] p = omega arith
reports_of-append k (q ∷ ps) p = omega (arith, reports_of-append k ps p)

module _ (f : Conn → ℕ) where
  pub sum_of-set :
      (cs : List Conn) (j : ℕ) (c c' : Conn)
      → get_elem? cs j ≡ some c
      → sum_of f (set cs j c') + f c ≡ sum_of f cs + f c'
  sum_of-set [] j c c' e = cc
  sum_of-set (d ∷ cs) zero c c' e = let same : d ≡ c = cc in rw same (omega arith)
  sum_of-set (d ∷ cs) (suc j) c c' e = omega (arith, sum_of-set cs j c c' e)

  pub sum_of-remove :
      (cs : List Conn) (j : ℕ) (c : Conn)
      → get_elem? cs j ≡ some c
      → sum_of f (remove cs j) + f c ≡ sum_of f cs
  sum_of-remove [] j c e = cc
  sum_of-remove (d ∷ cs) zero c e = let same : d ≡ c = cc in rw same (omega arith)
  sum_of-remove (d ∷ cs) (suc j) c e = omega (arith, sum_of-remove cs j c e)

  pub sum_of-append : (cs ds : List Conn) → sum_of f (cs ++ ds) ≡ sum_of f cs + sum_of f ds
  sum_of-append [] ds = omega arith
  sum_of-append (c ∷ cs) ds = omega (arith, sum_of-append cs ds)

  pub sum_of-le : (cs : List Conn) (j : ℕ) (c : Conn) → get_elem? cs j ≡ some c → f c ≤ sum_of f cs
  sum_of-le cs j c e = omega (arith, sum_of-remove cs j c e)

-- A packet adds its range once for each connection with its descriptor, and nothing else.
pending-push :
    (k : ℕ) (s : Sent) (c : Conn)
    → pending k (push s c)
      ≡ pending k c + in_ranges k (range_of s.packet.id s.packet) * has_fd s.fd c
pending-push k s c = ground (arith, in_ranges-ranges_in k c.to_client s.packet)

pub pending-map :
    (k : ℕ) (s : Sent) (cs : List Conn)
    → sum_of (pending k) (map (push s) cs)
      ≡ sum_of (pending k) cs
        + in_ranges k (range_of s.packet.id s.packet) * sum_of (has_fd s.fd) cs
pending-map k s [] = omega arith
pending-map k s (c ∷ cs) = omega (arith, pending-push k s c, pending-map k s cs)

pub underway-map :
    (k : ℕ) (s : Sent) (cs : List Conn)
    → sum_of (underway k) (map (push s) cs) ≡ sum_of (underway k) cs
underway-map k s [] = refl
underway-map k s (c ∷ cs) = ground (arith, underway-map k s cs)

pub has_fd-map :
    (fd : ℤ) (s : Sent) (cs : List Conn)
    → sum_of (has_fd fd) (map (push s) cs) ≡ sum_of (has_fd fd) cs
has_fd-map fd s [] = refl
has_fd-map fd s (c ∷ cs) = ground (arith, has_fd-map fd s cs)

pub underway-deliver :
    (k : ℕ) (ss : List Sent) (cs : List Conn)
    → sum_of (underway k) (deliver ss cs) ≡ sum_of (underway k) cs
underway-deliver k [] cs = refl
underway-deliver k (s ∷ ss) cs =
    omega (arith, underway-deliver k ss (map (push s) cs), underway-map k s cs)

pub has_fd-deliver :
    (fd : ℤ) (ss : List Sent) (cs : List Conn)
    → sum_of (has_fd fd) (deliver ss cs) ≡ sum_of (has_fd fd) cs
has_fd-deliver fd [] cs = refl
has_fd-deliver fd (s ∷ ss) cs =
    omega (arith, has_fd-deliver fd ss (map (push s) cs), has_fd-map fd s cs)

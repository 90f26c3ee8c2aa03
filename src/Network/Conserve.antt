-- ===== src/Network/Conserve.antt =====
-- Where each number is while the search runs.
use perfnum.Prelude.{
  ℕ, ◌+◌, ◌-◌, ◌*◌, ◌≡◌, ◌⊎◌, inl, inr, refl, ap, ℤ, pos, ◌==ℤ◌, Bool, true, false, ◌&&◌, none,
  some, List, [], ◌∷◌, ◌++◌, map, take-set_end, leb, if◌then◌else◌, arith,
}
use perfnum.Packet.{
  PacketId, range, perf_num, closed, notify, kill, pid_client, done, Packet, Sent, send_packet,
}
use perfnum.Compute.Perfect.{is_perfect_number}
use perfnum.Manage.Sock.{
  SockRes, Reply, nassign, on_perfnum, on_done, on_closed, on_notify, found, dispatch, next_range,
  after_missed,
}
use perfnum.Manage.Sock.Assign.{ranges, add_range, ranges-tell_notify, ranges-send_history}
use perfnum.Network.{
  Conn, range_of, Move, ask, take_range, told_closed, refused, pass_over, test_perfect, test_other,
  range_over, quit_asking, quit_waiting, quit_testing, register, hear, quit_listening, push,
  deliver, Net,
}
use perfnum.Network.Count.{
  sum_of, contains, in_ranges, is_report, pending, underway, has_fd, reports_of-append, pending-map,
  underway-deliver,
}

-- What is_perfect_number says of k, and false where it does not return.
abbrev pub says : ℕ → Bool
says k = elim (is_perfect_number k) [ none ↦ false | some b ↦ b ]

-- How often k is in the list.
abbrev pub copies : ℕ → List ℤ → ℕ
copies k [] = 0
copies k (n ∷ ns) = (if n ==ℤ pos k then 1 else 0) + copies k ns

-- 1 if k is from 1 to h, else 0.
abbrev pub up_to : ℕ → ℕ → ℕ
up_to k h = if leb 1 k && leb k h then 1 else 0

copies-append :
    (k : ℕ) (ns : List ℤ) (n : ℤ)
    → copies k (ns ++ n ∷ []) ≡ copies k ns + (if n ==ℤ pos k then 1 else 0)
copies-append k [] n = omega arith
copies-append k (m ∷ ns) n = omega (arith, copies-append k ns n)

-- The balance of one number: found, found and on the way to the server, still to be tested, or given up.
abbrev pub settled : ℕ → Net → ℕ
settled k n = copies k (found n.server) + sum_of (underway k) n.conns

abbrev pub unsettled : ℕ → Net → ℕ
unsettled k n = sum_of (pending k) n.conns + in_ranges k n.given_up

-- A step of a client moves its numbers from one account to another.
pub Move-account :
    {c c' : Conn} {lost : List (ℤ × ℤ)} (k : ℕ)
    → Move c c' lost
    → (says k ≡ true → underway k c' + pending k c' + in_ranges k lost ≡ underway k c + pending k c)
      × (says k ≡ false → underway k c' ≡ underway k c)
      × (c'.fd ≡ c.fd)
Move-account {c} k (ask p e) =
    ground (arith, reports_of-append k c.to_server (record p { id = done }))
Move-account k (take_range w e i a b) = ground arith
Move-account k (told_closed w e i) = ground arith
Move-account k (refused w e i) = ground arith
Move-account k (pass_over w e i) = ground arith
Move-account {c} k (test_perfect {i = i} p e le t) =
    ground (arith, reports_of-append k c.to_server (record p { id = perf_num; first = pos i }))
Move-account k (test_other e le t) = ground arith
Move-account k (range_over e le) = ground arith
Move-account k (quit_asking e) = ground arith
Move-account k (quit_waiting e) = ground arith
Move-account {c} k (quit_testing p e le) =
    ground (arith, reports_of-append k c.to_server (record p { id = closed; first = pid_client }))
Move-account {c} k (register p e) =
    ground (arith, reports_of-append k c.to_server (record p { id = notify }))
Move-account k (hear e h) = ground arith
Move-account k (quit_listening e) = ground arith

-- What the server's answer to a packet does to the numbers found and to the assignments.
abbrev pub Served : ℕ → ℤ → SockRes → PacketId → Packet → Reply → Type 0
Served k fd res i p r =
    (copies k (found r.res) ≡ copies k (found res) + is_report k i p)
    × (((r.res.highest_assigned ≡ res.highest_assigned) × (ranges r.sent ≡ []))
        ⊎ ((r.res.highest_assigned ≡ res.highest_assigned + nassign)
            × (r.sent ≡ send_packet fd (next_range res))))

pub dispatch-Served :
    (k : ℕ) (i : PacketId) (fd : ℤ) (res : SockRes) (p o : Packet) (r : Reply)
    → p.id ≡ i
    → dispatch i fd res p o ≡ some r
    → Served k fd res i p r
unfolding dispatch on_perfnum on_done on_closed on_notify
dispatch-Served k perf_num fd res p o r i e = ground (
  arith,
  ranges-tell_notify res p,
  take-set_end res.perfnums res.nperfnums p.first,
  copies-append k (found res) p.first,
)
dispatch-Served k done fd res p o r i e =
    ground (arith, ranges-tell_notify res (record o { id = done }))
dispatch-Served k closed fd res p o r i e = ground (arith, ranges-tell_notify res p)
dispatch-Served k notify fd res p o r i e =
    ground (arith, ranges-send_history fd res (after_missed res o))
dispatch-Served k kill fd res p o r i e = ground arith
dispatch-Served k _ fd res p o r i e = ground arith

no_range :
    (k : ℕ) (i : PacketId) (p : Packet) (rest : List (ℤ × ℤ))
    → add_range i p rest ≡ []
    → (in_ranges k (range_of i p) ≡ 0) × (rest ≡ [])
no_range k range p rest e = cc
no_range k _ p rest e = (refl, e)

pending-deliver :
    (k : ℕ) (ss : List Sent) (cs : List Conn)
    → ranges ss ≡ []
    → sum_of (pending k) (deliver ss cs) ≡ sum_of (pending k) cs
pending-deliver k [] cs e = refl
pending-deliver k (s ∷ ss) cs e =
    let (none_here, none_later) = no_range k s.packet.id s.packet (ranges ss) e in
    omega (
      arith,
      pending-deliver k ss (map (push s) cs) none_later,
      pending-map k s cs,
      ap (λ (t : ℕ). t * sum_of (has_fd s.fd) cs) none_here,
    )

up_to-block :
    (k h : ℕ)
    → up_to k (h + nassign) ≡ up_to k h + contains k (pos (h + 1)) (pos (h + 1 + nassign - 1))
up_to-block k h = ground arith

-- The packets on the way after the server has answered.
pub serve-account :
    (k : ℕ) (res : SockRes) (cs : List Conn) (c : Conn) (i : PacketId) (p : Packet) (r : Reply)
    → sum_of (has_fd c.fd) cs ≡ 1
    → Served k c.fd res i p r
    → (sum_of (underway k) (deliver r.sent cs) ≡ sum_of (underway k) cs)
      × (sum_of (pending k) (deliver r.sent cs) + up_to k res.highest_assigned
          ≡ sum_of (pending k) cs + up_to k r.res.highest_assigned)
serve-account k res cs c i p r one (found_now, inl (same, no_ranges)) =
    (underway-deliver k r.sent cs, rw same (omega (arith, pending-deliver k r.sent cs no_ranges)))
serve-account k res cs c i p r one (found_now, inr (more, one_range)) = (
  underway-deliver k r.sent cs,
  rw (more, one_range)
      (omega (
        arith,
        pending-map k (record { fd = c.fd; packet = next_range res }) cs,
        up_to-block k res.highest_assigned,
        ap
            (λ (t : ℕ).
              t
              * contains k (pos (res.highest_assigned + 1))
                  (pos (res.highest_assigned + 1 + nassign - 1)))
            one,
      )),
)

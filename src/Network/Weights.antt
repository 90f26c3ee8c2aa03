-- ===== src/Network/Weights.antt =====
-- How much the network still has to do, as a number: what is assigned later, what is on the way and
-- where each client stands.
use perfnum.Prelude.{
  ℕ, zero, suc, ◌+◌, ◌-◌, ◌*◌, ◌/◌, ◌≤◌, ◌<◌, ◌≡◌, ◌≢◌, ◌⊎◌, inl, inr, refl, ℤ, pos, negsuc,
  minus_one, ◌==ℤ◌, ltb_int, true, some, some_inj, List, [], ◌∷◌, ◌++◌, map, take, length,
  if◌then◌else◌, Bool-cases, arith,
}
use perfnum.Packet.{
  PacketId, done, closed, range, perf_num, notify, refuse, Packet, Sent, pid_client, send_packet,
}
use perfnum.Manage.Sock.{
  SockRes, Reply, nassign, sperfnums, on_perfnum, on_done, on_closed, on_notify, send_found,
  last_found, send_history, found, tell_notify, after_missed, dispatch,
}
use perfnum.Manage.Sock.Bounds.{IsBounded}
use perfnum.Network.{
  Phase, asking, waiting, testing, registering, listening, finished, Conn, with_done, Move, ask,
  take_range, told_closed, refused, pass_over, test_perfect, test_other, range_over, quit_asking,
  quit_waiting, quit_testing, register, hear, quit_listening, push, deliver,
}
use perfnum.Network.Count.{sum_of, has_fd}

-- A range: each number costs its test and its report.
abbrev range_weight : ℤ → ℤ → ℕ
range_weight (pos a) (pos b) = 3 * (suc b - a) + 6
range_weight _ _ = 6

abbrev pub in_weight : PacketId → Packet → ℕ
in_weight range p = range_weight p.first p.second
in_weight _ p = 1

abbrev pub out_weight : PacketId → ℕ
out_weight done = 3
out_weight perf_num = 2
out_weight closed = 2
out_weight notify = 10
out_weight _ = 1

abbrev pub in_weights : List Packet → ℕ
in_weights [] = 0
in_weights (p ∷ ps) = in_weight p.id p + in_weights ps

abbrev pub out_weights : List Packet → ℕ
out_weights [] = 0
out_weights (p ∷ ps) = out_weight p.id + out_weights ps

abbrev pub phase_weight : Phase → ℕ
phase_weight asking = 5
phase_weight waiting = 1
phase_weight (testing i stop) = 3 * (suc stop - i) + 6
phase_weight registering = 12
phase_weight listening = 1
phase_weight finished = 0

abbrev pub weight : Conn → ℕ
weight c = 1 + phase_weight c.phase + in_weights c.to_client + out_weights c.to_server

-- The ranges that are not assigned yet.
abbrev pub remaining : ℤ → ℕ → ℕ
remaining (pos l) h = (l - h + 999) / 1000
remaining (negsuc l) h = 0

abbrev pub sent_weight : List Sent → ℕ
sent_weight [] = 0
sent_weight (s ∷ ss) = in_weight s.packet.id s.packet + sent_weight ss

pub in_weights-append :
    (ps : List Packet) (p : Packet) → in_weights (ps ++ p ∷ []) ≡ in_weights ps + in_weight p.id p
in_weights-append [] p = omega arith
in_weights-append (q ∷ ps) p = omega (arith, in_weights-append ps p)

pub out_weights-append :
    (ps : List Packet) (p : Packet) → out_weights (ps ++ p ∷ []) ≡ out_weights ps + out_weight p.id
out_weights-append [] p = omega arith
out_weights-append (q ∷ ps) p = omega (arith, out_weights-append ps p)

in_weight-pos : (i : PacketId) (p : Packet) → 0 < in_weight i p
in_weight-pos range p = range_pos p.first p.second
  where
    range_pos : (a b : ℤ) → 0 < range_weight a b
    range_pos (pos a) (pos b) = omega arith
    range_pos (pos a) (negsuc b) = omega arith
    range_pos (negsuc a) b = omega arith
in_weight-pos _ p = omega arith

-- Each step of a client makes its connection lighter, but for an answer that it passes over.
pub Move-weight :
    {c c' : Conn} {lost : List (ℤ × ℤ)}
    → Move c c' lost
    → (weight c' < weight c)
      ⊎ ((c.phase ≡ waiting)
          × (p : Packet) × (ps : List Packet) × (c.to_client ≡ p ∷ ps)
          × (p.id ≢ range)
          × (p.id ≢ refuse))
Move-weight {c} (ask p e) = inl (ground (arith, out_weights-append c.to_server (with_done p)))
Move-weight {c} (take_range {p = p} w e i a b) = inl (ground arith)
Move-weight (told_closed w e i) = inl (ground arith)
Move-weight (refused w e i) = inl (ground arith)
Move-weight (pass_over {p = p} {ps = ps} w e over) =
    inr (w, p, ps, e, λ i. ground arith, λ i. ground arith)
Move-weight {c} (test_perfect {i = i} p e le t) =
    inl (ground (arith, out_weights-append c.to_server (record p { id = perf_num; first = pos i })))
Move-weight (test_other e le other) = inl (ground arith)
Move-weight (range_over e lt) = inl (ground arith)
Move-weight (quit_asking e) = inl (ground arith)
Move-weight (quit_waiting e) = inl (ground arith)
Move-weight {c} (quit_testing p e le) =
    inl (
      ground (arith, out_weights-append c.to_server (record p { id = closed; first = pid_client })))
Move-weight {c} (register p e) =
    inl (ground (arith, out_weights-append c.to_server (record p { id = notify })))
Move-weight (hear {p = p} e h) = inl (ground (arith, in_weight-pos p.id p))
Move-weight (quit_listening e) = inl (ground arith)

weight-push :
    (s : Sent) (c : Conn)
    → weight (push s c) ≡ weight c + in_weight s.packet.id s.packet * has_fd s.fd c
weight-push s c = ground (arith, in_weights-append c.to_client s.packet)

weight-map :
    (s : Sent) (cs : List Conn)
    → sum_of weight (map (push s) cs)
      ≡ sum_of weight cs + in_weight s.packet.id s.packet * sum_of (has_fd s.fd) cs
weight-map s [] = omega arith
weight-map s (c ∷ cs) = omega (arith, weight-push s c, weight-map s cs)

has_fd-map :
    (fd : ℤ) (s : Sent) (cs : List Conn)
    → sum_of (has_fd fd) (map (push s) cs) ≡ sum_of (has_fd fd) cs
has_fd-map fd s [] = refl
has_fd-map fd s (c ∷ cs) = ground (arith, has_fd-map fd s cs)

at_most_one : (w n : ℕ) → n ≤ 1 → w * n ≤ w
at_most_one w n le = grind arith

-- What the server sends weighs on one connection at most.
pub weight-deliver :
    (ss : List Sent) (cs : List Conn)
    → ((fd : ℤ) → sum_of (has_fd fd) cs ≤ 1)
    → sum_of weight (deliver ss cs) ≤ sum_of weight cs + sent_weight ss
weight-deliver [] cs d = omega arith
weight-deliver (s ∷ ss) cs d = omega (
  arith,
  weight-deliver ss (map (push s) cs) (λ fd. omega (arith, d fd, has_fd-map fd s cs)),
  weight-map s cs,
  at_most_one (in_weight s.packet.id s.packet) (sum_of (has_fd s.fd) cs) (d s.fd),
)

sent_weight-append : (xs ys : List Sent) → sent_weight (xs ++ ys) ≡ sent_weight xs + sent_weight ys
sent_weight-append [] ys = omega arith
sent_weight-append (x ∷ xs) ys = omega (arith, sent_weight-append xs ys)

sent_weight-send_found :
    (fd : ℤ) (ns : List ℤ) (o : Packet)
    → o.id ≡ perf_num
    → sent_weight (send_found fd ns o) ≡ length ns
unfolding send_found
sent_weight-send_found fd [] o e = omega arith
sent_weight-send_found fd (n ∷ ns) o e =
    ground (arith, sent_weight-send_found fd ns (record o { first = n }))

length-take_le : (n : ℕ) (xs : List ℤ) → length (take n xs) ≤ n
length-take_le zero xs = omega arith
length-take_le (suc n) [] = omega arith
length-take_le (suc n) (x ∷ xs) = omega (arith, length-take_le n xs)

tell_notify-weight : (t : SockRes) (p : Packet) → p.id ≢ range → sent_weight (tell_notify t p) ≤ 1
unfolding tell_notify
tell_notify-weight t p e = ground arith

send_history-weight :
    (fd : ℤ) (t : SockRes) (o : Packet)
    → t.nperfnums ≤ sperfnums
    → sent_weight (send_history fd t o) ≤ 6
unfolding send_history
send_history-weight fd t o le = ground (
  arith,
  sent_weight-append (send_found fd (found t) (record o { id = perf_num }))
      (if t.done then send_packet fd (record (last_found (found t) o) { id = done }) else []),
  sent_weight-send_found fd (found t) (record o { id = perf_num }) refl,
  length-take_le t.nperfnums t.perfnums,
)

-- What is left to be given out, in weight.
abbrev pub ahead : SockRes → ℕ
ahead t = 3006 * remaining t.limit t.highest_assigned

on_done-weight :
    (fd : ℤ) (t : SockRes) (o : Packet)
    → sent_weight (on_done fd t o).sent + ahead (on_done fd t o).res < 3 + ahead t
unfolding on_done
on_done-weight fd t o = elim (Bool-cases (ltb_int (pos t.highest_assigned) t.limit)) [
  | inl more ↦ rw (more, on_done) (block t.limit more)
  | inr all ↦
      rw (all, on_done) (omega (arith, tell_notify-weight t (record o { id = done }) (λ e. cc)))
]
  where
    block :
        (l : ℤ)
        → ltb_int (pos t.highest_assigned) l ≡ true
        → range_weight (pos (t.highest_assigned + 1)) (pos (t.highest_assigned + 1 + nassign - 1))
            + 0
            + 3006 * remaining l (t.highest_assigned + 1 + nassign - 1)
          < 3 + 3006 * remaining l t.highest_assigned
    block (pos l) e = ground arith
    block (negsuc l) e = cc

on_notify-weight :
    (fd : ℤ) (t : SockRes) (o : Packet)
    → t.nperfnums ≤ sperfnums
    → sent_weight (on_notify fd t o).sent < 10
unfolding on_notify
on_notify-weight fd t o le = elim (Bool-cases (t.notify ==ℤ minus_one)) [
  | inl free ↦
      rw (free, on_notify)
        (ground (
          arith,
          sent_weight-append
              (if t.missed_some
                then send_packet fd (record o { id = closed; first = pid_client })
                else [])
              (send_history fd t (after_missed t o)),
          send_history-weight fd t (after_missed t o) le,
        ))
  | inr taken ↦ rw (taken, on_notify) (omega arith)
]

-- The answer to a packet, and what is left to be given out, weigh less than the packet did.
pub dispatch-weight :
    (i : PacketId) (fd : ℤ) (t : SockRes) (p o : Packet) (r : Reply)
    → IsBounded t
    → p.id ≡ i
    → dispatch i fd t p o ≡ some r
    → sent_weight r.sent + ahead r.res < out_weight i + ahead t
unfolding dispatch on_perfnum on_closed
dispatch-weight perf_num fd t p o r v i e = ground arith
dispatch-weight done fd t p o r v i e = rw (← some_inj e) (on_done-weight fd t o)
dispatch-weight closed fd t p o r v i e =
    rw (← some_inj e) (omega (arith, tell_notify-weight t p (λ x. cc)))
dispatch-weight notify fd t p o r v i e = ground (arith, on_notify-weight fd t o v.filled)
dispatch-weight _ fd t p o r v i e = rw (← some_inj e) (omega arith)

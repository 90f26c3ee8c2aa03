-- ===== src/Manage/Sock/Bounds.antt =====
-- How far the socket server gets: its array of results, its assignments and its limits.
use perfnum.Prelude.{
  ◌⊎◌, ℕ, ◌+◌, ◌-◌, ◌*◌, ◌/◌, ◌≤◌, ◌<◌, ◌≡◌, ◌↔◌, inl, inr, refl, ◌∙◌, ℤ, pos, negsuc, true, false,
  none, some, List, ltb_int, length, length-set, Bool-cases, arith,
}
use perfnum.Packet.{PacketId, perf_num, Packet, Sent}
use perfnum.Manage.Sock.{
  SockRes, Reply, nassign, max_limit, sperfnums, on_perfnum, on_done, on_closed, on_notify,
  dispatch, sock_handle_packet,
}
use perfnum.Manage.Sock.Accept.{accept_client, disconnect}
use perfnum.Manage.Sock.Loop.{sock_init}
use perfnum.Manage.Sock.Cases.{handle_cases}
use perfnum.Manage.Sock.Trace.{Step, handled, accepted, left, Trace, start, later}
use perfnum.Manage.Sock.Assign.{Trace-ranges}

dispatch-faults :
    (i : PacketId) (fd : ℤ) (t : SockRes) (p o : Packet)
    → (dispatch i fd t p o ≡ none) ↔ ((i ≡ perf_num) × (length t.perfnums ≤ t.nperfnums))
unfolding dispatch on_perfnum
dispatch-faults perf_num fd t p o = (λ e. (refl, ground arith), λ h. ground arith)
dispatch-faults _ fd t p o = (λ e. cc, λ h. cc h.0)

-- The handler writes outside an array exactly when a number arrives and the array of results is
-- already full.
pub handle-faults :
    (fd : ℤ) (t : SockRes) (p o : Packet)
    → (sock_handle_packet fd t p o ≡ none) ↔ ((p.id ≡ perf_num) × (length t.perfnums ≤ t.nperfnums))
unfolding sock_handle_packet
handle-faults fd t p o = dispatch-faults p.id fd t p o

-- The highest number assigned passes the limit by less than a block.
abbrev pub Within : ℕ → ℤ → Type 0
Within h (pos l) = h < l + nassign
Within h (negsuc l) = h ≡ 0

Within-block : (h : ℕ) (l : ℤ) → ltb_int (pos h) l ≡ true → Within (h + 1 + nassign - 1) l
Within-block h (pos l) e = ground arith
Within-block h (negsuc l) e = cc

-- What every event keeps.
pub record IsBounded (t : SockRes) : Type 0 where
  pub array : length t.perfnums ≡ sperfnums
  pub filled : t.nperfnums ≤ sperfnums
  pub assigned : Within t.highest_assigned t.limit
  pub finished : t.done ≡ true → ltb_int (pos t.highest_assigned) t.limit ≡ false

-- The fields that the invariant reads, unchanged.
abbrev Same : SockRes → SockRes → Type 0
Same t u =
    (u.perfnums ≡ t.perfnums)
    × (u.nperfnums ≡ t.nperfnums)
    × (u.highest_assigned ≡ t.highest_assigned)
    × (u.limit ≡ t.limit)
    × (u.done ≡ t.done)

Same-IsBounded : (t u : SockRes) → Same t u → IsBounded t → IsBounded u
Same-IsBounded t u e v = record {
  array = rw e.0 v.array;
  filled = rw e.1 v.filled;
  assigned = rw (e.2, e.3) v.assigned;
  finished = rw (e.2, e.3, e.4) v.finished;
}

on_perfnum-IsBounded :
    (t : SockRes) (p : Packet) (r : Reply) → on_perfnum t p ≡ some r → IsBounded t → IsBounded r.res
unfolding on_perfnum
on_perfnum-IsBounded t p r e v = record {
  array = ground (arith, v.array, length-set t.perfnums t.nperfnums p.first);
  filled = ground (arith, v.array);
  assigned = rw (same.0, same.1) v.assigned;
  finished = rw (same.0, same.1, same.2) v.finished;
}
  where
    same :
        (r.res.highest_assigned ≡ t.highest_assigned)
        × (r.res.limit ≡ t.limit)
        × (r.res.done ≡ t.done)
    same = ground arith

on_done-IsBounded :
    (fd : ℤ) (t : SockRes) (o : Packet) → IsBounded t → IsBounded (on_done fd t o).res
unfolding on_done
on_done-IsBounded fd t o v = elim (Bool-cases (ltb_int (pos t.highest_assigned) t.limit)) [
  | inl more ↦
      rw (more, on_done)
        (record {
          array = v.array;
          filled = v.filled;
          assigned = Within-block t.highest_assigned t.limit more;
          finished = λ e. absurd (ground (arith, v.finished));
        })
  | inr all ↦
      rw (all, on_done)
        (record { array = v.array; filled = v.filled; assigned = v.assigned; finished = λ e. all })
]

pub Step-IsBounded : {t u : SockRes} {s : List Sent} → Step t u s → IsBounded t → IsBounded u
unfolding accept_client disconnect on_closed on_notify
Step-IsBounded {t} (handled i fd p o r c e) v =
    handle_cases (λ q. IsBounded q.res) fd t p o r e (λ q i h. on_perfnum-IsBounded t p q h v)
      (on_done-IsBounded fd t o v) (λ i. Same-IsBounded t _ (ground arith) v) v
      (Same-IsBounded t (on_notify fd t o).res (ground arith) v) v
Step-IsBounded {t} (accepted fd a fresh e) v = Same-IsBounded t a.res (ground arith) v
Step-IsBounded {t} (left i fd c) v = Same-IsBounded t _ (ground arith) v

pub Step-limit : {t u : SockRes} {s : List Sent} → Step t u s → u.limit ≡ t.limit
unfolding accept_client disconnect on_closed on_notify on_done on_perfnum
Step-limit {t} (handled i fd p o r c e) =
    handle_cases (λ q. q.res.limit ≡ t.limit) fd t p o r e (λ q i h. ground arith) (ground arith)
      (λ i. refl) refl (ground arith) refl
Step-limit (accepted fd a fresh e) = ground arith
Step-limit (left i fd c) = refl

pub Trace-limit : {t u : SockRes} {s : List Sent} → Trace t u s → u.limit ≡ t.limit
Trace-limit start = refl
Trace-limit (later r st) = Step-limit st ∙ Trace-limit r

Trace-IsBounded : {t u : SockRes} {s : List Sent} → Trace t u s → IsBounded t → IsBounded u
Trace-IsBounded start v = v
Trace-IsBounded (later r st) v = Step-IsBounded st (Trace-IsBounded r v)

Within-zero : (l : ℤ) → Within 0 l
Within-zero (pos l) = omega arith
Within-zero (negsuc l) = refl

sock_init-IsBounded :
    (max_clients : ℕ) (listen limit junk : ℤ) → IsBounded (sock_init max_clients listen limit junk)
unfolding sock_init
sock_init-IsBounded max_clients listen limit junk = record {
  array = refl;
  filled = omega arith;
  assigned = Within-zero limit;
  finished = λ e. cc;
}

pub reachable-IsBounded :
    {u : SockRes} {s : List Sent} (max_clients : ℕ) (listen limit junk : ℤ)
    → Trace (sock_init max_clients listen limit junk) u s
    → IsBounded u
reachable-IsBounded max_clients listen limit junk r =
    Trace-IsBounded r (sock_init-IsBounded max_clients listen limit junk)

pub highest_fits :
    {u : SockRes} {s : List Sent} (max_clients : ℕ) (listen : ℤ) (l : ℕ) (junk : ℤ)
    → Trace (sock_init max_clients listen (pos l) junk) u s
    → l ≤ max_limit
    → u.highest_assigned ≤ max_limit
unfolding sock_init
highest_fits {u} max_clients listen l junk r small =
    let v = reachable-IsBounded max_clients listen (pos l) junk r in
    let (k, ranges_so_far, high) = Trace-ranges r in
    let below : u.highest_assigned < l + nassign = ground (arith, v.assigned, Trace-limit r) in
    omega (arith, below, high, small)

-- After any events from the start of the server, with a limit from 0 to max_limit and without a
-- write past the array of results: the assignments pass the limit by less than a block of NASSIGN, an
-- int holds highest_assigned, and `done` is set only when all numbers up to the limit are assigned.
-- The next packet then causes a write past the array exactly if it is a number and the array holds
-- SPERFNUMS of them.
pub assigned_bounds :
    {u : SockRes} {s : List Sent} (max_clients : ℕ) (listen : ℤ) (l : ℕ) (junk fd : ℤ)
    (p o : Packet)
    → Trace (sock_init max_clients listen (pos l) junk) u s
    → l ≤ max_limit
    → (u.highest_assigned < l + nassign)
      × (u.highest_assigned ≤ max_limit)
      × ((u.done ≡ false) ⊎ (l ≤ u.highest_assigned))
      × ((sock_handle_packet fd u p o ≡ none) ↔ ((p.id ≡ perf_num) × (u.nperfnums ≡ sperfnums)))
unfolding sock_init
assigned_bounds {u} max_clients listen l junk fd p o r small =
    let v = reachable-IsBounded max_clients listen (pos l) junk r in
    let below : u.highest_assigned < l + nassign = ground (arith, v.assigned, Trace-limit r) in
    let (none_full, full_none) = handle-faults fd u p o in
    (
      below,
      highest_fits max_clients listen l junk r small,
      elim (Bool-cases u.done) [
        | inl ended ↦ inr (ground (arith, v.finished ended, Trace-limit r))
        | inr running ↦ inl running
      ],
      (
        λ e. ((none_full e).0, omega (arith, (none_full e).1, v.array, v.filled)),
        λ h. full_none (h.0, omega (arith, h.1, v.array)),
      ),
    )

-- When the server, started with a limit that is not negative, has announced the end, the ranges
-- that it has handed out end at the first multiple of NASSIGN from the limit on.
done-highest :
    {u : SockRes} {s : List Sent} (max_clients : ℕ) (listen : ℤ) (l : ℕ) (junk : ℤ)
    → Trace (sock_init max_clients listen (pos l) junk) u s
    → u.done ≡ true
    → u.highest_assigned ≡ nassign * ((l + nassign - 1) / nassign)
unfolding sock_init
done-highest {u} max_clients listen l junk r d =
    ground (arith, Trace-ranges r, Trace-limit r, v.assigned, v.finished)
  where
    v : IsBounded u
    v = reachable-IsBounded max_clients listen (pos l) junk r

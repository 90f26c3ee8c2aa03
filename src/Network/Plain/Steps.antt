-- ===== src/Network/Plain/Steps.antt =====
-- Every event of the network keeps the workers plain.
use perfnum.Prelude.{
  ℕ, zero, suc, ◌+◌, ◌-◌, ◌≤◌, ◌≡◌, ◌⊎◌, inl, inr, refl, ℤ, pos, negsuc, minus_one, ltb_int, ◌==ℤ◌,
  ==ℤ_iff, Bool, true, false, some, some_inj, List, [], ◌∷◌, map, get_elem?, if◌then◌else◌,
  Bool-cases, arith,
}
use perfnum.Packet.{PacketId, done, closed, perf_num, notify, Packet, Sent, send_packet, pid_client}
use perfnum.Manage.Sock.{
  SockRes, Reply, nassign, on_perfnum, on_done, on_closed, on_notify, send_found, send_history,
  last_found, found, after_missed, dispatch,
}
use perfnum.Network.{Conn, push, deliver}
use perfnum.Network.All.{All}
use perfnum.Network.Count.{sum_of, has_fd, sum_of-le}
use perfnum.Network.Plain.{
  is_worker, is_block, Plain, all_answers-append, Fits, AllFit, AllFit-append, tell_notify-Fit,
  send_found-Fit,
}

send_history-Fit :
    (b : ℕ) (over : Bool) (i : PacketId) (fd : ℤ) (t : SockRes) (o : Packet)
    → AllFit b over fd i fd (send_history fd t o)
unfolding send_history
send_history-Fit b over i fd t o =
    AllFit-append b over fd i fd (send_found fd (found t) (record o { id = perf_num }))
      (if t.done then send_packet fd (record (last_found (found t) o) { id = done }) else [])
      (send_found-Fit b over i fd (found t) (record o { id = perf_num })) last_one
  where
    last_one :
        AllFit b over fd i fd
          (if t.done then send_packet fd (record (last_found (found t) o) { id = done }) else [])
    last_one = elim (Bool-cases t.done) [
      | inl over ↦ rw over (inr (inl refl), tt)
      | inr going ↦ rw going tt
    ]

on_notify-Fit :
    (b : ℕ) (over : Bool) (fd : ℤ) (t : SockRes) (o : Packet)
    → AllFit b over (on_notify fd t o).res.notify notify fd (on_notify fd t o).sent
unfolding on_notify
on_notify-Fit b over fd t o = elim (Bool-cases (t.notify ==ℤ minus_one)) [
  | inl free ↦
      rw (free, on_notify)
        (
          inr (inl refl),
          AllFit-append b over fd notify fd
              (if t.missed_some
                then send_packet fd (record o { id = closed; first = pid_client })
                else [])
              (send_history fd t (after_missed t o)) missed
              (send_history-Fit b over notify fd t (after_missed t o)),
        )
  | inr taken ↦ rw (taken, on_notify) (inr (inr (refl, refl)), tt)
]
  where
    missed : AllFit b over fd notify fd (
        if t.missed_some then send_packet fd (record o { id = closed; first = pid_client }) else [])
    missed = elim (Bool-cases t.missed_some) [
      | inl some_missed ↦ rw some_missed (inr (inl refl), tt)
      | inr none_missed ↦ rw none_missed tt
    ]

-- The limit is at most b by a block.
abbrev pub Reaches : ℕ → ℤ → Type 0
Reaches b (pos l) = l + nassign ≤ suc b
Reaches b (negsuc l) = Unit

on_done-Fit :
    (b : ℕ) (fd : ℤ) (t : SockRes) (o : Packet)
    → Reaches b t.limit
    → AllFit b (on_done fd t o).res.done t.notify done fd (on_done fd t o).sent
unfolding on_done
on_done-Fit b fd t o h = elim (Bool-cases (ltb_int (pos t.highest_assigned) t.limit)) [
  | inl more ↦ rw (more, on_done) (inl (block t.limit more h), tt)
  | inr all ↦
      rw (all, on_done) (inl refl, tell_notify-Fit b true done fd t (record o { id = done }))
]
  where
    block :
        (l : ℤ)
        → ltb_int (pos t.highest_assigned) l ≡ true
        → Reaches b l
        → is_block b (pos (t.highest_assigned + 1)) (pos (t.highest_assigned + 1 + nassign - 1))
          ≡ true
    block (pos l) e h = ground arith
    block (negsuc l) e h = cc

on_done-notify : (fd : ℤ) (t : SockRes) (o : Packet) → (on_done fd t o).res.notify ≡ t.notify
unfolding on_done
on_done-notify fd t o = ground arith

-- What is sent for a packet of kind i, who is registered then, and whether all is assigned.
pub dispatch-Fit :
    (b : ℕ) (i : PacketId) (fd : ℤ) (t : SockRes) (p o : Packet) (r : Reply)
    → Reaches b t.limit
    → dispatch i fd t p o ≡ some r
    → AllFit b r.res.done r.res.notify i fd r.sent
unfolding dispatch on_perfnum on_closed
dispatch-Fit b perf_num fd t p o r h e = ground arith
dispatch-Fit b done fd t p o r h e =
    rw (← some_inj e, on_done-notify fd t o) (on_done-Fit b fd t o h)
dispatch-Fit b closed fd t p o r h e = rw (← some_inj e) (tell_notify-Fit b t.done closed fd t p)
dispatch-Fit b notify fd t p o r h e = rw (← some_inj e) (on_notify-Fit b _ fd t o)
dispatch-Fit b _ fd t p o r h e = rw (← some_inj e) tt

-- `done` stays set, and who is registered changes by a notify packet only.
pub dispatch-registers :
    (i : PacketId) (fd : ℤ) (t : SockRes) (p o : Packet) (r : Reply)
    → dispatch i fd t p o ≡ some r
    → (t.done ≡ true → r.res.done ≡ true)
      × ((r.res.notify ≡ t.notify) ⊎ ((i ≡ notify) × (r.res.notify ≡ fd)))
unfolding dispatch on_perfnum on_closed on_done on_notify
dispatch-registers perf_num fd t p o r e = ground arith
dispatch-registers done fd t p o r e = ground arith
dispatch-registers closed fd t p o r e = ground arith
dispatch-registers notify fd t p o r e = ground arith
dispatch-registers _ fd t p o r e = (λ d. ground arith, inl (ground arith))

-- No worker has this descriptor.
abbrev pub Apart : ℤ → Conn → Type 0
Apart fd c = is_worker c.phase ≡ true → (c.fd ==ℤ fd) ≡ false

push-Plain :
    (b : ℕ) (over : Bool) (registered : ℤ) (i : PacketId) (from : ℤ) (s : Sent) (c : Conn)
    → Fits b over registered i from s
    → (i ≡ notify → is_worker c.phase ≡ true → (c.fd ==ℤ from) ≡ false)
    → Plain b over registered c
    → Plain b over registered (push s c)
push-Plain b over registered i from s c (inl answer) asks h =
    λ w. ground (arith, h (ground arith), all_answers-append b over c.to_client s.packet)
push-Plain b over registered i from s c (inr (inl to)) asks h =
    λ w. ground (arith, h (ground arith))
push-Plain b over registered i from s c (inr (inr (n, to))) asks h =
    λ w. ground (arith, h (ground arith), asks n (ground arith))

push-worker :
    (fd : ℤ) (s : Sent) (c : Conn)
    → (is_worker c.phase ≡ true → (c.fd ==ℤ fd) ≡ false)
    → is_worker (push s c).phase ≡ true
    → ((push s c).fd ==ℤ fd) ≡ false
push-worker fd s c h w = ground (arith, h (ground arith))

map-Apart :
    (fd : ℤ) (s : Sent) (cs : List Conn) → All (Apart fd) cs → All (Apart fd) (map (push s) cs)
map-Apart fd s [] h = tt
map-Apart fd s (c ∷ cs) h = (push-worker fd s c h.0, map-Apart fd s cs h.1)

map-Plain :
    (b : ℕ) (over : Bool) (registered : ℤ) (i : PacketId) (from : ℤ) (s : Sent) (cs : List Conn)
    → Fits b over registered i from s
    → (i ≡ notify → All (Apart from) cs)
    → All (Plain b over registered) cs
    → All (Plain b over registered) (map (push s) cs)
map-Plain b over registered i from s [] f n h = tt
map-Plain b over registered i from s (c ∷ cs) f n h = (
  push-Plain b over registered i from s c f (λ e. (n e).0) h.0,
  map-Plain b over registered i from s cs f (λ e. (n e).1) h.1,
)

pub deliver-Plain :
    (b : ℕ) (over : Bool) (registered : ℤ) (i : PacketId) (from : ℤ) (ss : List Sent)
    (cs : List Conn)
    → AllFit b over registered i from ss
    → (i ≡ notify → All (Apart from) cs)
    → All (Plain b over registered) cs
    → All (Plain b over registered) (deliver ss cs)
deliver-Plain b over registered i from [] cs f n h = h
deliver-Plain b over registered i from (s ∷ ss) cs f n h =
    deliver-Plain b over registered i from ss (map (push s) cs) f.1 (λ e. map-Apart from s cs (n e))
      (map-Plain b over registered i from s cs f.0 n h)

-- Where one connection has the descriptor, and it is no worker's, no worker has it.
absent : (fd : ℤ) (cs : List Conn) → sum_of (has_fd fd) cs ≡ 0 → All (Apart fd) cs
absent fd [] h = tt
absent fd (c ∷ cs) h = (λ w. ground arith, absent fd cs (omega (arith, h)))

pub one_asks :
    (fd : ℤ) (cs : List Conn) (j : ℕ) (c : Conn)
    → sum_of (has_fd fd) cs ≤ 1
    → get_elem? cs j ≡ some c
    → c.fd ≡ fd
    → is_worker c.phase ≡ false
    → All (Apart fd) cs
one_asks fd [] j c d e f w = tt
one_asks fd (x ∷ cs) zero c d e f w =
    let same : x ≡ c = cc in
    (λ v. ground (arith, same), absent fd cs (ground (arith, ==ℤ_iff c.fd fd)))
one_asks fd (x ∷ cs) (suc j) c d e f w = elim (Bool-cases (x.fd ==ℤ fd)) [
  | inl here ↦ absurd (clash x cs j c d e f here)
  | inr elsewhere ↦ (λ v. elsewhere, one_asks fd cs j c (omega (arith, d)) e f w)
]
  where
    clash :
        (x : Conn) (cs : List Conn) (j : ℕ) (c : Conn)
        → sum_of (has_fd fd) (x ∷ cs) ≤ 1
        → get_elem? cs j ≡ some c
        → c.fd ≡ fd
        → (x.fd ==ℤ fd) ≡ true
        → ⊥
    clash x cs j c d e f here = ground (arith, sum_of-le (has_fd fd) cs j c e, ==ℤ_iff c.fd fd)

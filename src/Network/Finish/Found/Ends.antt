-- ===== src/Network/Finish/Found/Ends.antt =====
-- The search in socket mode can always be brought to its end.
use perfnum.Prelude.{
  ℕ, zero, suc, ◌+◌, ◌-◌, ◌≤◌, ◌<◌, ◌≡◌, inl, inr, ℤ, pos, true, List, length, ◌==◌, if◌then◌else◌,
  leb, ◌&&◌, Bool-cases, arith,
}
use perfnum.Packet.{Sent, zero_packet}
use perfnum.Compute.Perfect.Spec.{aliquot}
use perfnum.Manage.Sock.{found, sperfnums}
use perfnum.Manage.Sock.Bounds.{handle-faults, reachable-IsBounded, Trace-limit}
use perfnum.Manage.Sock.Loop.{sock_init}
use perfnum.Network.{Net, Run, fresh}
use perfnum.Network.Count.{in_ranges}
use perfnum.Network.Conserve.{copies, says, up_to}
use perfnum.Network.Complete.{AllIdle, AllIdle-pending, reachable-Balance, says-aliquot, Run-Trace}
use perfnum.Network.Room.{results_fit}
use perfnum.Network.Termination.{measure}
use perfnum.Network.Finish.{Next, Fault}
use perfnum.Network.Finish.Found.{Quiet, still, on, busy, steps, together, kept, outcome}

-- How often each number is among those found: a perfect number that has been assigned once, unless
-- a client has given it up.
abbrev pub FoundAll : Net → Type 0
FoundAll t =
    (k : ℕ)
    → copies k (found t.server)
      ≡ (if aliquot k == k then up_to k t.server.highest_assigned - in_ranges k t.given_up else 0)

-- A quiet run to the end of the search.
pub record Ends (l : ℕ) (n : Net) : Type 0 where
  pub last : Net
  pub sent : List Sent
  pub run : Quiet n last sent
  pub over : last.server.done ≡ true
  pub idle : AllIdle last.conns
  pub assigned : l ≤ last.server.highest_assigned
  pub all : FoundAll last

module _ (max_clients : ℕ) (listen : ℤ) (l : ℕ) (junk : ℤ) (known : List ℤ) (small : l ≤ 24999000)
    (few : length known ≤ sperfnums)
    (all : (k : ℕ) → 0 < k → k < l + 1000 → (aliquot k == k) ≡ true → 1 ≤ copies k known) where
  assigned_below :
      {t : Net} {s : List Sent}
      → Run (fresh (sock_init max_clients listen (pos l) junk)) t s
      → t.server.highest_assigned < l + 1000
  unfolding sock_init
  assigned_below {t} r =
      let bounded = reachable-IsBounded max_clients listen (pos l) junk (Run-Trace r) in
      ground (arith, bounded.assigned, Trace-limit (Run-Trace r))

  no_fault :
      {t : Net} {s : List Sent}
      → Run (fresh (sock_init max_clients listen (pos l) junk)) t s
      → Fault t
      → ⊥
  no_fault {t} r f =
      let below = assigned_below r in
      let (reply, handled) =
        results_fit max_clients listen l junk known f.index f.conn f.packet f.rest zero_packet r
          small few (λ k lo hi. all k lo (omega (arith, hi, below))) f.here f.first in
      cc (handled, (handle-faults f.conn.fd t.server f.packet zero_packet).1 (f.number, f.full))

  all_assigned :
      {t : Net} {s : List Sent}
      → Run (fresh (sock_init max_clients listen (pos l) junk)) t s
      → t.server.done ≡ true
      → l ≤ t.server.highest_assigned
  unfolding sock_init
  all_assigned {t} r over =
      let bounded = reachable-IsBounded max_clients listen (pos l) junk (Run-Trace r) in
      ground (arith, bounded.finished over, Trace-limit (Run-Trace r))

  idle-FoundAll :
      {t : Net} {s : List Sent}
      → Run (fresh (sock_init max_clients listen (pos l) junk)) t s
      → AllIdle t.conns
      → FoundAll t
  idle-FoundAll {t} r idle k =
      let (no_report, no_work) = AllIdle-pending k t.conns idle in
      let (perfect, other) = reachable-Balance max_clients listen (pos l) junk k r in
      let below = assigned_below r in
      elim (Bool-cases (leb 1 k && leb k t.server.highest_assigned)) [
        | inl within ↦
            let same : says k ≡ (aliquot k == k) =
              says-aliquot k (ground (arith, within)) (ground (arith, within, below, small)) in
            ground (arith, no_report, no_work, perfect, other, within, same)
        | inr outside ↦ elim (Bool-cases (says k)) [
          | inl t ↦ ground (arith, perfect t, outside)
          | inr t ↦ ground (arith, other t, outside)
        ]
      ]

  module _ {n : Net} {s : List Sent}
      (r : Run (fresh (sock_init max_clients listen (pos l) junk)) n s) (lt : 1 ≤ busy n) where
    rest_or_go : {t : Net} {s' : List Sent} (q : Quiet n t s') → (Next t → Ends l n) → Ends l n
    rest_or_go {t} q go =
        let (sent, both) = together max_clients listen l junk r q in
        let (fewer, works) = kept max_clients listen l junk r q lt in
        elim (outcome max_clients listen l junk both works small) [
          | inl (inl next) ↦ go next
          | inl (inr fault) ↦ absurd (no_fault both fault)
          | inr (over, idle) ↦ record {
            last = t;
            sent = _;
            run = q;
            over = over;
            idle = idle;
            assigned = all_assigned both over;
            all = idle-FoundAll both idle;
          }
        ]

    ends :
        (m : ℕ) {t : Net} {s' : List Sent} (q : Quiet n t s') → measure n ≤ steps q + m → Ends l n
    ends zero q le = rest_or_go q (λ next.
        absurd
          (omega (arith, le, (kept max_clients listen l junk r (on q next.step next.quiet) lt).0)))
    ends (suc m) q le =
        rest_or_go q (λ next. ends m (on q next.step next.quiet) (omega (arith, le)))

    -- From any state in which a worker is connected, or the end announced, events without signals
    -- and new clients lead to a state in which the server has announced the end, all numbers up to
    -- the limit are assigned, and no connection has work left. There each number that has been
    -- assigned is among the numbers found once if it is perfect and no client has given it up, and
    -- no other number is. The limit is at most 24999000, and `known` has at most SPERFNUMS members,
    -- with each perfect number below the limit plus 1000 among them.
    pub search_ends :
        (t : Net) × (s' : List Sent) × Quiet n t s'
        × (t.server.done ≡ true)
        × (l ≤ t.server.highest_assigned)
        × AllIdle t.conns
        × FoundAll t
    search_ends =
        let e = ends (measure n) still (omega arith) in
        (e.last, e.sent, e.run, e.over, e.assigned, e.idle, e.all)

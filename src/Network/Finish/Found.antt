-- ===== src/Network/Finish/Found.antt =====
-- The search in socket mode is done once it has been left alone for long enough.
pub mod Ends
use perfnum.Prelude.{
  ℕ, suc, ◌+◌, ◌≤◌, ◌<◌, ◌≡◌, ◌⊎◌, inl, inr, refl, ◌∙◌, ℤ, pos, Bool, true, false, List, [], ◌∷◌,
  ◌++◌, map, set, ◌==◌, if◌then◌else◌, arith,
}
use perfnum.Packet.{Sent}
use perfnum.Compute.Perfect.Spec.{aliquot}
use perfnum.Manage.Sock.{found, sock_handle_packet}
use perfnum.Manage.Sock.Accept.{disconnect}
use perfnum.Manage.Sock.Loop.{sock_init}
use perfnum.Network.{
  Conn, Move, ask, take_range, told_closed, refused, pass_over, test_perfect, test_other,
  range_over, quit_asking, quit_waiting, quit_testing, register, hear, quit_listening, push,
  deliver, Net, Step, serve, move, arrive, turned_away, leave, Run, later, fresh,
}
use perfnum.Network.All.{All, All-get}
use perfnum.Network.Count.{sum_of, in_ranges, sum_of-set, sum_of-remove}
use perfnum.Network.Conserve.{copies}
use perfnum.Network.Complete.{AllIdle, search_complete}
use perfnum.Network.Plain.{is_worker, Plain}
use perfnum.Network.Plain.Steps.{dispatch-registers}
use perfnum.Network.Orderly.{Orderly}
use perfnum.Network.Orderly.Steps.{Run-Orderly}
use perfnum.Manage.Sock.Bounds.{reachable-IsBounded}
use perfnum.Network.Seats.{Run-Seated}
use perfnum.Network.Complete.{Run-Trace}
use perfnum.Network.Termination.{measure, arrival, Step-measure}
use perfnum.Network.Finish.{is_quiet_move, is_quiet, Next, Fault, Resting, step_or_rest}

-- A run without signals and new clients.
pub data Quiet (n : Net) : Net → List Sent → Type 0 where
  still : Quiet n n []
  on :
      {m k : Net} {s s' : List Sent}
      → Quiet n m s
      → (st : Step m k s') → is_quiet st ≡ true
      → Quiet n k (s ++ s')

abbrev pub flag : Bool → ℕ
flag true = 1
flag false = 0

-- The workers, and 1 more if the end is announced.
abbrev pub busy : Net → ℕ
busy n = sum_of (λ c. flag (is_worker c.phase)) n.conns + flag n.server.done

works-map :
    (s : Sent) (cs : List Conn)
    → sum_of (λ c. flag (is_worker c.phase)) (map (push s) cs)
      ≡ sum_of (λ c. flag (is_worker c.phase)) cs
works-map s [] = refl
works-map s (c ∷ cs) = ground (arith, works-map s cs)

works-deliver :
    (ss : List Sent) (cs : List Conn)
    → sum_of (λ c. flag (is_worker c.phase)) (deliver ss cs)
      ≡ sum_of (λ c. flag (is_worker c.phase)) cs
works-deliver [] cs = refl
works-deliver (s ∷ ss) cs = works-deliver ss (map (push s) cs) ∙ works-map s cs

-- A worker stops, without a signal, only when it is refused, and it is refused at the end only.
Move-works :
    {c c' : Conn} {lost : List (ℤ × ℤ)} (b : ℕ) (over : Bool) (registered : ℤ)
    → (mv : Move c c' lost) → is_quiet_move mv ≡ true
    → Plain b over registered c
    → flag (is_worker c.phase) ≤ flag (is_worker c'.phase) + flag over
Move-works b over registered (ask p e) q h = ground arith
Move-works b over registered (take_range w e i x y) q h = ground arith
Move-works b over registered (told_closed w e i) q h = ground (arith, h (rw w refl))
Move-works b over registered (refused w e i) q h = ground (arith, h (rw w refl))
Move-works b over registered (pass_over w e o) q h = ground arith
Move-works b over registered (test_perfect p e le t) q h = ground arith
Move-works b over registered (test_other e le o) q h = ground arith
Move-works b over registered (range_over e lt) q h = ground arith
Move-works b over registered (register p e) q h = ground arith
Move-works b over registered (hear e i) q h = ground arith
Move-works b over registered (quit_asking e) q h = cc
Move-works b over registered (quit_waiting e) q h = cc
Move-works b over registered (quit_testing p e le) q h = cc
Move-works b over registered (quit_listening e) q h = cc

Step-busy :
    {m n : Net} {s : List Sent} (b : ℕ)
    → (st : Step m n s) → is_quiet st ≡ true
    → Orderly b m
    → 1 ≤ busy m
    → 1 ≤ busy n
unfolding sock_handle_packet disconnect
Step-busy {m} b (serve j {c} {p} {ps} o {r} e q cl h) quiet v lt =
    let c' : Conn = record c { to_server = ps } in
    omega (
      arith,
      works-deliver r.sent (set m.conns j c'),
      sum_of-set (λ x. flag (is_worker x.phase)) m.conns j c c' e,
      stays_set m.server.done r.res.done (dispatch-registers p.id c.fd m.server p o r h).0,
    )
  where
    stays_set : (x y : Bool) → (x ≡ true → y ≡ true) → flag x ≤ flag y
    stays_set true y f = ground (arith, f refl)
    stays_set false y f = omega arith
Step-busy {m} b (move j {c} {c'} e mv) quiet v lt = omega (
  arith,
  lt,
  sum_of-set (λ x. flag (is_worker x.phase)) m.conns j c c' e,
  Move-works b m.server.done m.server.notify mv quiet
      (All-get (Plain b m.server.done m.server.notify) m.conns j c v.plain e),
)
Step-busy b (arrive new slot phase ph un free ac cl) quiet v lt = cc
Step-busy b (turned_away new un ac drop) quiet v lt = cc
Step-busy {m} b (leave j {c} e ph q cl) quiet v lt =
    omega (arith, lt, sum_of-remove (λ x. flag (is_worker x.phase)) m.conns j c e, gone)
  where
    gone : flag (is_worker c.phase) ≡ 0
    gone = ground arith

Resting-idle :
    (cs : List Conn) → All Resting cs → AllIdle cs × (sum_of (λ c. flag (is_worker c.phase)) cs ≡ 0)
Resting-idle [] h = (tt, refl)
Resting-idle (c ∷ cs) ((ph, out, into), rest) =
    let (idle, none_works) = Resting-idle cs rest in
    ((ground arith, idle), ground (arith, none_works))

abbrev pub steps : {m n : Net} {s : List Sent} → Quiet m n s → ℕ
steps still = 0
steps (on q st quiet) = suc (steps q)

quiet-arrival : {m n : Net} {s : List Sent} (st : Step m n s) → is_quiet st ≡ true → arrival st ≡ 0
quiet-arrival (serve j o e q cl h) quiet = refl
quiet-arrival (move j e mv) quiet = refl
quiet-arrival (arrive fd slot phase ph un free ac cl) quiet = cc
quiet-arrival (turned_away fd un ac drop) quiet = cc
quiet-arrival (leave j e ph q cl) quiet = refl

module _ (max_clients : ℕ) (listen : ℤ) (l : ℕ) (junk : ℤ) where
  pub together :
      {n t : Net} {s s' : List Sent}
      → Run (fresh (sock_init max_clients listen (pos l) junk)) n s
      → Quiet n t s'
      → (all : List Sent) × Run (fresh (sock_init max_clients listen (pos l) junk)) t all
  together {s = s} r still = (s, r)
  together r (on {s' = last} q st quiet) =
      let (all, both) = together r q in (all ++ last, later both st)

  pub kept :
      {n t : Net} {s s' : List Sent}
      → Run (fresh (sock_init max_clients listen (pos l) junk)) n s
      → (q : Quiet n t s') → 1 ≤ busy n
      → (steps q + measure t ≤ measure n) × (1 ≤ busy t)
  kept r still lt = (omega arith, lt)
  kept r (on q st quiet) lt =
      let (all, both) = together r q in
      let (fewer, works) = kept r q lt in
      let orderly = Run-Orderly (l + 1000) max_clients listen (pos l) junk (omega arith) both in
      (
        omega (
          arith,
          fewer,
          quiet-arrival st quiet,
          Step-measure (l + 1000) st (Run-Seated both (λ fd. omega arith) tt).1
              (reachable-IsBounded max_clients listen (pos l) junk (Run-Trace both)) orderly,
        ),
        Step-busy (l + 1000) st quiet orderly works,
      )

  -- The run can go on, or faults, or the end is announced and there is nothing left to do.
  pub outcome :
      {t : Net} {s : List Sent}
      → Run (fresh (sock_init max_clients listen (pos l) junk)) t s
      → 1 ≤ busy t
      → l ≤ 24999000
      → (Next t ⊎ Fault t) ⊎ ((t.server.done ≡ true) × AllIdle t.conns)
  outcome {t} r works small =
      elim (step_or_rest max_clients listen (pos l) junk (l + 1000) r (omega arith) (omega arith)) [
        | inl goes_on ↦ inl goes_on
        | inr rests ↦
            let (idle, none_works) = Resting-idle t.conns rests in
            inr (announced t.server.done (omega (arith, works, none_works)), idle)
      ]
    where
      announced : (d : Bool) → 1 ≤ flag d → d ≡ true
      announced true h = refl
      announced false h = absurd (omega arith)

-- From any state in which a worker is connected, or the end announced, every
-- run without further signals and clients is at most as long as `measure` says. Wherever it stands,
-- it can go on; or a perfect number has come for which the array of results has no room; or the
-- server has announced the end, no connection has work left, and each number up to the limit that no
-- client has given up stands among the numbers found exactly once if it is perfect, and not at all
-- if it is not. The limit is at most 24999000.
pub search_finishes :
    {n t : Net} {s s' : List Sent} (max_clients : ℕ) (listen : ℤ) (l : ℕ) (junk : ℤ) (k : ℕ)
    → Run (fresh (sock_init max_clients listen (pos l) junk)) n s
    → (q : Quiet n t s') → 1 ≤ busy n
    → l ≤ 24999000
    → in_ranges k t.given_up ≡ 0
    → 0 < k
    → k ≤ l
    → (steps q ≤ measure n)
      × ((Next t ⊎ Fault t)
          ⊎ ((t.server.done ≡ true)
              × AllIdle t.conns
              × (copies k (found t.server) ≡ (if aliquot k == k then 1 else 0))))
search_finishes {t = t} max_clients listen l junk k r q lt small given lo hi =
    let (all, both) = together max_clients listen l junk r q in
    let (fewer, works) = kept max_clients listen l junk r q lt in
    (
      omega (arith, fewer),
      elim (outcome max_clients listen l junk both works small) [
        | inl goes_on ↦ inl goes_on
        | inr (over, idle) ↦ inr (
          over,
          idle,
          search_complete max_clients listen l junk k both over idle given lo hi (omega arith),
        )
      ],
    )

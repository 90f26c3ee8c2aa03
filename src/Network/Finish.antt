-- ===== src/Network/Finish.antt =====
-- That the search gets done: what the network can do where no signal comes and no client.
pub mod Found
use perfnum.Prelude.{
  ℕ, zero, suc, ◌+◌, ◌≤◌, ◌<◌, ◌≡◌, ◌≢◌, ◌⊎◌, inl, inr, refl, sym, ◌∙◌, ap, subst, ℤ, pos, negsuc,
  Bool, true, false, none, some, List, [], ◌∷◌, ◌++◌, length, get_elem?, set, ◌==◌, leb, Bool-cases,
  Option-cases, arith,
}
use native.Mathlib.Decide.{dec_le}
use perfnum.Packet.{PacketId, range, refuse, perf_num, Packet, Sent, zero_packet}
use perfnum.Compute.Perfect.{is_perfect_number}
use perfnum.Compute.Perfect.Spec.{aliquot}
use perfnum.Compute.Perfect.Correct.{is_perfect_number_small}
use perfnum.Manage.Sock.{SockRes, Reply, sock_handle_packet}
use perfnum.Manage.Sock.Loop.{sock_init}
use perfnum.Manage.Sock.Bounds.{handle-faults}
use perfnum.Manage.Sock.Trace.{IsClient}
use perfnum.Network.{
  Phase, asking, waiting, testing, registering, listening, finished, Conn, Move, ask, take_range,
  told_closed, refused, pass_over, test_perfect, test_other, range_over, quit_asking, quit_waiting,
  quit_testing, register, hear, quit_listening, Net, Step, serve, move, arrive, turned_away, leave,
  Run, start, later, fresh,
}
use perfnum.Network.All.{All, All-get}
use perfnum.Network.Seats.{Seated, Seated-get, Run-Seated}
use perfnum.Network.Progress.{waiting_answered}
use perfnum.Network.Plain.{is_worker, Plain, Plain-passes, all_answers}
use perfnum.Network.Plain.Steps.{Reaches}
use perfnum.Network.Orderly.{Orderly}
use perfnum.Network.Orderly.Steps.{Run-Orderly}

-- A step that no signal causes.
abbrev pub is_quiet_move : {c c' : Conn} {lost : List (ℤ × ℤ)} → Move c c' lost → Bool
is_quiet_move (quit_asking e) = false
is_quiet_move (quit_waiting e) = false
is_quiet_move (quit_testing p e le) = false
is_quiet_move (quit_listening e) = false
is_quiet_move _ = true

-- An event without a signal, and without a new client.
abbrev pub is_quiet : {m n : Net} {s : List Sent} → Step m n s → Bool
is_quiet (serve j o e q cl h) = true
is_quiet (move j e mv) = is_quiet_move mv
is_quiet (leave j e ph q cl) = true
is_quiet _ = false

pub record Next (n : Net) : Type 0 where
  pub after : Net
  pub sent : List Sent
  pub step : Step n after sent
  pub quiet : is_quiet step ≡ true

-- A perfect number arrives, and the array of results is full.
pub record Fault (n : Net) : Type 0 where
  pub index : ℕ
  pub conn : Conn
  pub packet : Packet
  pub rest : List Packet
  pub here : get_elem? n.conns index ≡ some conn
  pub first : conn.to_server ≡ packet ∷ rest
  pub number : packet.id ≡ perf_num
  pub full : length n.server.perfnums ≤ n.server.nperfnums

-- A report that has heard everything.
abbrev pub Resting : Conn → Type 0
Resting c = (c.phase ≡ listening) × (c.to_server ≡ []) × (c.to_client ≡ [])

either :
    (A : Type 0) (P : Conn → Type 0) (cs : List Conn)
    → ((j : ℕ) (c : Conn) → get_elem? cs j ≡ some c → A ⊎ P c)
    → A ⊎ All P cs
either A P [] f = inr tt
either A P (c ∷ cs) f = elim (f 0 c refl) [
  | inl a ↦ inl a
  | inr p ↦ elim (either A P cs (λ j d e. f (suc j) d e)) [ inl a ↦ inl a | inr ps ↦ inr (p, ps) ]
]

module _ (n : Net) (j : ℕ) (c : Conn) (here : get_elem? n.conns j ≡ some c) where
  moving :
      {c' : Conn} {lost : List (ℤ × ℤ)} → (mv : Move c c' lost) → is_quiet_move mv ≡ true → Next n
  moving mv q = record { after = _; sent = []; step = move j here mv; quiet = q }

  serving :
      (p : Packet) (ps : List Packet)
      → c.to_server ≡ p ∷ ps
      → IsClient n.server c.slot c.fd
      → Next n ⊎ Fault n
  serving p ps e cl = elim (Option-cases (sock_handle_packet c.fd n.server p zero_packet)) [
    | inl fault ↦
        let (number, full) = (handle-faults c.fd n.server p zero_packet).0 fault in
        inr (record {
          index = j;
          conn = c;
          packet = p;
          rest = ps;
          here = here;
          first = e;
          number = number;
          full = full;
        })
    | inr (r, h) ↦
        inl (record { after = _; sent = _; step = serve j zero_packet here e cl h; quiet = refl })
  ]

  -- A worker that tests numbers up to 25000000.
  testing-Next : (i stop : ℕ) → c.phase ≡ testing i stop → 0 < i → stop ≤ 25000000 → Next n
  testing-Next i stop e lo hi = elim (dec_le i stop) [
    | yes le ↦ elim (Bool-cases (aliquot i == i)) [
      | inl perfect ↦
          moving
            (test_perfect zero_packet e le
              (is_perfect_number_small i lo (omega arith) ∙ ap some perfect))
            refl
      | inr other ↦
          moving (test_other e le (is_perfect_number_small i lo (omega arith) ∙ ap some other)) refl
    ]
    | no past ↦ moving (range_over e (omega arith)) refl
  ]

  -- A worker that has an answer.
  answered-Next :
      (b : ℕ) (over : Bool) (registered : ℤ) (p : Packet) (ps : List Packet)
      → Plain b over registered c
      → c.phase ≡ waiting
      → c.to_client ≡ p ∷ ps
      → Next n
  answered-Next b over registered p ps plain w e =
      elim (Plain-passes b over registered c p ps plain w e) [
        | inl i ↦ with_range p.first p.second refl refl i
        | inr i ↦ moving (refused w e i) refl
      ]
    where
      with_range : (x y : ℤ) → p.first ≡ x → p.second ≡ y → p.id ≡ range → Next n
      with_range (pos x) (pos y) fx fy i = moving (take_range w e i fx fy) refl
      with_range (negsuc x) y fx fy i = absurd (ground (arith, plain (rw w refl)))
      with_range (pos x) (negsuc y) fx fy i = absurd (ground (arith, plain (rw w refl)))

-- What each connection can do, where the numbers given out are up to 25000000.
module _ {n : Net} {s : List Sent} (max_clients : ℕ) (listen limit junk : ℤ) (b : ℕ)
    (r : Run (fresh (sock_init max_clients listen limit junk)) n s) (reaches : Reaches b limit)
    (small : b ≤ 25000000) where
  orderly : Orderly b n
  orderly = Run-Orderly b max_clients listen limit junk reaches r

  module _ (j : ℕ) (c : Conn) (here : get_elem? n.conns j ≡ some c) where
    seat : IsClient n.server c.slot c.fd
    seat = Seated-get n.server n.conns j c (Run-Seated r (λ fd. omega arith) tt).0 here

    plain : Plain b n.server.done n.server.notify c
    plain = All-get (Plain b n.server.done n.server.notify) n.conns j c orderly.plain here

    waiting-Next : c.phase ≡ waiting → Next n ⊎ Fault n
    waiting-Next w =
        elim (waiting_answered max_clients listen limit junk j c zero_packet r here w) [
          | inl (p, rest, e) ↦
              inl (answered-Next n j c here b n.server.done n.server.notify p rest plain w e)
          | inr (p, rest, e, request, client, reply) ↦ serving n j c here p rest e seat
        ]

    finished-Next : (ps : List Packet) → c.to_server ≡ ps → c.phase ≡ finished → Next n ⊎ Fault n
    finished-Next [] e ph =
        inl (record { after = _; sent = _; step = leave j here ph e seat; quiet = refl })
    finished-Next (p ∷ ps) e ph = serving n j c here p ps e seat

    listening-Next :
        (ps qs : List Packet)
        → c.to_server ≡ ps
        → c.to_client ≡ qs
        → c.phase ≡ listening
        → (Next n ⊎ Fault n) ⊎ Resting c
    listening-Next [] [] e f ph = inr (ph, e, f)
    listening-Next [] (q ∷ qs) e f ph = inl (inl (moving n j c here (hear ph f) refl))
    listening-Next (p ∷ ps) qs e f ph = inl (serving n j c here p ps e seat)

    phase-Next : (ph : Phase) → c.phase ≡ ph → (Next n ⊎ Fault n) ⊎ Resting c
    phase-Next asking e = inl (inl (moving n j c here (ask zero_packet e) refl))
    phase-Next waiting e = inl (waiting-Next e)
    phase-Next (testing i stop) e = inl (
        inl (
          testing-Next n j c here i stop e (ground (arith, plain (rw e refl)))
            (ground (arith, plain (rw e refl)))))
    phase-Next registering e = inl (inl (moving n j c here (register zero_packet e) refl))
    phase-Next listening e = listening-Next c.to_server c.to_client refl refl e
    phase-Next finished e = inl (finished-Next c.to_server refl e)

  -- The network goes on, has a fault, or rests.
  pub step_or_rest : (Next n ⊎ Fault n) ⊎ All Resting n.conns
  step_or_rest = either (Next n ⊎ Fault n) Resting n.conns (λ j c e. phase-Next j c e c.phase refl)

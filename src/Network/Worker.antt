-- ===== src/Network/Worker.antt =====
-- sock_loop of compute.c beside the steps of a worker in the network.
pub mod Loop
use native.Mathlib.Decide.{dec_le}
use perfnum.Prelude.{
  ℕ, zero, suc, ◌+◌, ◌-◌, ◌≤◌, ◌<◌, ◌≡◌, ◌⊎◌, inl, inr, refl, sym, ◌∙◌, subst, ap, ℤ, pos, negsuc,
  Bool, true, false, Option, none, some, some_inj, List, [], ◌∷◌, ◌++◌, append_assoc, append-nil,
  if◌then◌else◌, Bool-cases, Option-cases, arith,
}
use perfnum.Packet.{
  PacketId, null, done, closed, kill, range, perf_num, notify, accept, refuse, unknown, Packet,
  Read, whole, get_packet, pid_client,
}
use perfnum.Compute.Perfect.{is_perfect_number}
use perfnum.Compute.Sock.{
  Worker, sock_report, Scanned, scan_range, range_size, on_range, on_answer, Ran, sock_loop,
}
use perfnum.Network.{
  Phase, asking, waiting, testing, finished, Conn, with_done, passed_over, Move, ask, take_range,
  told_closed, refused, pass_over, test_perfect, test_other, range_over, quit_asking, quit_testing,
}

pub data Moves (e : Conn) : Conn → Type 0 where
  stay : Moves e e
  go : {c d : Conn} {lost : List (ℤ × ℤ)} → Move c d lost → Moves e d → Moves e c

-- exit_status stays set.
abbrev pub Stays : Worker → Type 0
Stays w = (n : ℕ) → w.caught n ≡ true → w.caught (suc n) ≡ true

-- What the loop over a range amounts to: the worker asks again, or has seen a signal.
pub record Ends (w : Worker) (c : Conn) (sent : List Packet) (looks : ℕ) : Type 0 where
  pub conn : Conn
  pub moves : Moves conn c
  pub sends : conn.to_server ≡ c.to_server ++ sent
  pub leaves : conn.to_client ≡ c.to_client
  pub ends : (conn.phase ≡ asking) ⊎ ((conn.phase ≡ finished) × (w.caught looks ≡ true))

abbrev pub more : Conn → Packet → Phase → Conn
more c p phase = record c { phase = phase; to_server = c.to_server ++ p ∷ [] }

scan_cases :
    (w : Worker) (rounds i : ℕ) (p : Packet) (n : ℕ) (s : Scanned)
    → scan_range w (suc rounds) i p n ≡ some s
    → ((w.caught n ≡ true)
        × (s ≡ record {
          sent = record p { id = closed; first = pid_client } ∷ [];
          packet = record p { id = closed; first = pid_client };
          looks = suc n;
        }))
      ⊎ ((t : Scanned) × (scan_range w rounds (suc i) p (suc n) ≡ some t)
          × (s.looks ≡ t.looks)
          × (((is_perfect_number i ≡ some true) × (s.sent ≡ sock_report w i ∷ t.sent))
              ⊎ ((is_perfect_number i ≡ some false) × (s.sent ≡ t.sent))))
unfolding scan_range
scan_cases w rounds i p n s e = elim (Bool-cases (w.caught n)) [
  | inl signal ↦ inl (signal, ground arith)
  | inr quiet ↦ elim (Option-cases (is_perfect_number i)) [
    | inl fault ↦ absurd (ground arith)
    | inr (perfect, answer) ↦ elim (Option-cases (scan_range w rounds (suc i) p (suc n))) [
      | inl fault ↦ absurd (ground arith)
      | inr (t, rest) ↦ elim (Bool-cases perfect) [
        | inl found ↦ inr (t, rest, ground arith, inl (ground arith, ground arith))
        | inr other ↦ inr (t, rest, ground arith, inr (ground arith, ground arith))
      ]
    ]
  ]
]

-- The steps of a longer loop: one step, and the rest of the loop from where it leads.
after_step :
    (w : Worker) {c d : Conn} {lost : List (ℤ × ℤ)} (front sent all : List Packet)
    (looks looks' : ℕ)
    → Move c d lost
    → Ends w d sent looks
    → d.to_server ≡ c.to_server ++ front
    → d.to_client ≡ c.to_client
    → all ≡ front ++ sent
    → looks' ≡ looks
    → Ends w c all looks'
after_step w {c} {d} front sent all looks looks' mv r out same whole_list l = record {
  conn = r.conn;
  moves = go mv r.moves;
  sends = r.sends ∙ rw (out, whole_list) (append_assoc c.to_server front sent);
  leaves = r.leaves ∙ same;
  ends = rw l r.ends;
}

pub scan-Ends :
    (w : Worker) (rounds i stop : ℕ) (p : Packet) (n : ℕ) (c : Conn) (s : Scanned)
    → Stays w
    → c.phase ≡ testing i stop
    → rounds ≡ suc stop - i
    → scan_range w rounds i p n ≡ some s
    → Ends w c s.sent s.looks
unfolding scan_range
scan-Ends w zero i stop p n c s stays e size h = record {
  conn = record c { phase = asking };
  moves = go (range_over e (omega arith)) stay;
  sends = ground (arith, append-nil c.to_server);
  leaves = refl;
  ends = inl refl;
}
scan-Ends w (suc rounds) i stop p n c s stays e size h = elim (scan_cases w rounds i p n s h) [
  | inl (signal, result) ↦ record {
    conn = more c (record p { id = closed; first = pid_client }) finished;
    moves = go (quit_testing p e (omega arith)) stay;
    sends = rw result refl;
    leaves = refl;
    ends = inr (refl, rw result (stays n signal));
  }
  | inr (t, rest, looks, inl (perfect, sent)) ↦
      let mv = test_perfect w.local e (omega arith) perfect in
      let d = more c (sock_report w i) (testing (suc i) stop) in
      after_step w {c = c} {d = d} (sock_report w i ∷ []) t.sent s.sent t.looks s.looks mv
        (scan-Ends w rounds (suc i) stop p (suc n) d t stays refl (omega arith) rest) refl refl sent
        looks
  | inr (t, rest, looks, inr (other, sent)) ↦
      let d = record c { phase = testing (suc i) stop } in
      after_step w {c = c} {d = d} [] t.sent s.sent t.looks s.looks
        (test_other e (omega arith) other)
        (scan-Ends w rounds (suc i) stop p (suc n) d t stays refl (omega arith) rest)
        (sym (append-nil c.to_server)) refl sent looks
]

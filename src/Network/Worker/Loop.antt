-- ===== src/Network/Worker/Loop.antt =====
-- sock_loop of compute.c as a whole beside the steps of a worker in the network.
use perfnum.Prelude.{
  ℕ, suc, ◌≡◌, ◌⊎◌, inl, inr, refl, sym, ◌∙◌, subst, ap, ℤ, pos, negsuc, Bool, true, false, some,
  some_inj, List, [], ◌∷◌, ◌++◌, append_assoc, append-nil, Bool-cases, Option-cases, arith,
}
use perfnum.Packet.{PacketId, closed, range, refuse, Packet, Read, whole, get_packet}
use perfnum.Compute.Sock.{
  Worker, Scanned, scan_range, range_size, on_range, on_answer, Ran, sock_loop,
}
use perfnum.Network.{
  asking, waiting, testing, finished, Conn, with_done, passed_over, Move, ask, take_range,
  told_closed, refused, pass_over, quit_asking,
}
use perfnum.Network.Worker.{Moves, stay, go, Stays, more, scan-Ends}

-- The answers as whole packets.
abbrev pub reads_of : List Packet → List Read
reads_of [] = []
reads_of (q ∷ qs) = whole q ∷ reads_of qs

-- What sock_loop amounts to.
pub record Follows (c : Conn) (r : Ran) : Type 0 where
  pub conn : Conn
  pub moves : Moves conn c
  pub sends : conn.to_server ≡ c.to_server ++ r.sent
  pub ends : r.ended ≡ true → conn.phase ≡ finished

join : {e d c : Conn} → Moves d c → Moves e d → Moves e c
join stay ns = ns
join (go mv ms) ns = go mv (join ms ns)

-- What the switch on the answer q amounts to, with qs behind it: the loop ends, or it goes on.
abbrev Ending : Conn → List Packet → Scanned → Type 0
Ending c qs s = Move c (record c { phase = finished; to_client = qs }) [] × (s.sent ≡ [])

record Going (w : Worker) (c : Conn) (qs : List Packet) (s : Scanned) : Type 0 where
  conn : Conn
  moves : Moves conn c
  sends : conn.to_server ≡ c.to_server ++ s.sent
  leaves : conn.to_client ≡ qs
  ends : (conn.phase ≡ asking) ⊎ ((conn.phase ≡ finished) × (w.caught s.looks ≡ true))

abbrev Answered : Worker → Conn → List Packet → Bool → Scanned → Type 0
Answered w c qs true s = Ending c qs s
Answered w c qs false s = Going w c qs s

passed :
    (w : Worker) (c : Conn) (q : Packet) (qs : List Packet) (n : ℕ)
    → c.phase ≡ waiting
    → c.to_client ≡ q ∷ qs
    → passed_over q.id ≡ true
    → Going w c qs (record { sent = []; packet = q; looks = n })
passed w c q qs n e h over = record {
  conn = record c { phase = asking; to_client = qs };
  moves = go (pass_over e h over) stay;
  sends = sym (append-nil c.to_server);
  leaves = refl;
  ends = inl refl;
}

range_answer :
    (w : Worker) (c : Conn) (q : Packet) (qs : List Packet) (a b : ℤ) (n : ℕ) (stop : Bool)
    (s : Scanned)
    → Stays w
    → c.phase ≡ waiting
    → c.to_client ≡ q ∷ qs
    → q.id ≡ range
    → q.first ≡ a
    → q.second ≡ b
    → on_range w a b q n ≡ some (stop, s)
    → Answered w c qs stop s
unfolding on_range
range_answer w c q qs (pos a) (pos b) n stop s stays e h i fa fb r =
    elim (Option-cases (scan_range w (range_size a b) a q n)) [
      | inl fault ↦ absurd (ground arith)
      | inr (t, scanned) ↦
          let d = record c { phase = testing a b; to_client = qs } in
          let loop = scan-Ends w (range_size a b) a b q n d t stays refl refl scanned in
          let result : ◌≡◌ {A = Bool × Scanned} (false, t) (stop, s) = ground arith in
          subst (λ x. Answered w c qs x.0 x.1) result
            (record {
              conn = loop.conn;
              moves = go (take_range e h i fa fb) loop.moves;
              sends = loop.sends;
              leaves = loop.leaves;
              ends = loop.ends;
            })
    ]
range_answer w c q qs (negsuc a) b n stop s stays e h i fa fb r = cc
range_answer w c q qs (pos a) (negsuc b) n stop s stays e h i fa fb r = cc

answer-Answered :
    (w : Worker) (c : Conn) (i : PacketId) (q : Packet) (qs : List Packet) (n : ℕ) (stop : Bool)
    (s : Scanned)
    → Stays w
    → c.phase ≡ waiting
    → c.to_client ≡ q ∷ qs
    → q.id ≡ i
    → on_answer w i q n ≡ some (stop, s)
    → Answered w c qs stop s
unfolding on_answer
answer-Answered w c closed q qs n stop s stays e h i r =
    subst (λ x. Answered w c qs x.0 x.1) (some_inj r) (told_closed e h i, refl)
answer-Answered w c refuse q qs n stop s stays e h i r =
    subst (λ x. Answered w c qs x.0 x.1) (some_inj r) (refused e h i, refl)
answer-Answered w c range q qs n stop s stays e h i r =
    range_answer w c q qs q.first q.second n stop s stays e h i refl refl r
answer-Answered w c _ q qs n stop s stays e h i r =
    subst (λ x. Answered w c qs x.0 x.1) (some_inj r) (passed w c q qs n e h (rw i refl))

loop_cases :
    (w : Worker) (q : Packet) (rs : List Read) (p : Packet) (n : ℕ) (r : Ran)
    → sock_loop w (whole q ∷ rs) p n ≡ some r
    → ((w.caught n ≡ true) × (r ≡ record { sent = []; ended = true }))
      ⊎ ((s : Scanned) × (on_answer w q.id q (suc n) ≡ some (true, s))
          × (r ≡ record { sent = with_done p ∷ s.sent; ended = true }))
      ⊎ ((s : Scanned) × (rest : Ran) × (on_answer w q.id q (suc n) ≡ some (false, s))
          × (sock_loop w rs s.packet s.looks ≡ some rest)
          × (r ≡ record { sent = with_done p ∷ (s.sent ++ rest.sent); ended = rest.ended }))
unfolding sock_loop get_packet
loop_cases w q rs p n r e = elim (Bool-cases (w.caught n)) [
  | inl signal ↦ inl (signal, ground arith)
  | inr quiet ↦ elim (Option-cases (on_answer w q.id q (suc n))) [
    | inl fault ↦ absurd (ground arith)
    | inr ((true, s), answer) ↦ inr (inl (s, answer, ground arith))
    | inr ((false, s), answer) ↦ elim (Option-cases (sock_loop w rs s.packet s.looks)) [
      | inl fault ↦ absurd (ground arith)
      | inr (rest, later) ↦ inr (inr (s, rest, answer, later, ground arith))
    ]
  ]
]

loop_over :
    (w : Worker) (rs : List Read) (p : Packet) (n : ℕ) (r : Ran)
    → w.caught n ≡ true
    → sock_loop w rs p n ≡ some r
    → r ≡ record { sent = []; ended = true }
unfolding sock_loop
loop_over w [] p n r signal e = ground arith
loop_over w (x ∷ rs) p n r signal e = ground arith

regroup :
    (out : List Packet) (p : Packet) (xs ys : List Packet)
    → ((out ++ p ∷ []) ++ xs) ++ ys ≡ out ++ (p ∷ (xs ++ ys))
regroup out p xs ys = simp append_assoc

regroup_nil :
    (out : List Packet) (p : Packet) (xs : List Packet)
    → (out ++ p ∷ []) ++ xs ≡ out ++ (p ∷ (xs ++ []))
regroup_nil out p xs = simp (append_assoc, append-nil)

-- The rest of the loop behind one answer.
goes_on :
    (w : Worker) (qs : List Packet) (p : Packet) (s : Scanned) (rest : Ran) (c : Conn) (r : Ran)
    → c.phase ≡ asking
    → (turn : Going w (more c (with_done p) waiting) qs s)
    → r ≡ record { sent = with_done p ∷ (s.sent ++ rest.sent); ended = rest.ended }
    → (turn.conn.phase ≡ asking → Follows turn.conn rest)
    → (w.caught s.looks ≡ true → rest ≡ record { sent = []; ended = true })
    → Follows c r
goes_on w qs p s rest c r e turn result loop over = elim turn.ends [
  | inl asks ↦
      let f = loop asks in
      record {
        conn = f.conn;
        moves = go (ask p e) (join turn.moves f.moves);
        sends =
            f.sends ∙ rw (turn.sends, result) (regroup c.to_server (with_done p) s.sent rest.sent);
        ends = λ x. f.ends (rw (← result_ended) x);
      }
  | inr (stopped, signal) ↦ record {
    conn = turn.conn;
    moves = go (ask p e) turn.moves;
    sends = turn.sends ∙ rw (result, over signal) (regroup_nil c.to_server (with_done p) s.sent);
    ends = λ x. stopped;
  }
]
  where
    result_ended : r.ended ≡ rest.ended
    result_ended = ap (λ (x : Ran). x.ended) result

-- For every signal that stays, whenever it comes, what sock_loop does with the answers that a
-- connection brings is a sequence of the steps of a worker in the network: it sends the same packets
-- in the same order, and the worker has finished if the loop has returned.
pub sock_loop-Follows :
    (w : Worker) (qs : List Packet) (p : Packet) (n : ℕ) (c : Conn) (r : Ran)
    → Stays w
    → c.phase ≡ asking
    → c.to_client ≡ qs
    → sock_loop w (reads_of qs) p n ≡ some r
    → Follows c r
unfolding sock_loop
sock_loop-Follows w [] p n c r stays e h ran = elim (Bool-cases (w.caught n)) [
  | inl signal ↦ record {
    conn = record c { phase = finished };
    moves = go (quit_asking e) stay;
    sends = ground (arith, append-nil c.to_server);
    ends = λ over. refl;
  }
  | inr quiet ↦ record {
    conn = c;
    moves = stay;
    sends = ground (arith, append-nil c.to_server);
    ends = λ over. absurd (ground arith);
  }
]
sock_loop-Follows w (q ∷ qs) p n c r stays e h ran = elim (loop_cases w q (reads_of qs) p n r ran) [
  | inl (signal, result) ↦ record {
    conn = record c { phase = finished };
    moves = go (quit_asking e) stay;
    sends = rw result (sym (append-nil c.to_server));
    ends = λ over. refl;
  }
  | inr (inl (s, answer, result)) ↦
      let d = more c (with_done p) waiting in
      let (mv, nothing) = answer-Answered w d q.id q qs (suc n) true s stays refl h refl answer in
      record {
        conn = record d { phase = finished; to_client = qs };
        moves = go (ask p e) (go mv stay);
        sends = rw (result, nothing) refl;
        ends = λ over. refl;
      }
  | inr (inr (s, rest, answer, later, result)) ↦
      let d = more c (with_done p) waiting in
      let turn = answer-Answered w d q.id q qs (suc n) false s stays refl h refl answer in
      goes_on w qs p s rest c r e turn result
        (λ a. sock_loop-Follows w qs s.packet s.looks turn.conn rest stays a turn.leaves later)
        (λ x. loop_over w (reads_of qs) s.packet s.looks rest x later)
]

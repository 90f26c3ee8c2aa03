-- ===== src/Network/Plain.antt =====
-- What a worker is sent: ranges, and a refusal at the end.
pub mod Steps
use perfnum.Prelude.{
  ℕ, zero, suc, ◌+◌, ◌≤◌, ◌<◌, ◌≡◌, ◌≢◌, ◌⊎◌, inl, inr, refl, sym, ◌∙◌, ap, ℤ, pos, negsuc,
  minus_one, is_neg, leb, ltb_int, ◌==ℤ◌, ==ℤ_iff, Bool, true, false, ◌&&◌, ◌||◌, not, none, some,
  some_inj, List, [], ◌∷◌, ◌++◌, map, get_elem?, set, if◌then◌else◌, Bool-cases, Option-cases,
  arith,
}
use perfnum.Packet.{
  PacketId, null, done, closed, kill, range, perf_num, notify, accept, refuse, unknown, Packet,
  Sent, send_packet,
}
use perfnum.Manage.Sock.{
  SockRes, Reply, nassign, on_perfnum, on_done, on_closed, on_notify, send_found, send_history,
  last_found, found, tell_notify, after_missed, next_range, dispatch,
}
use perfnum.Network.{
  Phase, asking, waiting, testing, registering, listening, finished, Conn, with_done, Move, ask,
  take_range, told_closed, refused, pass_over, test_perfect, test_other, range_over, quit_asking,
  quit_waiting, quit_testing, register, hear, quit_listening, push, deliver,
}
use perfnum.Network.Count.{sum_of, has_fd}

abbrev pub is_worker : Phase → Bool
is_worker asking = true
is_worker waiting = true
is_worker (testing i stop) = true
is_worker _ = false

-- A range of positive numbers up to b.
abbrev pub is_block : ℕ → ℤ → ℤ → Bool
is_block b (pos i) (pos j) = leb 1 i && leb j b
is_block b _ _ = false

-- An answer to a worker: a range, or the refusal, which comes only when all is assigned.
abbrev pub is_answer : ℕ → Bool → PacketId → Packet → Bool
is_answer b over range p = is_block b p.first p.second
is_answer b over refuse p = over
is_answer b over _ p = false

abbrev pub all_answers : ℕ → Bool → List Packet → Bool
all_answers b over [] = true
all_answers b over (p ∷ ps) = is_answer b over p.id p && all_answers b over ps

abbrev pub is_notify : PacketId → Bool
is_notify notify = true
is_notify _ = false

abbrev pub no_notify : List Packet → Bool
no_notify [] = true
no_notify (p ∷ ps) = not (is_notify p.id) && no_notify ps

abbrev pub in_block : ℕ → Phase → Bool
in_block b (testing i stop) = leb 1 i && leb stop b
in_block b _ = true

-- A worker asks, and is sent nothing but answers.
abbrev pub Plain : ℕ → Bool → ℤ → Conn → Type 0
Plain b over registered c =
    is_worker c.phase ≡ true
    → (all_answers b over c.to_client ≡ true)
      × (no_notify c.to_server ≡ true)
      × ((c.fd ==ℤ registered) ≡ false)
      × (in_block b c.phase ≡ true)

no_notify-append :
    (ps : List Packet) (p : Packet)
    → no_notify (ps ++ p ∷ []) ≡ (no_notify ps && not (is_notify p.id))
no_notify-append [] p = ground arith
no_notify-append (q ∷ ps) p = ground (arith, no_notify-append ps p)

pub all_answers-append :
    (b : ℕ) (over : Bool) (ps : List Packet) (p : Packet)
    → all_answers b over (ps ++ p ∷ []) ≡ (all_answers b over ps && is_answer b over p.id p)
all_answers-append b over [] p = ground arith
all_answers-append b over (q ∷ ps) p = ground (arith, all_answers-append b over ps p)

pub Move-Plain :
    {c c' : Conn} {lost : List (ℤ × ℤ)} (b : ℕ) (over : Bool) (registered : ℤ)
    → Move c c' lost
    → Plain b over registered c
    → Plain b over registered c'
Move-Plain {c} b over registered (ask p e) h =
    λ w. ground (arith, h (rw e refl), no_notify-append c.to_server (with_done p))
Move-Plain b over registered (take_range {p = p} w e i x y) h = λ v. ground (arith, h (rw w refl))
Move-Plain b over registered (told_closed w e i) h = λ v. cc
Move-Plain b over registered (refused w e i) h = λ v. cc
Move-Plain b over registered (pass_over {p = p} w e o) h = λ v. ground (arith, h (rw w refl))
Move-Plain {c} b over registered (test_perfect {i = i} p e le t) h = λ v.
    ground (
      arith,
      h (rw e refl),
      no_notify-append c.to_server (record p { id = perf_num; first = pos i }),
    )
Move-Plain b over registered (test_other e le o) h = λ v. ground (arith, h (rw e refl))
Move-Plain b over registered (range_over e lt) h = λ v. ground (arith, h (rw e refl))
Move-Plain b over registered (quit_asking e) h = λ v. cc
Move-Plain b over registered (quit_waiting e) h = λ v. cc
Move-Plain b over registered (quit_testing p e le) h = λ v. cc
Move-Plain b over registered (register p e) h = λ v. cc
Move-Plain b over registered (hear e i) h = λ v. ground arith
Move-Plain b over registered (quit_listening e) h = λ v. cc

-- A worker never passes an answer over.
pub Plain-passes :
    (b : ℕ) (over : Bool) (registered : ℤ) (c : Conn) (p : Packet) (ps : List Packet)
    → Plain b over registered c
    → c.phase ≡ waiting
    → c.to_client ≡ p ∷ ps
    → (p.id ≡ range) ⊎ (p.id ≡ refuse)
Plain-passes b over registered c p ps h w e = by_id p.id refl
  where
    by_id : (i : PacketId) → p.id ≡ i → (p.id ≡ range) ⊎ (p.id ≡ refuse)
    by_id range i = inl i
    by_id refuse i = inr i
    by_id _ i = absurd (ground (arith, h (rw w refl)))

-- What the server sends, beside the answer to a worker: to the client that is registered, or, as a
-- refusal, to one that asks to be.
abbrev pub Fits : ℕ → Bool → ℤ → PacketId → ℤ → Sent → Type 0
Fits b over registered i from s =
    (is_answer b over s.packet.id s.packet ≡ true)
    ⊎ (s.fd ≡ registered)
    ⊎ ((i ≡ notify) × (s.fd ≡ from))

abbrev pub AllFit : ℕ → Bool → ℤ → PacketId → ℤ → List Sent → Type 0
AllFit b over registered i from [] = Unit
AllFit b over registered i from (s ∷ ss) =
    Fits b over registered i from s × AllFit b over registered i from ss

pub AllFit-append :
    (b : ℕ) (over : Bool) (registered : ℤ) (i : PacketId) (from : ℤ) (xs ys : List Sent)
    → AllFit b over registered i from xs
    → AllFit b over registered i from ys
    → AllFit b over registered i from (xs ++ ys)
AllFit-append b over registered i from [] ys h k = k
AllFit-append b over registered i from (x ∷ xs) ys h k =
    (h.0, AllFit-append b over registered i from xs ys h.1 k)

pub tell_notify-Fit :
    (b : ℕ) (over : Bool) (i : PacketId) (from : ℤ) (t : SockRes) (p : Packet)
    → AllFit b over t.notify i from (tell_notify t p)
unfolding tell_notify
tell_notify-Fit b over i from t p = elim (Bool-cases (t.notify ==ℤ minus_one)) [
  | inl nobody ↦ rw nobody tt
  | inr somebody ↦ rw somebody (inr (inl refl), tt)
]

pub send_found-Fit :
    (b : ℕ) (over : Bool) (i : PacketId) (fd : ℤ) (ns : List ℤ) (o : Packet)
    → AllFit b over fd i fd (send_found fd ns o)
unfolding send_found
send_found-Fit b over i fd [] o = tt
send_found-Fit b over i fd (n ∷ ns) o =
    (inr (inl refl), send_found-Fit b over i fd ns (record o { first = n }))

-- ===== src/Compute/Sock/Ranges.antt =====
-- What a worker in socket mode sends for the ranges that it is given.
use perfnum.Prelude.{
  ℕ, zero, suc, ◌+◌, ◌-◌, ◌≤◌, ◌<◌, ◌≡◌, refl, pos, true, false, some, List, [], ◌∷◌, ◌++◌,
  replicate, length, ◌==◌, if◌then◌else◌, arith,
}
use perfnum.Packet.{done, closed, range, Packet, Read, whole, eof, get_packet, zero_packet}
use perfnum.Compute.Perfect.Spec.{aliquot}
use perfnum.Compute.Perfect.Correct.{is_perfect_number_small}
use perfnum.Compute.Sock.{
  Worker, sock_report, scan_range, range_size, on_range, on_answer, Ran, sock_loop,
}

-- The reports of the perfect numbers among `count` numbers from i on.
abbrev pub reports : Worker → ℕ → ℕ → List Packet
reports w zero i = []
reports w (suc count) i =
    if aliquot i == i then sock_report w i ∷ reports w count (suc i) else reports w count (suc i)

-- No signal is caught.
abbrev pub Quiet : Worker → Type 0
Quiet w = (n : ℕ) → w.caught n ≡ false

scan_range-Quiet :
    (w : Worker) (rounds i : ℕ) (p : Packet) (n : ℕ)
    → Quiet w
    → 0 < i
    → i + rounds ≤ 25000001
    → scan_range w rounds i p n
      ≡ some (record { sent = reports w rounds i; packet = p; looks = n + rounds })
unfolding scan_range
scan_range-Quiet w zero i p n q h small = ground arith
scan_range-Quiet w (suc rounds) i p n q h small = ground (
  arith,
  q n,
  is_perfect_number_small i h (omega arith),
  scan_range-Quiet w rounds (suc i) p (suc n) q,
)

-- A range packet of the server.
abbrev pub range_packet : ℕ × ℕ → Packet
range_packet (a, b) = record { id = range; first = pos a; second = pos b }

abbrev pub answers : List (ℕ × ℕ) → List Read
answers [] = []
answers (r ∷ rs) = whole (range_packet r) ∷ answers rs

-- Ranges whose numbers are from 1 to 25000000.
abbrev pub Small : List (ℕ × ℕ) → Type 0
Small [] = Unit
Small ((a, b) ∷ rs) = (0 < a) × (a ≤ b) × (b ≤ 25000000) × Small rs

-- What the worker sends while it is given these ranges: each time a done packet, in what the packet
-- variable held, and the perfect numbers of the range.
abbrev pub talk : Worker → Packet → List (ℕ × ℕ) → List Packet
talk w p [] = record p { id = done } ∷ []
talk w p ((a, b) ∷ rs) =
    record p { id = done } ∷ (reports w (suc b - a) a ++ talk w (range_packet (a, b)) rs)

-- A worker that is given ranges up to 25000000 one after the other and then told that the server has
-- closed, and that catches no signal, answers each range with exactly the perfect numbers in it, in
-- order, asks again after each with one done packet, and returns.
pub sock_loop-ranges :
    (w : Worker) (rs : List (ℕ × ℕ)) (p q : Packet) (n : ℕ)
    → Quiet w
    → Small rs
    → q.id ≡ closed
    → sock_loop w (answers rs ++ whole q ∷ []) p n
      ≡ some (record { sent = talk w p rs; ended = true })
unfolding sock_loop on_answer on_range get_packet
sock_loop-ranges w [] p q n quiet small c = ground (arith, quiet n)
sock_loop-ranges w ((a, b) ∷ rs) p q n quiet (lo, le, hi, more) c = ground (
  arith,
  quiet n,
  scan_range-Quiet w (range_size a b) a (range_packet (a, b)) (suc n) quiet lo (omega arith),
  sock_loop-ranges w rs (range_packet (a, b)) q (suc n + range_size a b) quiet more c,
)

-- When the server is gone and no signal is caught, sock_loop does not return: in any number of rounds
-- it sends one more done packet each.
sock_loop-eof :
    (w : Worker) (n looks : ℕ) (p : Packet)
    → Quiet w
    → (r : Ran) × (sock_loop w (replicate n eof) p looks ≡ some r)
      × (r.ended ≡ false)
      × (length r.sent ≡ n)
unfolding sock_loop on_answer get_packet
sock_loop-eof w zero looks p quiet = (_, refl, quiet looks, refl)
sock_loop-eof w (suc n) looks p quiet =
    let (r, e, running, count) = sock_loop-eof w n (suc looks) zero_packet quiet in
    (
      record r { sent = record p { id = done } ∷ r.sent },
      ground (arith, quiet looks, e),
      running,
      omega (arith, count),
    )

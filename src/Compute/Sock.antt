-- ===== src/Compute/Sock.antt =====
-- compute.c, sock_loop and sock_report: the worker that asks a server for ranges.
pub mod Ranges
use perfnum.Prelude.{
  ℕ, zero, suc, ◌+◌, ◌-◌, ℤ, pos, negsuc, Bool, true, false, Option, none, some, List, [], ◌∷◌,
  ◌++◌, ltb, if◌then◌else◌,
}
use perfnum.Packet.{
  PacketId, done, closed, range, perf_num, refuse, Packet, Read, get_packet, pid_client,
}
use perfnum.Compute.Perfect.{is_perfect_number}

-- Whether exit_status differs from EXIT_SUCCESS when it is looked at for the n-th time, and the
-- uninitialised local packet of sock_report.
pub record Worker : Type 0 where
  pub caught : ℕ → Bool
  pub local : Packet

-- sock_report
unfoldable pub sock_report : Worker → ℕ → Packet
sock_report w n = record (w.local) { id = perf_num; first = pos n }

-- What the loop over a range leaves: the packets sent, the packet variable, and the number of looks.
pub record Scanned : Type 0 where
  pub sent : List Packet
  pub packet : Packet
  pub looks : ℕ

-- if (is_perfect_number(i) == true) sock_report(fd, i);
abbrev report_if : Worker → ℕ → Bool → List Packet → List Packet
report_if w i perfect rest = if perfect then sock_report w i ∷ rest else rest

-- case PACKETID_RANGE, with `rounds` numbers left, at number i. `none` is a write past an array in
-- is_perfect_number.
unfoldable pub scan_range : Worker → ℕ → ℕ → Packet → ℕ → Option Scanned
unfolding sock_report
scan_range w zero i p looks = some (record { sent = []; packet = p; looks = looks })
scan_range w (suc rounds) i p looks =
    let stop : Packet = record p { id = closed; first = pid_client } in
    let body : Option Scanned = elim (is_perfect_number i) [
      | none ↦ none
      | some perfect ↦ elim (scan_range w rounds (suc i) p (suc looks)) [
        | none ↦ none
        | some r ↦ some (record r { sent = report_if w i perfect r.sent })
      ]
    ] in
    if w.caught looks
    then some (record { sent = stop ∷ []; packet = stop; looks = suc looks })
    else body

-- How many numbers the loop over the range has: end - start + 1, or none. Ranges of numbers that
-- are not above 0 are not modelled; the server sends none.
abbrev pub range_size : ℕ → ℕ → ℕ
range_size start stop = suc stop - start

-- case PACKETID_RANGE, from the members of the packet.
unfoldable pub on_range : Worker → ℤ → ℤ → Packet → ℕ → Option (Bool × Scanned)
unfolding scan_range
on_range w (pos a) (pos b) p looks = elim (scan_range w (range_size a b) a p looks) [
  | none ↦ none
  | some r ↦ some (false, r)
]
on_range w _ _ p looks = none

-- The switch on the answer: whether `done` is set, and what the loop over a range leaves.
unfoldable pub on_answer : Worker → PacketId → Packet → ℕ → Option (Bool × Scanned)
unfolding on_range
on_answer w closed p looks = some (true, record { sent = []; packet = p; looks = looks })
on_answer w refuse p looks = some (true, record { sent = []; packet = p; looks = looks })
on_answer w range p looks = on_range w p.first p.second p looks
on_answer w _ p looks = some (false, record { sent = []; packet = p; looks = looks })

-- The packets sent to the server, and whether sock_loop has returned or only the list of answers
-- has ended.
pub record Ran : Type 0 where
  pub sent : List Packet
  pub ended : Bool

abbrev before : List Packet → Ran → Ran
before ps r = record r { sent = ps ++ r.sent }

-- The loop `while (done == false)`, with the packet variable p: one element of the list for each
-- get_packet.
unfoldable pub sock_loop : Worker → List Read → Packet → ℕ → Option Ran
unfolding on_answer
sock_loop w [] p looks = some (record { sent = []; ended = w.caught looks })
sock_loop w (r ∷ rs) p looks =
    let answer = (get_packet r).1 in
    let body : Option Ran = elim (on_answer w answer.id answer (suc looks)) [
      | none ↦ none
      | some (true, s) ↦ some (record { sent = record p { id = done } ∷ s.sent; ended = true })
      | some (false, s) ↦ elim (sock_loop w rs s.packet s.looks) [
        | none ↦ none
        | some rest ↦ some (before (record p { id = done } ∷ s.sent) rest)
      ]
    ] in
    if w.caught looks then some (record { sent = []; ended = true }) else body

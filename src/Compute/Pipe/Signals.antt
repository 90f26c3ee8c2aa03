-- ===== src/Compute/Pipe/Signals.antt =====
-- What the worker in pipe mode sends, by the moment at which a signal arrives.
use perfnum.Prelude.{
  ℕ, zero, suc, ◌+◌, ◌-◌, ◌≤◌, ◌<◌, ◌≡◌, pos, none, some, List, [], ◌∷◌, ltb, leb, ◌==◌,
  if◌then◌else◌, arith,
}
use perfnum.Packet.{Packet}
use perfnum.Compute.Perfect.Spec.{aliquot}
use perfnum.Compute.Perfect.Correct.{is_perfect_number_small}
use perfnum.Compute.Pipe.{Worker, pipe_report, closed_packet, done_packet, pipe_scan, pipe_loop}

-- The reports of the perfect numbers among `count` numbers from i on, before `rest`.
abbrev pub reports : Worker → ℕ → ℕ → List Packet → List Packet
reports w zero i rest = rest
reports w (suc count) i rest =
    if aliquot i == i
    then pipe_report w i ∷ reports w count (suc i) rest
    else reports w count (suc i) rest

-- exit_status is set between its looks k - 1 and k, and stays set.
abbrev pub CaughtAt : Worker → ℕ → Type 0
CaughtAt w k = (n : ℕ) → w.caught n ≡ leb k n

pipe_scan-signal :
    (w : Worker) (k rounds i n : ℕ)
    → CaughtAt w (n + k)
    → 0 < i
    → i + rounds ≤ 25000001
    → pipe_scan w rounds i n
      ≡ some (
          if ltb k rounds
          then reports w k i (closed_packet w ∷ [])
          else if k == rounds
          then reports w rounds i []
          else reports w rounds i (done_packet w ∷ []))
unfolding pipe_scan
pipe_scan-signal w k zero i n c h small = ground (arith, c n)
pipe_scan-signal w zero (suc rounds) i n c h small = ground (arith, c n, c (suc n))
pipe_scan-signal w (suc k) (suc rounds) i n c h small =
    let same : n + suc k ≡ suc n + k = omega arith in
    ground (
      arith,
      c n,
      is_perfect_number_small i h (omega arith),
      pipe_scan-signal w k rounds (suc i) (suc n) (λ m. rw (← same) (c m)),
    )

-- Of a range with at least two numbers, up to 25000000, the worker reports the perfect numbers that it
-- comes to before a signal is seen, in order: those of the first k numbers, if the signal is caught
-- behind the k-th look at exit_status. It then sends a closed packet if numbers are left, a done
-- packet if there is no signal before the last look, and nothing at all if the signal arrives
-- between the look before the last number and the last look.
pub pipe_loop-signal :
    (w : Worker) (k first last : ℕ)
    → CaughtAt w k
    → 0 < first
    → first < last
    → last ≤ 25000000
    → pipe_loop w (pos first) (pos last)
      ≡ some (
          if ltb k (last - first + 1)
          then reports w k first (closed_packet w ∷ [])
          else if k == last - first + 1
          then reports w (last - first + 1) first []
          else reports w (last - first + 1) first (done_packet w ∷ []))
unfolding pipe_loop
pipe_loop-signal w k first last c h lt small =
    let same : 0 + k ≡ k = omega arith in
    ground (arith, pipe_scan-signal w k (last - first + 1) first 0 (λ m. rw same (c m)))

-- A range of one number or none, and one that does not start above 0, fails an assertion before
-- anything is sent.
pub pipe_loop-aborts :
    (w : Worker) (first last : ℕ) → last ≤ first → pipe_loop w (pos first) (pos last) ≡ none
unfolding pipe_loop
pipe_loop-aborts w first last h = ground arith

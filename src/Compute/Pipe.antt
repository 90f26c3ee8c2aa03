-- ===== src/Compute/Pipe.antt =====
-- compute.c, pipe_loop and pipe_report: the worker that manage starts with a range of its own.
pub mod Signals
use perfnum.Prelude.{
  ℕ, zero, suc, ◌+◌, ◌-◌, ℤ, pos, negsuc, Bool, true, false, ◌&&◌, Option, none, some, List, [],
  ◌∷◌, ltb, if◌then◌else◌,
}
use perfnum.Packet.{Packet, done, closed, perf_num}
use perfnum.Compute.Perfect.{is_perfect_number}

-- What stays the same during the loop: getpid(), whether exit_status differs from EXIT_SUCCESS when
-- it is looked at for the n-th time, and the uninitialised local variables.
pub record Worker : Type 0 where
  pub pid : ℤ
  pub caught : ℕ → Bool
  pub local : Packet

-- pipe_report
unfoldable pub pipe_report : Worker → ℕ → Packet
pipe_report w n = record (w.local) { id = perf_num; first = pos n }

abbrev pub closed_packet : Worker → Packet
closed_packet w = record (w.local) { id = closed; first = w.pid }

abbrev pub done_packet : Worker → Packet
done_packet w = record (w.local) { id = done; first = w.pid }

-- The part behind the loop, at look n.
unfoldable pub pipe_finish : Worker → ℕ → List Packet
pipe_finish w n = if w.caught n then [] else done_packet w ∷ []

-- if (is_perfect_number(i) == true) pipe_report(i);
unfoldable pub report_if : Worker → ℕ → Bool → List Packet → List Packet
unfolding pipe_report
report_if w i perfect rest = if perfect then pipe_report w i ∷ rest else rest

-- The loop with `rounds` numbers left, at number i and look n, and what follows it: the packets
-- written to the pipe. `none` is a write past an array in is_perfect_number.
unfoldable pub pipe_scan : Worker → ℕ → ℕ → ℕ → Option (List Packet)
unfolding pipe_finish report_if
pipe_scan w zero i n = some (pipe_finish w n)
pipe_scan w (suc rounds) i n =
    let body : Option (List Packet) = elim (is_perfect_number i) [
      | none ↦ none
      | some perfect ↦ elim (pipe_scan w rounds (suc i) (suc n)) [
        | none ↦ none
        | some rest ↦ some (report_if w i perfect rest)
      ]
    ] in
    if w.caught n then some (closed_packet w ∷ pipe_finish w (suc n)) else body

-- pipe_loop. `none` is also a failed assertion.
unfoldable pub pipe_loop : Worker → ℤ → ℤ → Option (List Packet)
unfolding pipe_scan
pipe_loop w (pos first) (pos last) =
    if ltb 0 first && ltb first last then pipe_scan w (last - first + 1) first 0 else none
pipe_loop w _ _ = none

-- ===== src/Network/Tests.antt =====
-- The theorems about the network at a concrete run: with limit 6 a worker comes, gets a range, finds
-- 6, is interrupted and leaves; another one comes and is refused.
pub mod Listed
use perfnum.Compute.Perfect.{is_perfect_number}
use perfnum.Network.Complete.{says-aliquot}
use perfnum.Network.Room.{results_fit}
use perfnum.Network.Finish.Found.Ends.{FoundAll, search_ends}
use perfnum.Network.Tests.Listed.{perfect_numbers, copies-perfect_numbers}
use perfnum.Prelude.{sym, ◌∙◌}
use perfnum.Network.{testing}
use perfnum.Network.Termination.{events, arrivals, measure, run_bounded}
use perfnum.Network.Finish.{Next, Fault}
use perfnum.Network.Finish.Found.{Quiet, still, on, steps, search_finishes}
use perfnum.Network.Complete.{AllIdle}
use perfnum.Compute.Sock.{Worker, sock_loop}
use perfnum.Network.Worker.Loop.{Follows, sock_loop-Follows}
use perfnum.Network.Progress.{asks, waiting_answered}
use perfnum.Manage.Sock.Trace.{IsClient}
use perfnum.Prelude.{
  ◌*◌, ◌/◌, ℕ, ◌+◌, ◌≤◌, ◌≡◌, ◌≢◌, refl, inl, ◌⊎◌, length, pos, true, false, some, List, [], ◌∷◌,
  get_elem?, get_elem?-replicate, minus_one, set, replicate, ◌==◌, if◌then◌else◌, arith,
}
use perfnum.Packet.{done, refuse, perf_num, Packet, get_packet, Sent, zero_packet}
use perfnum.Compute.Perfect.{is_perfect_number}
use perfnum.Compute.Perfect.Spec.{aliquot}
use perfnum.Manage.Sock.{max_limit, Reply, found, sock_handle_packet}
use perfnum.Manage.Sock.Accept.{accept_client, disconnect}
use perfnum.Manage.Sock.Loop.{sock_init}
use perfnum.Network.{
  asking, waiting, new_conn, Conn, Net, Step, serve, move, arrive, leave, Run, start, later, fresh,
  ask, take_range, refused, test_perfect, test_other, quit_testing,
}
use perfnum.Network.Conserve.{copies}
use perfnum.Network.Balance.{Balance}
use perfnum.Network.Complete.{search-Balance, search_complete}

abbrev beginning : Net
beginning = fresh (sock_init 8 (pos 3) (pos 6) (pos 0))

record Reached : Type 0 where
  last : Net
  sent : List Sent
  run : Run beginning last sent

abbrev then_step : (r : Reached) {n : Net} {s : List Sent} → Step r.last n s → Reached
then_step r st = record { last = _; sent = _; run = later r.run st }

unused_slot : (i : ℕ) → get_elem? beginning.server.clients i ≢ some (pos 5)
unfolding sock_init
unused_slot i e = cc (get_elem?-replicate 8 i minus_one e)

none_yet : (j : ℕ) (c : Conn) → get_elem? [] j ≡ some c → c.fd ≢ pos 5
none_yet j c e = cc

abbrev come : Reached
unfolding sock_init accept_client
come =
    then_step (record { last = beginning; sent = []; run = start })
      (arrive (pos 5) 0 asking (inl refl) unused_slot none_yet refl (refl, refl))

abbrev given : Reached
unfolding sock_init accept_client sock_handle_packet
given =
    let asked = then_step come (move 0 refl (ask zero_packet refl)) in
    let served = then_step asked (serve 0 zero_packet refl refl (refl, refl) refl) in
    then_step served (move 0 refl (take_range refl refl refl refl refl))

abbrev tested : Reached
unfolding sock_init accept_client sock_handle_packet is_perfect_number
tested =
    let one = then_step given (move 0 refl (test_other refl (omega arith) refl)) in
    let two = then_step one (move 0 refl (test_other refl (omega arith) refl)) in
    let three = then_step two (move 0 refl (test_other refl (omega arith) refl)) in
    let four = then_step three (move 0 refl (test_other refl (omega arith) refl)) in
    let five = then_step four (move 0 refl (test_other refl (omega arith) refl)) in
    then_step five (move 0 refl (test_perfect zero_packet refl (omega arith) refl))

abbrev gone : Reached
unfolding sock_init accept_client sock_handle_packet is_perfect_number disconnect
gone =
    let read = then_step tested (serve 0 zero_packet refl refl (refl, refl) refl) in
    let stopped = then_step read (move 0 refl (quit_testing zero_packet refl (omega arith))) in
    let told = then_step stopped (serve 0 zero_packet refl refl (refl, refl) refl) in
    then_step told (leave 0 refl refl refl (refl, refl))

unused_again : (i : ℕ) → get_elem? (set (replicate 8 minus_one) 0 minus_one) i ≢ some (pos 5)
unused_again i e = cc (get_elem?-replicate 8 i minus_one e)

abbrev over : Reached
unfolding sock_init accept_client sock_handle_packet is_perfect_number disconnect
over =
    let again =
      then_step gone (arrive (pos 5) 0 asking (inl refl) unused_again none_yet refl (refl, refl)) in
    let asked = then_step again (move 0 refl (ask zero_packet refl)) in
    let served = then_step asked (serve 0 zero_packet refl refl (refl, refl) refl) in
    then_step served (move 0 refl (refused refl refl refl))

search-Balance_example : Balance 6 gone.last × (gone.last.server.highest_assigned ≤ max_limit)
search-Balance_example = search-Balance 8 (pos 3) 6 (pos 0) 6 gone.run (omega arith)

search_complete_example : copies 6 (found over.last.server) ≡ (if aliquot 6 == 6 then 1 else 0)
unfolding sock_init accept_client sock_handle_packet is_perfect_number disconnect
search_complete_example =
    search_complete 8 (pos 3) 6 (pos 0) 6 over.run refl ((refl, refl, tt), tt) refl (omega arith)
      (omega arith) (omega arith)

abbrev worker : Worker
worker = record { caught = λ n. false; local = zero_packet }

abbrev told : Conn
told = record (new_conn (pos 5) 0 asking) { to_client = record zero_packet { id = refuse } ∷ [] }

sock_loop-Follows_example :
    Follows told (record { sent = record zero_packet { id = done } ∷ []; ended = true })
unfolding sock_loop get_packet
sock_loop-Follows_example =
    sock_loop-Follows worker (record zero_packet { id = refuse } ∷ []) zero_packet 0 told
      (record { sent = record zero_packet { id = done } ∷ []; ended = true }) (λ n e. e) refl refl
      refl

abbrev asked : Reached
unfolding sock_init accept_client
asked = then_step come (move 0 refl (ask zero_packet refl))

abbrev asker : Conn
asker = record (new_conn (pos 5) 0 waiting) { to_server = record zero_packet { id = done } ∷ [] }

waiting_answered_example :
    ((p : Packet) × (rest : List Packet) × (asker.to_client ≡ p ∷ rest))
    ⊎ ((p : Packet) × (rest : List Packet) × (asker.to_server ≡ p ∷ rest)
        × (asks asker.to_server ≡ true)
        × IsClient asked.last.server asker.slot asker.fd
        × (((r : Reply) × (sock_handle_packet asker.fd asked.last.server p zero_packet ≡ some r))
            ⊎ ((p.id ≡ perf_num)
                × (length asked.last.server.perfnums ≤ asked.last.server.nperfnums))))
unfolding sock_init accept_client
waiting_answered_example =
    waiting_answered 8 (pos 3) (pos 6) (pos 0) 0 asker zero_packet asked.run refl refl

run_bounded_example :
    (events over.run ≤ 3006 * ((6 + 999) / 1000) + 15 * arrivals over.run)
    × (over.last.server.highest_assigned ≤ max_limit)
run_bounded_example = run_bounded 8 (pos 3) 6 (pos 0) over.run (omega arith)

record Left (n : Net) : Type 0 where
  now : Net
  sent : List Sent
  run : Quiet n now sent

-- The worker that has come asks, and gets its range.
abbrev served : Left come.last
unfolding sock_init accept_client sock_handle_packet
served = record {
  now = _;
  sent = _;
  run =
      on
        (on (on still (move 0 refl (ask zero_packet refl)) refl)
          (serve 0 zero_packet refl refl (refl, refl) refl) refl)
        (move 0 refl (take_range refl refl refl refl refl)) refl;
}

search_finishes_example :
    (steps served.run ≤ measure come.last)
    × ((Next served.now ⊎ Fault served.now)
        ⊎ ((served.now.server.done ≡ true)
            × AllIdle served.now.conns
            × (copies 6 (found served.now.server) ≡ (if aliquot 6 == 6 then 1 else 0))))
unfolding sock_init accept_client sock_handle_packet
search_finishes_example =
    search_finishes 8 (pos 3) 6 (pos 0) 6 come.run served.run (omega arith) (omega arith) refl
      (omega arith) (omega arith)

search_ends_example :
    (t : Net) × (s' : List Sent) × Quiet come.last t s'
    × (t.server.done ≡ true)
    × (6 ≤ t.server.highest_assigned)
    × AllIdle t.conns
    × FoundAll t
unfolding sock_init accept_client
search_ends_example =
    search_ends 8 (pos 3) 6 (pos 0) perfect_numbers (omega arith) (omega arith)
      (λ k lo hi p. copies-perfect_numbers k lo (omega (arith, hi)) p) come.run (omega arith)

abbrev found_six : Packet
found_six = record zero_packet { id = perf_num; first = pos 6 }

results_fit_example :
    (r : Reply) × (sock_handle_packet (pos 5) tested.last.server found_six zero_packet ≡ some r)
unfolding sock_init accept_client sock_handle_packet is_perfect_number
results_fit_example =
    results_fit 8 (pos 3) 6 (pos 0) perfect_numbers 0
      (record (new_conn (pos 5) 0 (testing 7 1000)) { to_server = found_six ∷ [] }) found_six []
      zero_packet tested.run (omega arith) (omega arith)
      (λ k lo hi p. copies-perfect_numbers k lo (omega (arith, hi)) p) refl refl

-- ===== src/Compute/Table/Tests.antt =====
-- The theorems about the worker's loops at concrete inputs.
use perfnum.Prelude.{
  ℕ, ◌≡◌, refl, pos, minus_one, Bool, true, false, some, List, [], ◌∷◌, ◌++◌, set, arith,
}
use perfnum.Packet.{closed, whole, zero_packet}
use perfnum.Shmem.{Process}
use perfnum.Shmem.Object.{unused}
use perfnum.Compute.Table.{Turn, free_process, shmem_loop}
use perfnum.Compute.Table.Slots.{taken, perfect_among, shmem_loop-counts}
use perfnum.Compute.Sock.{Worker, sock_loop}
use perfnum.Compute.Sock.Ranges.{answers, talk, sock_loop-ranges}

abbrev turn : ℕ → Bool → Turn
turn n caught = record { test = n; waits = true; posts = true; caught = caught }

abbrev slots : List Process
slots = record unused { pid = pos 5 } ∷ unused ∷ []

abbrev turns : List Turn
turns = turn 6 false ∷ turn 7 true ∷ turn 28 false ∷ []

shmem_loop-counts_example :
    (after : List ℕ) × (shmem_loop (pos 8) turns slots (0 ∷ 0 ∷ [])
      ≡ some (
        set slots 1 (record { pid = minus_one; found = perfect_among turns; tested = taken turns }),
        after,
      ))
unfolding free_process
shmem_loop-counts_example =
    shmem_loop-counts (pos 8) turns slots (0 ∷ 0 ∷ []) 1 refl
      (omega arith, omega arith, (omega arith, omega arith, (omega arith, omega arith, tt)))
      (refl, (refl, (refl, tt))) (ground arith)

abbrev worker : Worker
worker = record { caught = λ n. false; local = zero_packet }

sock_loop-ranges_example :
    sock_loop worker
      (answers ((1, 1000) ∷ (1001, 2000) ∷ []) ++ whole (record zero_packet { id = closed }) ∷ [])
      zero_packet
      0
    ≡ some (record { sent = talk worker zero_packet ((1, 1000) ∷ (1001, 2000) ∷ []); ended = true })
sock_loop-ranges_example =
    sock_loop-ranges worker ((1, 1000) ∷ (1001, 2000) ∷ []) zero_packet
      (record zero_packet { id = closed }) 0 (λ n. refl)
      (omega arith, omega arith, omega arith, (omega arith, omega arith, omega arith, tt)) refl

-- ===== src/Compute/Tests.antt =====
-- The theorems about the worker and its bitmap at concrete inputs.
use perfnum.Prelude.{
  ℕ, zero, suc, ◌≡◌, ◌≤◌, ◌<◌, ◌⊎◌, ◌↔◌, refl, pos, Bool, true, some, [], ◌∷◌, ◌++◌, get_elem?, ltb,
  leb, ◌==◌, if◌then◌else◌, replicate, get_elem?-replicate, arith,
}
use perfnum.Packet.{zero_packet}
use perfnum.Shmem.{area_bit, store_bit}
use perfnum.Shmem.Scan.{next_test, AllSet, scan_overrun}
use perfnum.Compute.Perfect.{is_perfect_number}
use perfnum.Compute.Perfect.Spec.{IsPerfect}
use perfnum.Compute.Perfect.Correct.{is_perfect_number-IsPerfect}
use perfnum.Compute.Pipe.{Worker, pipe_loop, closed_packet, done_packet}
use perfnum.Compute.Pipe.Signals.{reports, pipe_loop-signal}
use perfnum.Compute.Claim.{Pc, scanning, returned, exhausted, result, Memory, IsFresh, start}
use perfnum.Compute.Claim.Invariant.{claims}
use perfnum.Compute.Claim.Safety.{claimed_once, exhausted_all}
use perfnum.Compute.Claim.Schedule.{Ran, run}
use perfnum.Compute.Claim.Alone.{Run, next_test_alone}

is_perfect_number-IsPerfect_example :
    (b : Bool) × (is_perfect_number 496 ≡ some b) × ((b ≡ true) ↔ IsPerfect 496)
is_perfect_number-IsPerfect_example = is_perfect_number-IsPerfect 496 (omega arith) (omega arith)

is_perfect_number_runs : is_perfect_number 496 ≡ some true
unfolding is_perfect_number
is_perfect_number_runs = refl

-- next_test of the worker gives 0 when sem_post fails, and 0 passes the test.
zero_passes : is_perfect_number 0 ≡ some true
unfolding is_perfect_number
zero_passes = refl

-- A signal at the third look.
abbrev signalled : Worker
signalled = record { pid = pos 7; caught = λ n. leb 2 n; local = zero_packet }

pipe_loop-signal_example :
    pipe_loop signalled (pos 5) (pos 9)
    ≡ some (
        if ltb 2 5
        then reports signalled 2 5 (closed_packet signalled ∷ [])
        else if 2 == 5
        then reports signalled 5 5 []
        else reports signalled 5 5 (done_packet signalled ∷ []))
pipe_loop-signal_example =
    pipe_loop-signal signalled 2 5 9 (λ n. refl) (omega arith) (omega arith) (omega arith)

full_byte : AllSet (255 ∷ 1 ∷ []) 0 8
unfolding area_bit
full_byte zero lo lt = refl
full_byte (suc zero) lo lt = refl
full_byte (suc (suc zero)) lo lt = refl
full_byte (suc (suc (suc zero))) lo lt = refl
full_byte (suc (suc (suc (suc zero)))) lo lt = refl
full_byte (suc (suc (suc (suc (suc zero))))) lo lt = refl
full_byte (suc (suc (suc (suc (suc (suc zero)))))) lo lt = refl
full_byte (suc (suc (suc (suc (suc (suc (suc zero))))))) lo lt = refl
full_byte (suc (suc (suc (suc (suc (suc (suc (suc i)))))))) lo lt = absurd (omega arith)

-- Limit 7: one byte of bitmap, and the semaphore behind it.
scan_overrun_example : (n : ℕ) × (next_test ((255 ∷ []) ++ (1 ∷ [])) ≡ pos n) × (7 < n)
unfolding area_bit
scan_overrun_example = scan_overrun 7 (255 ∷ []) (1 ∷ []) 1 refl full_byte (omega arith) refl

abbrev pub blank : Memory
blank = record { area = 0 ∷ []; free = true; history = [] }

blank_clear : (k : ℕ) → k < 8 → area_bit (0 ∷ []) k ≡ 0
unfolding area_bit
blank_clear zero lt = refl
blank_clear (suc zero) lt = refl
blank_clear (suc (suc zero)) lt = refl
blank_clear (suc (suc (suc zero))) lt = refl
blank_clear (suc (suc (suc (suc zero)))) lt = refl
blank_clear (suc (suc (suc (suc (suc zero))))) lt = refl
blank_clear (suc (suc (suc (suc (suc (suc zero)))))) lt = refl
blank_clear (suc (suc (suc (suc (suc (suc (suc zero))))))) lt = refl
blank_clear (suc (suc (suc (suc (suc (suc (suc (suc i)))))))) lt = absurd (omega arith)

blank_bytes : (i b : ℕ) → get_elem? (replicate 1 0) i ≡ some b → b < 256
blank_bytes i b e = omega (arith, get_elem?-replicate 1 i 0 e)

pub blank-IsFresh : IsFresh 1 blank
blank-IsFresh = record {
  clear = blank_clear;
  bytes = blank_bytes;
  inside = omega arith;
  unlocked = refl;
  nothing = refl;
}

abbrev beginning : Ran 1
beginning = record { last = _; reach = start blank blank-IsFresh }

-- Both workers see the first number free; worker 1 gets the lock, and worker 0 goes on to the next.
abbrev raced : Ran 1
raced = run beginning ((0, 1) ∷ (1, 5) ∷ (0, 8) ∷ [])

raced_places : (raced.last.pc 0 ≡ returned 1) × (raced.last.pc 1 ≡ returned 0)
unfolding run area_bit store_bit
raced_places = (refl, refl)

claimed_once_example :
    (claims 0 raced.last.mem.history ≤ 1)
    × (area_bit raced.last.mem.area 0 ≡ claims 0 raced.last.mem.history)
claimed_once_example = claimed_once 0 raced.reach (omega arith)

-- Two workers take the eight numbers of one byte.
abbrev finished : Ran 1
finished = run beginning ((0, 1) ∷ (1, 70) ∷ (0, 80) ∷ [])

exhausted_all_example : claims 5 finished.last.mem.history ≡ 1
unfolding run area_bit store_bit
exhausted_all_example = exhausted_all 0 5 finished.reach refl (omega arith)

next_test_alone_example :
    (n : Memory) × (p : Pc) × Run 3 n p blank (scanning 0)
    × (result p ≡ some (next_test blank.area))
    × (n.free ≡ true)
    × (((p ≡ exhausted) × (n ≡ blank))
        ⊎ ((j : ℕ) × (p ≡ returned j)
            × (area_bit blank.area j ≡ 0)
            × ((i : ℕ) → area_bit n.area i ≡ (if j == i then 1 else area_bit blank.area i))
            × (n.history ≡ (3, j) ∷ blank.history)))
next_test_alone_example = next_test_alone 3 blank refl blank_bytes

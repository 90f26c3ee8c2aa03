-- ===== src/Shared.antt =====
-- Shared memory mode as a whole: workers that run shmem_loop of compute.c, with next_test and
-- shmem_report step by step, on one shared object.
pub mod Account
pub mod Matches
pub mod Complete
pub mod Once
pub mod Exact
pub mod Reported
pub mod Schedule
pub mod Tests
use perfnum.Prelude.{
  ℕ, zero, suc, ◌≤◌, ◌<◌, ◌≡◌, Bool, true, false, not, none, some, List, [], ◌∷◌, set,
  if◌then◌else◌, ltb, ◌*◌,
}
use perfnum.Compute.Perfect.{is_perfect_number}
use perfnum.Compute.Claim
use perfnum.Compute.Claim.{returned, scanning, result, IsFresh}
use perfnum.Compute.Lock
use perfnum.Compute.Lock.{outside, waiting, refused, failed, returns}

-- The place of each worker in next_test and in shmem_report. A worker in shmem_report is in next_test
-- at the return that it came from. `lost` are the places k of the numbers k + 1 that shmem_report
-- did not store; it is not in the program.
pub record State : Type 0 where
  pub claims : Claim.System
  pub table : Lock.System
  pub lost : List ℕ

-- shmem_report has returned false before it stored the number.
abbrev pub not_stored : Lock.Pc → Bool
not_stored (refused n) = true
not_stored failed = true
not_stored _ = false

-- In shmem_report, and not yet at a return.
abbrev pub is_inside : Lock.Pc → Bool
is_inside outside = false
is_inside p = not (returns p)

abbrev pub now_scanning : Claim.System → ℕ → Claim.System
now_scanning s w = record s { pc = Claim.update s.pc w (scanning 0) }

abbrev pub now_outside : Lock.System → ℕ → Lock.System
now_outside s w = record s { pc = Lock.update s.pc w outside }

-- Whether SET_BIT is not about to write behind the bitmap of `size` bytes.
abbrev pub in_bitmap : ℕ → Claim.Pc → Bool
in_bitmap size (Claim.claiming k byte) = ltb k (8 * size)
in_bitmap size _ = true

-- One step of a worker, up to the first write of next_test behind the bitmap: that one sets a bit of
-- perfect_numbers_sem, whose value the program no longer controls from then on, and the steps here
-- end before it. By then all numbers of the bitmap have been claimed. A worker that is told to stop makes no further step, nor does one whose
-- next_test failed at sem_post: it returns 0 there, is_perfect_number(0) is true, and the assertion
-- n > 0 of shmem_report ends the worker.
pub data Step (size : ℕ) (s : State) : State → Type 0 where
  -- in next_test
  claiming :
      (w : ℕ) {m : Claim.Memory} {p : Claim.Pc}
      → s.table.pc w ≡ outside
      → result (s.claims.pc w) ≡ none
      → in_bitmap size (s.claims.pc w) ≡ true
      → Claim.Move w s.claims.mem (s.claims.pc w) m p
      → Step size s (record s { claims = record { mem = m; pc = Claim.update s.claims.pc w p } })
  -- the other semaphore's bytes change
  other :
      (i byte : ℕ)
      → size ≤ i
      → byte < 256
      → Step size s (record s {
        claims = record (s.claims) {
          mem = record (s.claims.mem) { area = set s.claims.mem.area i byte };
        };
      })
  -- is_perfect_number(test) == true: shmem_report is called
  calling :
      (w k : ℕ)
      → s.claims.pc w ≡ returned k
      → s.table.pc w ≡ outside
      → is_perfect_number (suc k) ≡ some true
      → Step size s (record s {
        table = record (s.table) { pc = Lock.update s.table.pc w (waiting (suc k)) };
      })
  -- in shmem_report
  reporting :
      (w : ℕ) {m : Lock.Memory} {p q : Lock.Pc}
      → s.table.pc w ≡ p
      → is_inside p ≡ true
      → Lock.Move s.table.mem p m q
      → Step size s (record s { table = record { mem = m; pc = Lock.update s.table.pc w q } })
  -- is_perfect_number(test) is not true: the loop calls next_test again
  passing :
      (w k : ℕ)
      → s.claims.pc w ≡ returned k
      → s.table.pc w ≡ outside
      → is_perfect_number (suc k) ≡ some false
      → Step size s (record s { claims = now_scanning s.claims w })
  -- shmem_report has returned: the loop calls next_test again
  going_on :
      (w k : ℕ)
      → s.claims.pc w ≡ returned k
      → returns (s.table.pc w) ≡ true
      → Step size s (record {
        claims = now_scanning s.claims w;
        table = now_outside s.table w;
        lost = if not_stored (s.table.pc w) then k ∷ s.lost else s.lost;
      })

pub data Reach (size : ℕ) (first : List ℕ) : State → Type 0 where
  start :
      (m : Claim.Memory)
      → IsFresh size m
      → Reach size first (record {
        claims = record { mem = m; pc = λ w. scanning 0 };
        table = Lock.start first;
        lost = [];
      })
  later : {s t : State} → Reach size first s → Step size s t → Reach size first t

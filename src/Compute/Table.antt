-- ===== src/Compute/Table.antt =====
-- compute.c, shmem_loop and shmem_report: a worker's slot in the process list, and the table of
-- perfect numbers.
pub mod Slots
pub mod Tests
use perfnum.Prelude.{
  ℕ, zero, suc, ◌+◌, ℤ, pos, minus_one, ◌==ℤ◌, Bool, ◌&&◌, ◌||◌, true, false, Option, none, some,
  List, [], ◌∷◌, set, ◌==◌, if◌then◌else◌,
}
use perfnum.Shmem.{Process}
use perfnum.Compute.Perfect.{is_perfect_number}

-- What shmem_report leaves: the table, the return value, and whether this process still holds
-- perfect_numbers_sem.
pub record Reported : Type 0 where
  pub table : List ℕ
  pub ok : Bool
  pub held : Bool

-- The loop over res->perfect_numbers: the first slot with a 0.
unfoldable pub open_slot : List ℕ → Option ℕ
open_slot [] = none
open_slot (x ∷ xs) =
    let rest : Option ℕ = elim (open_slot xs) [ none ↦ none | some i ↦ some (suc i) ] in
    if x == 0 then some 0 else rest

-- The part behind sem_wait.
unfoldable pub store_number : Bool → List ℕ → ℕ → Reported
unfolding open_slot
store_number posts table n = elim (open_slot table) [
  | none ↦ record { table = table; ok = false; held = true }
  | some i ↦
      if posts
      then record { table = set table i n; ok = true; held = false }
      else record { table = set table i n; ok = false; held = true }
]

-- shmem_report, where `waits` and `posts` say whether sem_wait and sem_post succeed. `none` is the
-- failed assertion. It is called where sem_wait does not block.
unfoldable pub shmem_report : Bool → Bool → List ℕ → ℕ → Option Reported
unfolding store_number
shmem_report waits posts table n =
    if n == 0
    then none
    else if waits
    then some (store_number posts table n)
    else some (record { table = table; ok = false; held = false })

-- One round of the loop of shmem_loop: what next_test has returned, the semaphore's results if the
-- number is reported, and whether a signal is seen.
pub record Turn : Type 0 where
  pub test : ℕ
  pub waits : Bool
  pub posts : Bool
  pub caught : Bool

-- if (is_perfect_number(test) == true) ..., for the result of the test. `held` says whether this
-- process has kept perfect_numbers_sem: a sem_wait that does not fail then waits for ever, which is
-- `none` too.
unfoldable pub note_perfect :
    Bool → Bool → Turn → Process → List ℕ → Option (Process × List ℕ × Bool)
unfolding shmem_report
note_perfect held false u p table = some (p, table, held)
note_perfect held true u p table = elim (shmem_report u.waits u.posts table u.test) [
  | none ↦ none
  | some r ↦
      if held && u.waits
      then none
      else some (record p { found = suc p.found }, r.table, held || r.held)
]

-- The loop, until next_test returns -1 at the end of the list: the process's counts and the table.
-- `none` is a failed assertion, a write past an array or a wait for ever. The first argument is
-- `held`, false at the start.
unfoldable pub work : Bool → List Turn → Process → List ℕ → Option (Process × List ℕ)
unfolding note_perfect
work held [] p table = some (p, table)
work held (u ∷ us) p table = elim (is_perfect_number u.test) [
  | none ↦ none
  | some perfect ↦ elim (note_perfect held perfect u p table) [
    | none ↦ none
    | some (q, after, keeps) ↦
        let counted : Process = record q { tested = suc q.tested } in
        let rest = work keeps us counted after in if u.caught then some (counted, after) else rest
  ]
]

-- The search for a slot with the pid -1.
unfoldable pub free_process : List Process → Option ℕ
free_process [] = none
free_process (p ∷ ps) =
    let rest : Option ℕ = elim (free_process ps) [ none ↦ none | some i ↦ some (suc i) ] in
    if p.pid ==ℤ minus_one then some 0 else rest

-- shmem_loop in process `pid`: the process list and the table afterwards.
unfoldable pub shmem_loop : ℤ → List Turn → List Process → List ℕ → Option (List Process × List ℕ)
unfolding free_process work
shmem_loop pid turns ps table = elim (free_process ps) [
  | none ↦ some (ps, table)
  | some i ↦ elim (work false turns (record { pid = pid; found = 0; tested = 0 }) table) [
    | none ↦ none
    | some (p, after) ↦ some (set ps i (record p { pid = minus_one }), after)
  ]
]

-- ===== src/Manage/Spawn.antt =====
-- manage.c, spawn_computes: the ranges of the workers in pipe mode, and their process ids.
pub mod Ranges
pub mod Child
pub mod Args
use perfnum.Prelude.{
  ℕ, zero, suc, ◌+◌, ◌-◌, ◌/◌, ◌%◌, ℤ, pos, negsuc, ltb_int, minus_one, not, Bool, true, false,
  Option, none, some, List, [], ◌∷◌, ◌==◌, ltb, length, set, if◌then◌else◌,
}

-- floor((double)limit / (double)nprocs): both are 32-bit numbers, which doubles hold exactly, and
-- the quotient's floor is that of the integers.
abbrev pub numbers_per_proc : ℕ → ℕ → ℕ
numbers_per_proc limit nprocs = limit / nprocs

-- The end of the range of worker i that starts at `first`.
abbrev pub range_end : ℕ → ℕ → ℕ → ℕ → ℕ
range_end limit nprocs i first =
    if i == 0
    then numbers_per_proc limit nprocs + limit % nprocs
    else first + numbers_per_proc limit nprocs - 1

-- The process ids, and the ranges on the command lines of the workers that were started.
pub record Spawned : Type 0 where
  pub pids : List ℤ
  pub ranges : List (ℕ × ℕ)

-- (*pids)[i] = pid in the parent. `none` is a write past the end of the array.
unfoldable pub store_pid : List ℤ → ℕ → ℤ → Option (List ℤ)
store_pid pids i pid = if ltb i (length pids) then some (set pids i pid) else none

-- One worker: fork() has returned `pid` to the parent. On an error it goes on.
unfoldable pub spawn_one : ℤ → ℕ → ℕ × ℕ → List ℤ → Option (List ℤ × List (ℕ × ℕ))
unfolding store_pid
spawn_one pid i range pids =
    if ltb_int (pos 0) pid
    then elim (store_pid pids i pid) [ none ↦ none | some more ↦ some (more, range ∷ []) ]
    else some (pids, [])

-- The loop with `rounds` workers left, at worker i, where `last` is the end of the range before.
-- `fork` gives the result of each fork().
unfoldable pub spawn_loop : ℕ → ℕ → (ℕ → ℤ) → ℕ → ℕ → ℕ → List ℤ → Option Spawned
unfolding spawn_one
spawn_loop limit nprocs fork zero i last pids = some (record { pids = pids; ranges = [] })
spawn_loop limit nprocs fork (suc rounds) i last pids =
    let stop = range_end limit nprocs i (last + 1) in
    elim (spawn_one (fork i) i (last + 1, stop) pids) [
      | none ↦ none
      | some (more, []) ↦ spawn_loop limit nprocs fork rounds (suc i) stop more
      | some (more, r ∷ rs) ↦ elim (spawn_loop limit nprocs fork rounds (suc i) stop more) [
        | none ↦ none
        | some rest ↦ some (record rest { ranges = r ∷ rest.ranges })
      ]
    ]

-- spawn_computes in the parent, for a limit and a number of processes that are not negative; `pids`
-- is the array from malloc, with room for `limit` ids.
unfoldable pub spawn_computes : ℕ → ℕ → (ℕ → ℤ) → List ℤ → Option Spawned
unfolding spawn_loop
spawn_computes limit nprocs fork pids = spawn_loop limit nprocs fork nprocs 0 0 pids

-- The array in the child that is to become worker i: fork() has returned 0 there, and the ids of the
-- workers before it to the parent.
unfoldable pub child_pids : (ℕ → ℤ) → ℕ → List ℤ → List ℤ
child_pids fork zero pids = pids
child_pids fork (suc i) pids = set (child_pids fork i pids) i (fork i)

-- The branch of the child in spawn_computes: the return value and the array, where dup2() or execl()
-- fails. `none` is that execl() has replaced the program.
unfoldable pub child_spawn : (dup exec : Bool) → (ℕ → ℤ) → ℕ → List ℤ → Option (ℤ × List ℤ)
unfolding child_pids
child_spawn dup exec fork i pids =
    if not dup
    then some (minus_one, child_pids fork i pids)
    else if not exec
    then some (minus_one, child_pids fork i pids)
    else none

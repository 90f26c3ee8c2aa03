-- ===== src/Compute/Lock.antt =====
-- compute.c, shmem_report: any number of workers that report to the table of perfect numbers at the
-- same time. Each access to shared memory is one step. Nothing else writes to perfect_numbers_sem
-- here: the steps are those before next_test sets a bit behind the bitmap. Its value is 0 or 1 then,
-- so that a sem_post that fails leaves it at 0.
pub mod Table
pub mod Tests
use perfnum.Prelude.{
  ℕ, zero, suc, ◌≤◌, ◌<◌, ◌≡◌, ◌≢◌, Bool, true, false, some, List, [], ◌∷◌, length, get_elem?, set,
  ◌==◌, if◌then◌else◌,
}

-- Where a worker stands in shmem_report of n.
pub data Pc : Type 0 where
  outside : Pc
  waiting : (n : ℕ) → Pc  -- before sem_wait
  looking : (n i : ℕ) → Pc  -- before the look at perfect_numbers[i]
  writing : (n i : ℕ) → Pc  -- has seen a 0 there
  posting : (n : ℕ) → Pc  -- before sem_post
  reported : (n : ℕ) → Pc  -- return true
  unposted : (n : ℕ) → Pc  -- return false, sem_post failed
  refused : (n : ℕ) → Pc  -- the return false behind the loop
  failed : Pc  -- return false, sem_wait failed

-- Whether shmem_report has returned.
abbrev pub returns : Pc → Bool
returns (reported n) = true
returns (unposted n) = true
returns (refused n) = true
returns failed = true
returns _ = false

-- The table, whether perfect_numbers_sem is free, and the numbers stored so far. The last is not in
-- the program.
pub record Memory : Type 0 where
  pub table : List ℕ
  pub free : Bool
  pub stored : List ℕ

pub data Move (m : Memory) : Pc → Memory → Pc → Type 0 where
  enter : {n : ℕ} → 0 < n → Move m outside m (waiting n)
  lock : {n : ℕ} → m.free ≡ true → Move m (waiting n) (record m { free = false }) (looking n 0)
  interrupted : {n : ℕ} → Move m (waiting n) m (waiting n)
  lock_fails : {n : ℕ} → Move m (waiting n) m failed
  in_use :
      {n i x : ℕ}
      → get_elem? m.table i ≡ some x
      → x ≢ 0
      → Move m (looking n i) m (looking n (suc i))
  unused : {n i : ℕ} → get_elem? m.table i ≡ some 0 → Move m (looking n i) m (writing n i)
  full : {n i : ℕ} → length m.table ≤ i → Move m (looking n i) m (refused n)
  store :
      {n i : ℕ}
      → Move m
          (writing n i)
          (record m { table = set m.table i n; stored = n ∷ m.stored })
          (posting n)
  post : {n : ℕ} → Move m (posting n) (record m { free = true }) (reported n)
  post_fails : {n : ℕ} → Move m (posting n) m (unposted n)
  leave : {p : Pc} → returns p ≡ true → Move m p m outside  -- back in shmem_loop

pub record System : Type 0 where
  pub mem : Memory
  pub pc : ℕ → Pc

abbrev pub update : (ℕ → Pc) → ℕ → Pc → ℕ → Pc
update f w p v = if w == v then p else f v

pub data Step (s : System) : System → Type 0 where
  pick :
      (w : ℕ) {m : Memory} {p : Pc}
      → Move s.mem (s.pc w) m p
      → Step s (record { mem = m; pc = update s.pc w p })

pub data Steps (s : System) : System → Type 0 where
  here : Steps s s
  later : {t u : System} → Steps s t → Step t u → Steps s u

-- The state behind shmem_init: the semaphore is free and nobody reports.
abbrev pub start : List ℕ → System
start table = record { mem = record { table = table; free = true; stored = [] }; pc = λ w. outside }

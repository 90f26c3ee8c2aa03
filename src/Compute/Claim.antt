-- ===== src/Compute/Claim.antt =====
-- compute.c, next_test: any number of workers that claim numbers from the shared bitmap. Each
-- access to shared memory is one step, and the workers' steps interleave in any order.
pub mod Invariant
pub mod Safety
pub mod Alone
pub mod Fresh
pub mod Schedule
use perfnum.Prelude.{
  ℕ, zero, suc, ◌+◌, ◌*◌, ◌/◌, ◌≤◌, ◌<◌, ◌≡◌, ◌≢◌, ℤ, pos, minus_one, Bool, true, false, Option,
  none, some, List, [], ◌∷◌, length, get_elem?, set, ◌==◌, if◌then◌else◌,
}
use perfnum.Shmem.{area_bit, store_bit}

-- Where a worker stands in next_test. `k` is the place of the loops, addr - res->bitmap = k / 8 and
-- i = k % 8.
pub data Pc : Type 0 where
  scanning : (k : ℕ) → Pc  -- before the first BIT(*addr, i)
  waiting : (k : ℕ) → Pc  -- before sem_wait
  checking : (k : ℕ) → Pc  -- before the second BIT(*addr, i)
  claiming : (k byte : ℕ) → Pc  -- SET_BIT has read `byte` and not yet written
  posting : (k : ℕ) → Pc  -- before the sem_post of a claim
  skipping : (k : ℕ) → Pc  -- before the sem_post in the else branch
  returned : (k : ℕ) → Pc  -- return test, with test = k + 1
  exhausted : Pc  -- the return -1 behind the loops
  failed : Pc  -- return -1, sem_wait failed
  unposted : Pc  -- return false, sem_post failed

-- The value that next_test returns, once it has returned.
abbrev pub result : Pc → Option ℤ
result (returned k) = some (pos (k + 1))
result exhausted = some minus_one
result failed = some minus_one
result unposted = some (pos 0)
result _ = none

-- The bytes from res->bitmap up to res->perfect_numbers, whether bitmap_sem is free, and the
-- history of the bits that were set: which worker, and which bit. The history is not in the program.
pub record Memory : Type 0 where
  pub area : List ℕ
  pub free : Bool
  pub history : List (ℕ × ℕ)

-- One step of worker `w`.
pub data Move (w : ℕ) (m : Memory) : Pc → Memory → Pc → Type 0 where
  see_clear :
      {k : ℕ} → k < 8 * length m.area → area_bit m.area k ≡ 0 → Move w m (scanning k) m (waiting k)
  see_set :
      {k : ℕ}
      → k < 8 * length m.area
      → area_bit m.area k ≢ 0
      → Move w m (scanning k) m (scanning (suc k))
  at_end : {k : ℕ} → 8 * length m.area ≤ k → Move w m (scanning k) m exhausted
  lock : {k : ℕ} → m.free ≡ true → Move w m (waiting k) (record m { free = false }) (checking k)
  interrupted : {k : ℕ} → Move w m (waiting k) m (waiting k)
  lock_fails : {k : ℕ} → Move w m (waiting k) m failed
  still_clear :
      {k byte : ℕ}
      → area_bit m.area k ≡ 0
      → get_elem? m.area (k / 8) ≡ some byte
      → Move w m (checking k) m (claiming k byte)
  taken : {k : ℕ} → area_bit m.area k ≢ 0 → Move w m (checking k) m (skipping k)
  claim :
      {k byte : ℕ}
      → Move w m
          (claiming k byte)
          (record m { area = store_bit m.area k byte; history = (w, k) ∷ m.history })
          (posting k)
  post : {k : ℕ} → Move w m (posting k) (record m { free = true }) (returned k)
  post_fails : {k : ℕ} → Move w m (posting k) m unposted
  post_skip : {k : ℕ} → Move w m (skipping k) (record m { free = true }) (scanning (suc k))
  post_skip_fails : {k : ℕ} → Move w m (skipping k) m unposted
  -- the loop of shmem_loop calls next_test again
  again : {p : Pc} {v : ℤ} → result p ≡ some v → v ≢ minus_one → Move w m p m (scanning 0)

pub record System : Type 0 where
  pub mem : Memory
  pub pc : ℕ → Pc

abbrev pub update : (ℕ → Pc) → ℕ → Pc → ℕ → Pc
update f i p j = if i == j then p else f j

-- A step of some worker, or of whatever else writes to the bytes behind the bitmap: those of the
-- other semaphore, from `size` on.
pub data Step (size : ℕ) (s : System) : System → Type 0 where
  pick :
      (w : ℕ) {m : Memory} {p : Pc}
      → Move w s.mem (s.pc w) m p
      → Step size s (record { mem = m; pc = update s.pc w p })
  other :
      (i byte : ℕ)
      → size ≤ i
      → byte < 256
      → Step size s (record s { mem = record (s.mem) { area = set s.mem.area i byte } })

-- A fresh object: the bitmap and the semaphore behind it, with no bit of the bitmap set.
pub record IsFresh (size : ℕ) (m : Memory) : Type 0 where
  pub clear : (k : ℕ) → k < 8 * size → area_bit m.area k ≡ 0
  pub bytes : (i b : ℕ) → get_elem? m.area i ≡ some b → b < 256
  pub inside : size ≤ length m.area
  pub unlocked : m.free ≡ true
  pub nothing : m.history ≡ []

pub data Reach (size : ℕ) : System → Type 0 where
  start : (m : Memory) → IsFresh size m → Reach size (record { mem = m; pc = λ w. scanning 0 })
  later : {s t : System} → Reach size s → Step size s t → Reach size t

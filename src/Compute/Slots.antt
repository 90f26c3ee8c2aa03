-- ===== src/Compute/Slots.antt =====
-- compute.c, shmem_loop: any number of workers and their slots in the list of processes. Each access
-- to the list is one step; the search for a slot is under no semaphore.
pub mod Safety
pub mod Race
pub mod Tests
use perfnum.Prelude.{
  ℕ, zero, suc, ◌+◌, ◌≤◌, ◌≡◌, ◌≢◌, ℤ, minus_one, Bool, true, false, Option, some, List, length,
  get_elem?, set, ◌==◌, if◌then◌else◌,
}
use perfnum.Shmem.{Process}

-- Where a worker stands: p is the slot at index i.
pub data Pc : Type 0 where
  looking : (i : ℕ) → Pc  -- before p->pid == -1
  taking : (i : ℕ) → Pc  -- has seen -1 there
  running : (i : ℕ) → Pc  -- in the loop over the numbers
  refused : Pc  -- too many processes
  left : Pc  -- behind the last line

pub record System : Type 0 where
  pub processes : List Process
  pub pc : ℕ → Pc

abbrev pub update : (ℕ → Pc) → ℕ → Pc → ℕ → Pc
update f w p v = if w == v then p else f v

-- One step of a worker with process id `pid`.
pub data Move (pid : ℤ) (ps : List Process) : Pc → List Process → Pc → Type 0 where
  in_use :
      {i : ℕ} {p : Process}
      → get_elem? ps i ≡ some p
      → p.pid ≢ minus_one
      → Move pid ps (looking i) ps (looking (suc i))
  unused :
      {i : ℕ} {p : Process}
      → get_elem? ps i ≡ some p
      → p.pid ≡ minus_one
      → Move pid ps (looking i) ps (taking i)
  full : {i : ℕ} → length ps ≤ i → Move pid ps (looking i) ps refused
  take :
      {i : ℕ}
      → Move pid ps (taking i) (set ps i (record { pid = pid; found = 0; tested = 0 })) (running i)
  -- p->found++
  note_found :
      {i : ℕ} {p : Process}
      → get_elem? ps i ≡ some p
      → Move pid ps (running i) (set ps i (record p { found = suc p.found })) (running i)
  -- p->tested++
  note_tested :
      {i : ℕ} {p : Process}
      → get_elem? ps i ≡ some p
      → Move pid ps (running i) (set ps i (record p { tested = suc p.tested })) (running i)
  -- p->pid = -1
  leave :
      {i : ℕ} {p : Process}
      → get_elem? ps i ≡ some p
      → Move pid ps (running i) (set ps i (record p { pid = minus_one })) left

-- The workers' steps, until shmem_cleanup of manage changes the list.
pub data Step (pid : ℕ → ℤ) (s : System) : System → Type 0 where
  pick :
      (w : ℕ) {ps : List Process} {p : Pc}
      → Move (pid w) s.processes (s.pc w) ps p
      → Step pid s (record { processes = ps; pc = update s.pc w p })

-- No two workers have seen the same unused slot and not yet taken it.
abbrev pub Calm : System → Type 0
Calm s = (v w i : ℕ) → s.pc v ≡ taking i → s.pc w ≡ taking i → v ≡ w

-- The states that the workers reach from a list of processes, calm all the way.
pub data Reach (pid : ℕ → ℤ) (first : List Process) : System → Type 0 where
  start : Reach pid first (record { processes = first; pc = λ w. looking 0 })
  later : {s t : System} → Reach pid first s → Step pid s t → Calm t → Reach pid first t

-- ===== src/Shmem/Object.antt =====
-- shmem_init and shmem_cleanup of manage.c, and shmem_load of shmem.c: the layout of the shared
-- memory object, and its contents at the start and at the end.
pub mod Agree
use perfnum.Prelude.{
  ℕ, zero, suc, ◌+◌, ◌*◌, ◌/◌, ℤ, pos, minus_one, ◌==ℤ◌, Bool, true, false, Option, none, some,
  List, [], ◌∷◌, ◌++◌, replicate, ◌==◌, if◌then◌else◌,
}
use perfnum.Shmem.{nperfnums, nprocs, Process}

-- sizeof(int), sizeof(pid_t), sizeof(sem_t) and sizeof(struct process)
pub record Sizes : Type 0 where
  pub int : ℕ
  pub pid : ℕ
  pub sem : ℕ
  pub process : ℕ

-- struct shmem_res, each address as an offset from addr; limit is at 0.
pub record Layout : Type 0 where
  pub manage : ℕ
  pub bitmap_sem : ℕ
  pub bitmap : ℕ
  pub perfect_numbers_sem : ℕ
  pub perfect_numbers : ℕ
  pub processes : ℕ
  pub end_ : ℕ

abbrev pub bitmap_size : ℕ → ℕ
bitmap_size limit = limit / 8 + 1

unfoldable pub total_size : Sizes → ℕ → ℕ
total_size z limit =
    z.pid + z.int + 2 * z.sem + bitmap_size limit + nperfnums * z.int + nprocs * z.process

-- The assignments to the members of res.
unfoldable pub layout : Sizes → ℕ → Layout
layout z limit =
    let manage = z.int in
    let bitmap_sem = manage + z.pid in
    let bitmap = bitmap_sem + z.sem in
    let perfect_numbers_sem = bitmap + bitmap_size limit in
    let perfect_numbers = perfect_numbers_sem + z.sem in
    let processes = perfect_numbers + nperfnums * z.int in
    record {
      manage = manage;
      bitmap_sem = bitmap_sem;
      bitmap = bitmap;
      perfect_numbers_sem = perfect_numbers_sem;
      perfect_numbers = perfect_numbers;
      processes = processes;
      end_ = processes + nprocs * z.process;
    }

-- What the object holds: the limit, the process id of manage, the bytes that next_test scans (the
-- bitmap and the semaphore behind it), whether each semaphore is free, the table and the processes.
pub record Object : Type 0 where
  pub size : ℕ
  pub limit : ℕ
  pub manage : ℤ
  pub area : List ℕ
  pub bitmap_free : Bool
  pub table : List ℕ
  pub table_free : Bool
  pub processes : List Process

abbrev pub unused : Process
unused = record { pid = minus_one; found = 0; tested = 0 }

-- shmem_init in process `pid`, if the calls of the system succeed. ftruncate() makes the bytes of a
-- new object 0; `sem_bytes` are those that sem_init writes for perfect_numbers_sem.
unfoldable pub shmem_init : Sizes → ℕ → ℤ → List ℕ → Object
unfolding total_size
shmem_init z limit pid sem_bytes = record {
  size = total_size z limit;
  limit = limit;
  manage = pid;
  area = replicate (bitmap_size limit) 0 ++ sem_bytes;
  bitmap_free = true;
  table = replicate nperfnums 0;
  table_free = true;
  processes = replicate nprocs unused;
}

-- total_size in shmem_load, computed there from the limit in the object.
unfoldable pub load_size : Sizes → ℕ → ℕ
load_size z limit =
    let bitmap_bytes = limit / 8 + 1 in
    let perfnums_bytes = nperfnums * z.int in
    let processes_bytes = nprocs * z.process in
    z.pid + z.int + 2 * z.sem + bitmap_bytes + perfnums_bytes + processes_bytes

-- The assignments to the members of res in shmem_load.
unfoldable pub load_layout : Sizes → ℕ → Layout
load_layout z limit =
    let bitmap_bytes = limit / 8 + 1 in
    let manage = z.int in
    let bitmap_sem = manage + z.pid in
    let bitmap = bitmap_sem + z.sem in
    let perfect_numbers_sem = bitmap + bitmap_bytes in
    let perfect_numbers = perfect_numbers_sem + z.sem in
    let processes = perfect_numbers + nperfnums * z.int in
    record {
      manage = manage;
      bitmap_sem = bitmap_sem;
      bitmap = bitmap;
      perfect_numbers_sem = perfect_numbers_sem;
      perfect_numbers = perfect_numbers;
      processes = processes;
      end_ = processes + nprocs * z.process;
    }

-- shmem_load: it reads the limit, and refuses an object of another size.
unfoldable pub shmem_load : Sizes → Object → Option Layout
unfolding load_size load_layout
shmem_load z o = if load_size z o.limit == o.size then some (load_layout z o.limit) else none

-- The loop of shmem_cleanup: the processes that are sent SIGQUIT, and the list afterwards. `kills`
-- says for which process kill() succeeds.
unfoldable pub kill_processes : (ℤ → Bool) → List Process → List ℤ × List Process
kill_processes kills [] = ([], [])
kill_processes kills (p ∷ ps) =
    let (sent, after) = kill_processes kills ps in
    if p.pid ==ℤ minus_one
    then (sent, p ∷ after)
    else if kills p.pid
    then (p.pid ∷ sent, record p { pid = minus_one } ∷ after)
    else (p.pid ∷ sent, p ∷ after)

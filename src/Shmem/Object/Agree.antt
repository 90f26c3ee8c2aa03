-- ===== src/Shmem/Object/Agree.antt =====
-- The layout as manage.c and shmem.c compute it, and the processes at the end.
use perfnum.Prelude.{
  ℕ, ◌-◌, ◌*◌, ◌≤◌, ◌≡◌, refl, ℤ, minus_one, ◌==ℤ◌, Bool, some, List, [], ◌∷◌, length,
  length-append, length-replicate, replicate, if◌then◌else◌, arith,
}
use perfnum.Shmem.{Process}
use perfnum.Shmem.Object.{
  Sizes, Layout, bitmap_size, total_size, layout, load_size, load_layout, shmem_init, shmem_load,
  kill_processes,
}

-- shmem_load accepts the object that shmem_init has made, for the same sizes, and computes the layout
-- that shmem_init has used. It ends where the object does, the bitmap has a bit for each number up to the limit, and what next_test scans,
-- up to the table, is the bitmap with the semaphore behind it.
pub shmem_load-shmem_init :
    (z : Sizes) (limit : ℕ) (pid : ℤ) (sem_bytes : List ℕ)
    → length sem_bytes ≡ z.sem
    → (l : Layout) × (shmem_load z (shmem_init z limit pid sem_bytes) ≡ some l)
      × (l ≡ layout z limit)
      × (l.end_ ≡ (shmem_init z limit pid sem_bytes).size)
      × (limit ≤ 8 * (l.perfect_numbers_sem - l.bitmap))
      × (l.perfect_numbers - l.bitmap ≡ length (shmem_init z limit pid sem_bytes).area)
unfolding shmem_load load_size load_layout shmem_init total_size layout
shmem_load-shmem_init z limit pid sem_bytes same = (
  load_layout z limit,
  ground arith,
  refl,
  omega arith,
  omega arith,
  omega (
    arith,
    same,
    length-append (replicate (bitmap_size limit) 0) sem_bytes,
    length-replicate {A = ℕ} (bitmap_size limit) 0,
  ),
)

-- The processes whose slot is used.
abbrev pub used_pids : List Process → List ℤ
used_pids [] = []
used_pids (p ∷ ps) = let rest = used_pids ps in if p.pid ==ℤ minus_one then rest else p.pid ∷ rest

abbrev pub failing : (ℤ → Bool) → List ℤ → List ℤ
failing kills [] = []
failing kills (p ∷ ps) = let rest = failing kills ps in if kills p then rest else p ∷ rest

-- shmem_cleanup sends SIGQUIT to exactly the processes in used slots, in order, and the slots in use
-- afterwards are those of the processes that could not be sent it.
pub kill_processes-used :
    (kills : ℤ → Bool) (ps : List Process)
    → ((kill_processes kills ps).0 ≡ used_pids ps)
      × (used_pids (kill_processes kills ps).1 ≡ failing kills (used_pids ps))
unfolding kill_processes
kill_processes-used kills [] = (refl, refl)
kill_processes-used kills (p ∷ ps) =
    let (sent, after) = kill_processes-used kills ps in
    (ground (arith, sent), ground (arith, after))

-- ===== src/Shmem/Tests.antt =====
-- The theorems about the shared memory object at concrete inputs.
use perfnum.Prelude.{
  true, false, none, ◌⊎◌, ◌↔◌, ℕ, ◌-◌, ◌*◌, ◌≤◌, ◌<◌, ◌≡◌, refl, ℤ, pos, ◌==ℤ◌, Bool, some, List,
  [], ◌∷◌, length, get_elem?, replicate, get_elem?-replicate, arith,
}
use perfnum.Shmem.{Process}
use perfnum.Shmem.Object.{Sizes, Layout, layout, bitmap_size, shmem_init, shmem_load, unused}
use perfnum.Shmem.Object.Agree.{shmem_load-shmem_init}
use perfnum.Shmem.Object.Agree.{used_pids, failing}
use perfnum.Shmem.Shutdown.{
  Tried, destroyed, invalid, blocked, Cleaned, wait_and_clean, any_caught, ended,
  wait_and_clean-signalled,
}
use perfnum.Compute.Claim.{IsFresh}
use perfnum.Compute.Claim.Fresh.{claim_memory, shmem_init-IsFresh}

-- The sizes on a 64-bit machine.
abbrev common : Sizes
common = record { int = 4; pid = 4; sem = 32; process = 12 }

shmem_load-shmem_init_example :
    (l : Layout) × (shmem_load common (shmem_init common 100 (pos 9) (replicate 32 1)) ≡ some l)
    × (l ≡ layout common 100)
    × (l.end_ ≡ (shmem_init common 100 (pos 9) (replicate 32 1)).size)
    × (100 ≤ 8 * (l.perfect_numbers_sem - l.bitmap))
    × (l.perfect_numbers - l.bitmap ≡ length (shmem_init common 100 (pos 9) (replicate 32 1)).area)
shmem_load-shmem_init_example = shmem_load-shmem_init common 100 (pos 9) (replicate 32 1) refl

sem_byte : (j c : ℕ) → get_elem? (replicate 32 1) j ≡ some c → c < 256
sem_byte j c e = omega (arith, get_elem?-replicate 32 j 1 e)

shmem_init-IsFresh_example :
    IsFresh (bitmap_size 100) (claim_memory (shmem_init common 100 (pos 9) (replicate 32 1)))
    × (100 ≤ 8 * bitmap_size 100)
shmem_init-IsFresh_example = shmem_init-IsFresh common 100 (pos 9) (replicate 32 1) sem_byte

abbrev three : List Process
three = record unused { pid = pos 5 } ∷ unused ∷ record unused { pid = pos 6 } ∷ []

abbrev only_five : ℤ → Bool
only_five p = p ==ℤ pos 5

abbrev looks : List Bool
looks = false ∷ true ∷ []

abbrev tries : List Tried
tries = blocked ∷ destroyed ∷ blocked ∷ invalid ∷ []

wait_and_clean-signalled_example :
    ((any_caught looks ≡ false) × (wait_and_clean only_five looks three tries ≡ none))
    ⊎ ((any_caught looks ≡ true)
        × ((c : Cleaned) × (wait_and_clean only_five looks three tries ≡ some c)
            × (c.signalled ≡ used_pids three)
            × (used_pids c.processes ≡ failing only_five (used_pids three))
            × ((c.unlinked ≡ true) ↔ (2 ≤ ended tries))))
wait_and_clean-signalled_example = wait_and_clean-signalled only_five looks three tries

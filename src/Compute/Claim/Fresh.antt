-- ===== src/Compute/Claim/Fresh.antt =====
-- The shared memory object that manage.c makes, as the workers of compute.c find it.
use perfnum.Prelude.{
  zero, suc, [], ℕ, ◌*◌, ◌≤◌, ◌/◌, ◌<◌, ◌≡◌, refl, ℤ, List, ◌++◌, get_elem?, length-append,
  length-replicate, some, replicate, arith,
}
use perfnum.Shmem.{area_bit, byte_bit, bit}
use perfnum.Shmem.Object.{Sizes, bitmap_size, Object, shmem_init}
use perfnum.Compute.Claim.{Memory, IsFresh}

-- What next_test uses of the object.
abbrev pub claim_memory : Object → Memory
claim_memory o = record { area = o.area; free = o.bitmap_free; history = [] }

zero_byte : (n j : ℕ) (xs : List ℕ) → j < n → get_elem? (replicate n 0 ++ xs) j ≡ some 0
zero_byte zero j xs lt = absurd (omega arith)
zero_byte (suc n) zero xs lt = refl
zero_byte (suc n) (suc j) xs lt = zero_byte n j xs (omega arith)

small_bytes :
    (n i b : ℕ) (xs : List ℕ)
    → ((j c : ℕ) → get_elem? xs j ≡ some c → c < 256)
    → get_elem? (replicate n 0 ++ xs) i ≡ some b
    → b < 256
small_bytes zero i b xs small e = small i b e
small_bytes (suc n) zero b xs small e = ground arith
small_bytes (suc n) (suc i) b xs small e = small_bytes n i b xs small e

-- After shmem_init, the bitmap has a bit for each number up to the limit; its bits are all clear, its
-- bytes are inside what next_test scans, and the lock is free, as next_test needs it at the start.
pub shmem_init-IsFresh :
    (z : Sizes) (limit : ℕ) (pid : ℤ) (sem_bytes : List ℕ)
    → ((j c : ℕ) → get_elem? sem_bytes j ≡ some c → c < 256)
    → IsFresh (bitmap_size limit) (claim_memory (shmem_init z limit pid sem_bytes))
      × (limit ≤ 8 * bitmap_size limit)
unfolding shmem_init area_bit byte_bit bit
shmem_init-IsFresh z limit pid sem_bytes small = (
  record {
    clear =
        λ k lt. rw (zero_byte (bitmap_size limit) (k / 8) sem_bytes (omega arith)) (omega arith);
    bytes = λ i b. small_bytes (bitmap_size limit) i b sem_bytes small;
    inside = omega (
      arith,
      length-append (replicate (bitmap_size limit) 0) sem_bytes,
      length-replicate {A = ℕ} (bitmap_size limit) 0,
    );
    unlocked = refl;
    nothing = refl;
  },
  omega arith,
)

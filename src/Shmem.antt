-- ===== src/Shmem.antt =====
-- shmem.h: the constants and the structures of the shared memory object, and its bit macros.
pub mod Bits
pub mod Scan
pub mod Object
pub mod Shutdown
pub mod Tests
use Prim.Native.Nat.{bit_or}
use perfnum.Prelude.{ℕ, ◌+◌, ◌/◌, ◌%◌, ◌*◌, ◌^◌, ℤ, List, Option, none, some, get_elem?, set}

-- Maximum number of perfect numbers to store, NPERFNUMS.
abbrev pub nperfnums : ℕ
nperfnums = 20

-- Maximum number of processes to track, NPROCS.
abbrev pub nprocs : ℕ
nprocs = 20

-- struct process
pub record Process : Type 0 where
  pub pid : ℤ
  pub found : ℕ
  pub tested : ℕ

-- BIT(byte, bit): (byte >> bit) & 1
unfoldable pub bit : ℕ → ℕ → ℕ
bit byte i = byte / 2 ^ i % 2

-- SET_BIT(byte, bit): byte |= (1 << bit), in a uint8_t
unfoldable pub set_bit : ℕ → ℕ → ℕ
set_bit byte i = bit_or byte (2 ^ i) % 256

-- BIT of a byte that may lie outside the area. There is nothing to read there, and 1 stands for
-- it: no scan goes there.
unfoldable pub byte_bit : Option ℕ → ℕ → ℕ
unfolding bit
byte_bit none i = 1
byte_bit (some byte) i = bit byte i

-- BIT(*addr, i), where addr and i are those of the k-th bit of an area of bytes.
unfoldable pub area_bit : List ℕ → ℕ → ℕ
unfolding byte_bit
area_bit area k = byte_bit (get_elem? area (k / 8)) (k % 8)

-- SET_BIT(*addr, i) with the value `byte` that *addr had.
unfoldable pub store_bit : List ℕ → ℕ → ℕ → List ℕ
unfolding set_bit
store_bit area k byte = set area (k / 8) (set_bit byte (k % 8))

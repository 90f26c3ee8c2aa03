-- ===== src/Shmem/Bits.antt =====
-- The bit macros on bytes, and the bits of an area of bytes.
use native.Mathlib.Decide.{ℕ_discrete}
use perfnum.Prelude.{
  ℕ, zero, suc, ◌/◌, ◌%◌, ◌≤◌, ◌<◌, ◌≡◌, refl, sym, Bool, true, ◌&&◌, some, List, get_elem?, set,
  get_elem?-set_self, get_elem?-set_ne, get_elem?-lt, ◌==◌, ==_iff, if◌then◌else◌, arith,
}
use perfnum.Shmem.{bit, set_bit, area_bit, store_bit}

all_below : ℕ → (ℕ → Bool) → Bool
all_below zero p = true
all_below (suc n) p = p n && all_below n p

all_below-true : (n : ℕ) (p : ℕ → Bool) (x : ℕ) → all_below n p ≡ true → x < n → p x ≡ true
unfolding all_below
all_below-true zero p x h lt = absurd (omega arith)
all_below-true (suc n) p x h lt = ground (arith, all_below-true n p x)

bit_table :
    all_below 8 (λ i.
      all_below 8
        (λ j. all_below 256 (λ b. bit (set_bit b i) j == (if i == j then 1 else bit b j))))
    ≡ true
unfolding all_below bit set_bit
bit_table = refl

-- Setting one bit of a byte sets that bit, and no other.
pub bit-set_bit :
    (b i j : ℕ) → b < 256 → i < 8 → j < 8 → bit (set_bit b i) j ≡ (if i == j then 1 else bit b j)
bit-set_bit b i j hb hi hj =
    (==_iff _ _).0
      (all_below-true 256 _ b (all_below-true 8 _ j (all_below-true 8 _ i bit_table hi) hj) hb)

pub set_bit-lt : (b i : ℕ) → set_bit b i < 256
unfolding set_bit
set_bit-lt b i = omega arith

pub bit-le : (b i : ℕ) → bit b i ≤ 1
unfolding bit
bit-le b i = omega arith

pub area_bit-le : (area : List ℕ) (k : ℕ) → area_bit area k ≤ 1
unfolding area_bit
area_bit-le area k = grind (arith, bit-le)

-- A bit depends on its own byte.
pub area_bit-eq :
    (xs ys : List ℕ) (k : ℕ)
    → get_elem? xs (k / 8) ≡ get_elem? ys (k / 8)
    → area_bit xs k ≡ area_bit ys k
unfolding area_bit
area_bit-eq xs ys k e = rw (e, area_bit)

pub area_bit-some :
    (area : List ℕ) (k b : ℕ) → get_elem? area (k / 8) ≡ some b → area_bit area k ≡ bit b (k % 8)
unfolding area_bit
area_bit-some area k b e = rw (e, area_bit)

-- SET_BIT on a byte of the area sets the one bit, and keeps all others.
pub area_bit-store_bit :
    (area : List ℕ) (k j byte : ℕ)
    → get_elem? area (k / 8) ≡ some byte
    → byte < 256
    → area_bit (store_bit area k byte) j ≡ (if k == j then 1 else area_bit area j)
unfolding store_bit
area_bit-store_bit area k j byte e small = elim (ℕ_discrete (k / 8) (j / 8)) [
  | yes same ↦ ground (
    arith,
    area_bit-some (set area (k / 8) (set_bit byte (k % 8))) j (set_bit byte (k % 8)),
    get_elem?-set_self area (k / 8) (set_bit byte (k % 8)),
    get_elem?-lt area (k / 8) e,
    area_bit-some area j byte,
    bit-set_bit byte (k % 8) (j % 8),
  )
  | no other ↦ ground (
    arith,
    area_bit-eq area (set area (k / 8) (set_bit byte (k % 8))) j
        (sym (get_elem?-set_ne area (k / 8) (j / 8) (set_bit byte (k % 8)) other)),
  )
]

-- ===== src/Compute/Claim/Invariant.antt =====
-- What every step of the workers keeps: who holds the lock, what the bits say about the claims,
-- and which bits a worker has passed.
pub mod Steps
use perfnum.Prelude.{
  ℕ, suc, ◌+◌, ◌*◌, ◌/◌, ◌%◌, subst, ◌≤◌, ◌<◌, ◌≡◌, ◌≢◌, refl, sym, ◌∙◌, Bool, true, false, some,
  List, [], ◌∷◌, length, get_elem?, set, get_elem?-set_ne, get_elem?-set_self, get_elem?-lt,
  length-set, ◌==◌, if◌then◌else◌, arith,
}
use native.Mathlib.Decide.{ℕ_discrete, dec_lt}
use perfnum.Shmem.{area_bit, store_bit, set_bit}
use perfnum.Shmem.Bits.{area_bit-le, area_bit-eq, area_bit-store_bit, set_bit-lt}
use perfnum.Compute.Claim.{
  Pc, scanning, waiting, checking, claiming, posting, skipping, returned, exhausted, failed,
  unposted, Memory, Move, see_clear, see_set, at_end, lock, interrupted, lock_fails, still_clear,
  taken, claim, post, post_fails, post_skip, post_skip_fails, again, System, update, pick, other,
  IsFresh, Reach, start, later,
}

-- How often bit k was claimed.
abbrev pub claims : ℕ → List (ℕ × ℕ) → ℕ
claims k [] = 0
claims k ((w, j) ∷ h) = (if j == k then 1 else 0) + claims k h

-- Between sem_wait and sem_post.
abbrev pub holding : Pc → Bool
holding (checking k) = true
holding (claiming k byte) = true
holding (posting k) = true
holding (skipping k) = true
holding _ = false

-- All bits of the bitmap below k are set.
abbrev pub Passed : ℕ → List ℕ → ℕ → Type 0
Passed size area k = (j : ℕ) → j < k → j < 8 * size → area_bit area j ≡ 1

-- What the place of a worker says about the memory.
abbrev pub Knows : ℕ → List ℕ → Pc → Type 0
Knows size area (scanning k) = Passed size area k
Knows size area (waiting k) = Passed size area k
Knows size area (checking k) = Passed size area k
Knows size area (claiming k byte) =
    k < 8 * size → (area_bit area k ≡ 0) × (get_elem? area (k / 8) ≡ some byte)
Knows size area (skipping k) = Passed size area (suc k)
Knows size area exhausted = Passed size area (8 * size)
Knows size area _ = Unit

pub record Inv (size : ℕ) (m : Memory) (pc : ℕ → Pc) : Type 0 where
  pub bytes : (i b : ℕ) → get_elem? m.area i ≡ some b → b < 256
  pub inside : size ≤ length m.area
  pub counted : (k : ℕ) → k < 8 * size → claims k m.history ≡ area_bit m.area k
  pub locked : (w : ℕ) → holding (pc w) ≡ true → m.free ≡ false
  pub single : (v w : ℕ) → holding (pc v) ≡ true → holding (pc w) ≡ true → v ≡ w
  pub knows : (w : ℕ) → Knows size m.area (pc w)

-- A write at or behind the end of the bitmap leaves its bits alone.
pub behind :
    (area : List ℕ) (size i byte j : ℕ)
    → size ≤ i
    → j < 8 * size
    → area_bit (set area i byte) j ≡ area_bit area j
behind area size i byte j h lt =
    area_bit-eq (set area i byte) area j
      (get_elem?-set_ne area i (j / 8) byte (λ e. absurd (omega arith)))

pub set_bytes :
    (area : List ℕ) (i v : ℕ)
    → ((j b : ℕ) → get_elem? area j ≡ some b → b < 256)
    → v < 256
    → (j b : ℕ) → get_elem? (set area i v) j ≡ some b
    → b < 256
set_bytes area i v bytes small j b e = elim (ℕ_discrete i j) [
  | yes same ↦
      ground
        (arith, get_elem?-lt (set area i v) j e, length-set area i v, get_elem?-set_self area i v)
  | no other_place ↦ bytes j b (sym (get_elem?-set_ne area i j v other_place) ∙ e)
]

-- A claim sets its own bit, and no other bit of the bitmap.
pub claim_bits :
    (size : ℕ) (area : List ℕ) (k byte j : ℕ)
    → ((i b : ℕ) → get_elem? area i ≡ some b → b < 256)
    → Knows size area (claiming k byte)
    → j < 8 * size
    → area_bit (store_bit area k byte) j ≡ (if k == j then 1 else area_bit area j)
unfolding store_bit
claim_bits size area k byte j bytes fresh lt = elim (dec_lt k (8 * size)) [
  | yes within ↦
      area_bit-store_bit area k j byte (fresh within).1 (bytes (k / 8) byte (fresh within).1)
  | no outside ↦ ground (arith, behind area size (k / 8) (set_bit byte (k % 8)) j)
]

-- Bits that were set stay set, so what a worker knows stays true, unless it is about to write.
pub Knows-mono :
    (size : ℕ) (xs ys : List ℕ) (p : Pc)
    → ((j : ℕ) → j < 8 * size → area_bit xs j ≡ 1 → area_bit ys j ≡ 1)
    → holding p ≡ false
    → Knows size xs p
    → Knows size ys p
Knows-mono size xs ys (scanning k) keep h q = λ j a b. keep j b (q j a b)
Knows-mono size xs ys (waiting k) keep h q = λ j a b. keep j b (q j a b)
Knows-mono size xs ys exhausted keep h q = λ j a b. keep j b (q j a b)
Knows-mono size xs ys (returned k) keep h q = tt
Knows-mono size xs ys failed keep h q = tt
Knows-mono size xs ys unposted keep h q = tt
Knows-mono size xs ys (checking k) keep h q = cc
Knows-mono size xs ys (claiming k byte) keep h q = cc
Knows-mono size xs ys (posting k) keep h q = cc
Knows-mono size xs ys (skipping k) keep h q = cc

-- A write behind the bitmap changes nothing that a worker knows.
pub Knows-behind :
    (size : ℕ) (area : List ℕ) (i byte : ℕ) (p : Pc)
    → size ≤ i
    → Knows size area p
    → Knows size (set area i byte) p
Knows-behind size area i byte (claiming k old) h q = λ lt. (
  behind area size i byte k h lt ∙ (q lt).0,
  get_elem?-set_ne area i (k / 8) byte (λ e. absurd (omega arith)) ∙ (q lt).1,
)
Knows-behind size area i byte (scanning k) h q = λ j a b. behind area size i byte j h b ∙ q j a b
Knows-behind size area i byte (waiting k) h q = λ j a b. behind area size i byte j h b ∙ q j a b
Knows-behind size area i byte (checking k) h q = λ j a b. behind area size i byte j h b ∙ q j a b
Knows-behind size area i byte (skipping k) h q = λ j a b. behind area size i byte j h b ∙ q j a b
Knows-behind size area i byte exhausted h q = λ j a b. behind area size i byte j h b ∙ q j a b
Knows-behind size area i byte (posting k) h q = tt
Knows-behind size area i byte (returned k) h q = tt
Knows-behind size area i byte failed h q = tt
Knows-behind size area i byte unposted h q = tt

-- A worker that has passed all bits below k passes a bit that is not clear.
pub Passed-suc :
    (size : ℕ) (area : List ℕ) (k : ℕ)
    → area_bit area k ≢ 0
    → Passed size area k
    → Passed size area (suc k)
Passed-suc size area k set_now q j lt within = elim (ℕ_discrete j k) [
  | yes same ↦ rw same (omega (arith, area_bit-le area k))
  | no earlier ↦ q j (omega arith) within
]

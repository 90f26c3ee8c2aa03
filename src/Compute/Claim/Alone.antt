-- ===== src/Compute/Claim/Alone.antt =====
-- next_test of compute.c by one worker while the others stand still, beside next_test of
-- report.c.
use perfnum.Prelude.{
  ◌==◌, if◌then◌else◌, ℕ, zero, suc, ◌+◌, ◌*◌, ◌/◌, ◌≤◌, ◌<◌, ◌≡◌, ◌⊎◌, inl, inr, refl, subst, true,
  some, List, [], ◌∷◌, length, get_elem?, Option-cases, arith,
}
use perfnum.Shmem.{area_bit, store_bit}
use perfnum.Shmem.Bits.{area_bit-store_bit}
use perfnum.Shmem.Scan.{first_clear, next_test, AllSet, first_clear-some, first_clear-none}
use perfnum.Compute.Claim.{
  Pc, scanning, returned, exhausted, result, Memory, Move, see_clear, see_set, at_end, lock,
  still_clear, claim, post,
}

-- Steps of worker `w` alone.
pub data Run (w : ℕ) (n : Memory) (q : Pc) : Memory → Pc → Type 0 where
  stop : Run w n q n q
  move : {m m' : Memory} {p p' : Pc} → Move w m p m' p' → Run w n q m' p' → Run w n q m p

-- The scan passes the bits that are set.
scan_set :
    (w : ℕ) (m n : Memory) (q : Pc) (d k j : ℕ)
    → k + d ≡ j
    → j ≤ 8 * length m.area
    → AllSet m.area k j
    → Run w n q m (scanning j)
    → Run w n q m (scanning k)
scan_set w m n q zero k j e h all r =
    let same : j ≡ k = omega arith in subst (λ i. Run w n q m (scanning i)) same r
scan_set w m n q (suc d) k j e h all r =
    move (see_set (omega arith) (omega (arith, all k (omega arith) (omega arith))))
      (scan_set w m n q d (suc k) j (omega arith) h (λ i lo lt. all i (omega arith) lt) r)

get_elem?-some : (xs : List ℕ) (i : ℕ) → i < length xs → (b : ℕ) × (get_elem? xs i ≡ some b)
get_elem?-some [] i h = elim h [ ]
get_elem?-some (x ∷ xs) zero h = (x, refl)
get_elem?-some (x ∷ xs) (suc i) h = get_elem?-some xs i (omega arith)

-- The memory after worker `w` has claimed bit j.
abbrev claimed : ℕ → Memory → ℕ → ℕ → Memory
claimed w m j byte = record {
  area = store_bit m.area j byte;
  free = true;
  history = (w, j) ∷ m.history;
}

claim_clear :
    (w : ℕ) (m : Memory) (j byte : ℕ)
    → m.free ≡ true
    → j < 8 * length m.area
    → area_bit m.area j ≡ 0
    → get_elem? m.area (j / 8) ≡ some byte
    → Run w (claimed w m j byte) (returned j) m (scanning j)
claim_clear w m j byte free lt clear read =
    move (see_clear lt clear)
      (move (lock free) (move (still_clear clear read) (move claim (move post stop))))

-- With the lock free, an area of bytes and no other worker moving, next_test of compute.c has a run that returns, where
-- sem_wait and sem_post succeed: it leaves the lock free, and returns what next_test of report.c
-- would have returned before. When a number is returned, its bit was clear and is set, all other
-- bits stay, and the claim is in the history as this worker's; otherwise nothing changes.
pub next_test_alone :
    (w : ℕ) (m : Memory)
    → m.free ≡ true
    → ((i b : ℕ) → get_elem? m.area i ≡ some b → b < 256)
    → (n : Memory) × (p : Pc) × Run w n p m (scanning 0)
      × (result p ≡ some (next_test m.area))
      × (n.free ≡ true)
      × (((p ≡ exhausted) × (n ≡ m))
          ⊎ ((j : ℕ) × (p ≡ returned j)
              × (area_bit m.area j ≡ 0)
              × ((i : ℕ) → area_bit n.area i ≡ (if j == i then 1 else area_bit m.area i))
              × (n.history ≡ (w, j) ∷ m.history)))
unfolding next_test
next_test_alone w m free small = elim (Option-cases (first_clear (8 * length m.area) 0 m.area)) [
  | inl missing ↦
      let all = first_clear-none (8 * length m.area) 0 m.area missing in
      (
        m,
        exhausted,
        scan_set w m m exhausted (8 * length m.area) 0 (8 * length m.area) (omega arith)
            (omega arith) (λ i lo lt. all i lo (omega arith)) (move (at_end (omega arith)) stop),
        rw (missing, next_test),
        free,
        inl (refl, refl),
      )
  | inr (j, here) ↦
      let (first, lt) = first_clear-some (8 * length m.area) 0 j m.area here in
      let (byte, read) = get_elem?-some m.area (j / 8) (omega arith) in
      (
        claimed w m j byte,
        returned j,
        scan_set w m (claimed w m j byte) (returned j) j 0 j (omega arith) (omega arith)
            first.before (claim_clear w m j byte free (omega arith) first.clear read),
        rw (here, next_test),
        refl,
        inr (
          j,
          refl,
          first.clear,
          λ i. area_bit-store_bit m.area j i byte read (small (j / 8) byte read),
          refl,
        ),
      )
]

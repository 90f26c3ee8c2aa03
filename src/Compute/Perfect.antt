-- ===== src/Compute/Perfect.antt =====
-- compute.c, is_perfect_number: the divisors array and the sum in 32-bit unsigned arithmetic.
pub mod Spec
pub mod Bounds
pub mod Correct
use perfnum.Prelude.{
  ℕ, zero, suc, ◌+◌, ◌-◌, ◌%◌, ◌^◌, Bool, Option, none, some, List, [], ◌∷◌, ◌++◌, ltb, ◌==◌,
  if◌then◌else◌, length,
}

-- The maximum number of divisors to store, MAX_DIVISORS.
abbrev pub max_divisors : ℕ
max_divisors = 10000

-- unsigned int a + b
abbrev pub add32 : ℕ → ℕ → ℕ
add32 a b = (a + b) % 2 ^ 32

-- divisors[n_divisors++] = i, with the first n_divisors cells as the list. `none` is a write past
-- the end of the array.
unfoldable pub push_divisor : List ℕ → ℕ → Option (List ℕ)
push_divisor ds i = if ltb (length ds) max_divisors then some (ds ++ i ∷ []) else none

-- The body of the first loop at `i`.
unfoldable pub test_divisor : ℕ → ℕ → List ℕ → Option (List ℕ)
unfolding push_divisor
test_divisor n i ds = if n % i == 0 then push_divisor ds i else some ds

-- The first loop, with `rounds` values of `i` left.
unfoldable pub collect_divisors : ℕ → ℕ → ℕ → List ℕ → Option (List ℕ)
collect_divisors n zero i ds = some ds
collect_divisors n (suc rounds) i ds = elim (test_divisor n i ds) [
  | none ↦ none
  | some more ↦ collect_divisors n rounds (suc i) more
]

-- The second loop.
unfoldable pub sum_divisors : ℕ → List ℕ → ℕ
sum_divisors sum [] = sum
sum_divisors sum (d ∷ ds) = sum_divisors (add32 sum d) ds

-- The loop `for (i = 1; i < n; i++)` makes n - 1 rounds, and none at n = 0.
unfoldable pub is_perfect_number : ℕ → Option Bool
unfolding test_divisor collect_divisors sum_divisors
is_perfect_number n = elim (collect_divisors n (n - 1) 1 []) [
  | none ↦ none
  | some ds ↦ some (sum_divisors 0 ds == n)
]

-- ===== src/Compute/Perfect/Correct.antt =====
-- The two loops of is_perfect_number against the description of perfect numbers.
use perfnum.Prelude.{
  ℕ, zero, suc, ◌+◌, ◌-◌, ◌%◌, ◌^◌, ◌≤◌, ◌<◌, ◌≡◌, ◌↔◌, Bool, true, some, List, [], ◌∷◌, ◌++◌,
  append_assoc, append-nil, ◌==◌, if◌then◌else◌, length, length-append, arith,
}
use perfnum.Compute.Perfect.{
  max_divisors, add32, test_divisor, collect_divisors, sum_divisors, is_perfect_number,
}
use perfnum.Compute.Perfect.Spec.{div_count, div_sum, aliquot, IsPerfect}
use perfnum.Compute.Perfect.Bounds.{div_count-bound, div_sum-bound}

-- The divisors among `rounds` numbers from `i` on.
divisors_from : ℕ → ℕ → ℕ → List ℕ
divisors_from n zero i = []
divisors_from n (suc rounds) i =
    if n % i == 0 then i ∷ divisors_from n rounds (suc i) else divisors_from n rounds (suc i)

sum : List ℕ → ℕ
sum [] = 0
sum (x ∷ xs) = x + sum xs

length-divisors_from :
    (n rounds j m : ℕ)
    → j + rounds ≡ m
    → length (divisors_from n rounds (suc j)) + div_count n j ≡ div_count n m
unfolding divisors_from div_count
length-divisors_from n zero j m e = let same : j ≡ m = omega arith in rw same (omega arith)
length-divisors_from n (suc rounds) j m e = ground (arith, length-divisors_from n rounds (suc j) m)

sum-divisors_from :
    (n rounds j m : ℕ)
    → j + rounds ≡ m
    → sum (divisors_from n rounds (suc j)) + div_sum n j ≡ div_sum n m
unfolding divisors_from div_sum sum
sum-divisors_from n zero j m e = let same : j ≡ m = omega arith in rw same (omega arith)
sum-divisors_from n (suc rounds) j m e = ground (arith, sum-divisors_from n rounds (suc j) m)

collect-eq :
    (n rounds i : ℕ) (ds : List ℕ)
    → length ds + length (divisors_from n rounds i) ≤ max_divisors
    → collect_divisors n rounds i ds ≡ some (ds ++ divisors_from n rounds i)
unfolding collect_divisors divisors_from test_divisor
collect-eq n zero i ds h = ground (arith, append-nil ds)
collect-eq n (suc rounds) i ds h = ground (
  arith,
  collect-eq n rounds (suc i) ds,
  collect-eq n rounds (suc i) (ds ++ i ∷ []),
  append_assoc ds (i ∷ []) (divisors_from n rounds (suc i)),
  length-append ds (i ∷ []),
)

-- The second loop computes the sum modulo 2 ^ 32.
sum_divisors-eq : (acc : ℕ) (ds : List ℕ) → sum_divisors (acc % 2 ^ 32) ds ≡ (acc + sum ds) % 2 ^ 32
unfolding sum_divisors sum
sum_divisors-eq acc [] = omega arith
sum_divisors-eq acc (d ∷ ds) =
    let step : add32 (acc % 2 ^ 32) d ≡ (acc + d) % 2 ^ 32 = omega arith in
    let regroup : acc + d + sum ds ≡ acc + (d + sum ds) = omega arith in
    rw (step, sum_divisors-eq (acc + d) ds, regroup)

-- Whenever the number has at most MAX_DIVISORS proper divisors, the function returns, and its
-- answer is whether the sum of the proper divisors is n modulo 2 ^ 32.
pub is_perfect_number-eq :
    (n : ℕ)
    → div_count n (n - 1) ≤ max_divisors
    → is_perfect_number n ≡ some (aliquot n % 2 ^ 32 == n)
unfolding is_perfect_number div_count div_sum
is_perfect_number-eq n few = ground (
  arith,
  collect-eq n (n - 1) 1 [],
  length-divisors_from n (n - 1) 0 (n - 1),
  sum-divisors_from n (n - 1) 0 (n - 1),
  sum_divisors-eq 0 (divisors_from n (n - 1) 1),
)

-- Up to 25000000 the array does not overflow and the sum does not wrap.
pub is_perfect_number_small :
    (n : ℕ) → 0 < n → n ≤ 25000000 → is_perfect_number n ≡ some (aliquot n == n)
is_perfect_number_small n p h =
    ground (arith, is_perfect_number-eq n (div_count-bound n h), div_sum-bound n h)

-- For every positive n of at most 25000000 the function returns, and returns true exactly if n is the
-- sum of its proper divisors: the array does not overflow and the sum does not wrap.
pub is_perfect_number-IsPerfect :
    (n : ℕ)
    → 0 < n
    → n ≤ 25000000
    → (b : Bool) × (is_perfect_number n ≡ some b) × ((b ≡ true) ↔ IsPerfect n)
is_perfect_number-IsPerfect n p h = (aliquot n == n, is_perfect_number_small n p h, ground arith)

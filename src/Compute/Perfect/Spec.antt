-- ===== src/Compute/Perfect/Spec.antt =====
-- Perfect numbers, described without the program: the count and the sum of the divisors up to k.
use perfnum.Prelude.{ℕ, zero, suc, ◌+◌, ◌-◌, ◌%◌, ◌<◌, ◌≡◌, ◌==◌, if◌then◌else◌}

unfoldable pub div_count : ℕ → ℕ → ℕ
div_count n zero = 0
div_count n (suc k) = (if n % suc k == 0 then 1 else 0) + div_count n k

unfoldable pub div_sum : ℕ → ℕ → ℕ
div_sum n zero = 0
div_sum n (suc k) = (if n % suc k == 0 then suc k else 0) + div_sum n k

-- The sum of the proper divisors.
abbrev pub aliquot : ℕ → ℕ
aliquot n = div_sum n (n - 1)

-- A positive number that is the sum of its proper divisors.
abbrev pub IsPerfect : ℕ → Type 0
IsPerfect n = (0 < n) × (aliquot n ≡ n)

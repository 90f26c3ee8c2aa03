-- ===== src/Compute/Perfect/Bounds.antt =====
-- Bounds on the count and the sum of the divisors of a number n: between n / (j + 2) and
-- n / (j + 1) there is one divisor at most.
use native.Mathlib.Decide.{dec_lt}
use native.Mathlib.Nat.{
  div-add-mod, lt-mul-div-succ, mul-div-le, mul-le-mul_left, div-one, add-zero, add-suc,
  le-div_iff_mul-le,
}
use perfnum.Prelude.{ℕ, zero, suc, ◌+◌, ◌-◌, ◌*◌, ◌/◌, ◌%◌, ◌^◌, ◌≤◌, ◌<◌, ◌≡◌, refl, ap, arith}
use perfnum.Compute.Perfect.Spec.{div_count, div_sum}

div_count-le : (n k : ℕ) → div_count n k ≤ k
unfolding div_count
div_count-le n zero = omega arith
div_count-le n (suc k) = ground (arith, div_count-le n k)

div_sum-le : (n m k : ℕ) → k ≤ m → div_sum n k ≤ k * m
unfolding div_sum
div_sum-le n m zero h = omega arith
div_sum-le n m (suc k) h = ground (arith, div_sum-le n m k)

-- A divisor d with n / (j + 1) < d has d * j ≥ n.
no_divisor : (n d j : ℕ) → n % d ≡ 0 → n < d * suc j → d * j < n → ⊥
no_divisor n d j e above below = elim (dec_lt j (n / d)) [
  | yes more ↦ omega (arith, div-add-mod n d, mul-le-mul_left d more)
  | no less ↦
      let le : n / d ≤ j = omega arith in omega (arith, div-add-mod n d, mul-le-mul_left d le)
]

le_step : (k : ℕ) → k ≤ suc k
le_step k = omega arith

a_below : (a c : ℕ) → suc a ≤ suc (a + c)
a_below a c = omega arith

-- Above a and up to a + c no divisor, if these numbers are between n / (j + 1) and n / j.
gap :
    (n j a c : ℕ)
    → n < suc a * suc j
    → (a + c) * j < n
    → (div_count n (a + c) ≡ div_count n a) × (div_sum n (a + c) ≡ div_sum n a)
unfolding div_count div_sum
gap n j a zero above below = (rw add-zero, rw add-zero)
gap n j a (suc c) above below =
    let (counts, sums) = gap n j a c above (omega (arith, mul-le-mul_left j (le_step (a + c)))) in
    let clear = λ (e : n % suc (a + c) ≡ 0).
      no_divisor n (suc (a + c)) j e (omega (arith, mul-le-mul_left (suc j) (a_below a c)))
        (omega arith) in
    rw add-suc (ground (arith, clear), ground (arith, clear))

mono : (n b a : ℕ) → b ≤ a → (div_count n b ≤ div_count n a) × (div_sum n b ≤ div_sum n a)
unfolding div_count div_sum
mono n b zero h = let same : b ≡ 0 = omega arith in rw same (omega arith)
mono n b (suc a) h = elim (dec_lt a b) [
  | yes whole ↦ let same : b ≡ suc a = omega arith in rw same (omega arith, omega arith)
  | no part ↦ ground (arith, mono n b a)
]

-- Up to a number b there is at most one divisor more than up to a, and it is at most b.
one_more :
    (n j a b : ℕ)
    → n < suc a * suc j
    → b * j ≤ n
    → 0 < j
    → (div_count n b ≤ suc (div_count n a)) × (div_sum n b ≤ b + div_sum n a)
unfolding div_count div_sum
one_more n j a b above below some_j = elim (dec_lt a b) [
  | yes more ↦
      let c : ℕ = b - suc a in
      let same : b ≡ suc (a + c) = omega arith in
      let less : (a + c) * j < n = omega (arith, ap (λ (t : ℕ). t * j) same) in
      let (counts, sums) = gap n j a c above less in
      rw same (ground (arith, counts), ground (arith, sums))
  | no less ↦
      (omega (arith, (mono n b a (omega arith)).0), omega (arith, (mono n b a (omega arith)).1))
]

between :
    (n i : ℕ)
    → (div_count n (n / suc i) ≤ suc (div_count n (n / suc (suc i))))
      × (div_sum n (n / suc i) ≤ n / suc i + div_sum n (n / suc (suc i)))
between n i =
    one_more n (suc i) (n / suc (suc i)) (n / suc i)
      (omega (arith, lt-mul-div-succ n {b = suc (suc i)} (omega arith)))
      (omega (arith, mul-div-le n (suc i))) (omega arith)

-- n / 1 + n / 2 + … + n / i
quotients : ℕ → ℕ → ℕ
quotients n zero = 0
quotients n (suc i) = n / suc i + quotients n i

telescope :
    (n i : ℕ)
    → (div_count n n ≤ i + div_count n (n / suc i))
      × (div_sum n n ≤ quotients n i + div_sum n (n / suc i))
unfolding quotients
telescope n zero = rw div-one (omega arith)
telescope n (suc i) = omega (arith, telescope n i, between n i)

-- A number has at most n / (i + 1) + i divisors.
div_count-quotient : (n i : ℕ) → div_count n n ≤ i + n / suc i
div_count-quotient n i = omega (arith, (telescope n i).0, div_count-le n (n / suc i))

div_sum-quotients : (n i : ℕ) → div_sum n n ≤ quotients n i + n / suc i * (n / suc i)
div_sum-quotients n i =
    omega (arith, (telescope n i).1, div_sum-le n (n / suc i) (n / suc i) (omega arith))

suc_le : (a b : ℕ) → a ≤ b → suc a ≤ suc b
suc_le a b h = omega arith

div_anti : (n a b : ℕ) → a ≤ b → n / suc b ≤ n / suc a
div_anti n a b h =
    (le-div_iff_mul-le {k = suc a} {x = n / suc b} {y = n} (omega arith)).1
      (omega (arith, mul-div-le n (suc b), mul-le-mul_left (n / suc b) (suc_le a b h)))

quotients-add : (n a c : ℕ) → quotients n (a + c) ≤ quotients n a + c * (n / suc a)
unfolding quotients
quotients-add n a zero = rw add-zero (omega arith)
quotients-add n a (suc c) =
    rw add-suc (omega (arith, quotients-add n a c, div_anti n a (a + c) (omega arith)))

double : (n a b : ℕ) → a + suc a ≡ b → quotients n b ≤ quotients n a + n
double n a b e = rw (← e) (omega (arith, quotients-add n a (suc a), mul-div-le n (suc a)))

quotients-zero : (n : ℕ) → quotients n 0 ≡ 0
unfolding quotients
quotients-zero n = refl

doublings : (n : ℕ) → quotients n 4095 ≤ 12 * n
doublings n = omega (
  arith,
  quotients-zero n,
  double n 0 1 refl,
  double n 1 3 refl,
  double n 3 7 refl,
  double n 7 15 refl,
  double n 15 31 refl,
  double n 31 63 refl,
  double n 63 127 refl,
  double n 127 255 refl,
  double n 255 511 refl,
  double n 511 1023 refl,
  double n 1023 2047 refl,
  double n 2047 4095 refl,
)

-- The array of is_perfect_number has room for the proper divisors of every number up to 25000000.
pub div_count-bound : (n : ℕ) → n ≤ 25000000 → div_count n (n - 1) ≤ 10000
div_count-bound n h = omega (arith, (mono n (n - 1) n (omega arith)).0, div_count-quotient n 4999)

-- Their sum does not reach 2 ^ 32.
pub div_sum-bound : (n : ℕ) → n ≤ 25000000 → div_sum n (n - 1) < 2 ^ 32
div_sum-bound n h =
    let q : ℕ = n / suc 4095 in
    let small : q ≤ 6104 = omega arith in
    omega (
      arith,
      (mono n (n - 1) n (omega arith)).1,
      div_sum-quotients n 4095,
      doublings n,
      mul-le-mul_left q small,
    )

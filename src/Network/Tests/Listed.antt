-- ===== src/Network/Tests/Listed.antt =====
-- The perfect numbers up to 1005.
use perfnum.Prelude.{
  ℕ, zero, suc, ◌≡◌, ◌≤◌, ◌<◌, refl, sym, subst, ℤ, pos, Bool, true, ◌&&◌, List, [], ◌∷◌, ◌==◌, leb,
  if◌then◌else◌, Bool-cases, inl, inr, arith,
}
use perfnum.Compute.Perfect.Spec.{aliquot, div_sum}
use perfnum.Network.Conserve.{copies}

abbrev pub perfect_numbers : List ℤ
perfect_numbers = pos 6 ∷ pos 28 ∷ pos 496 ∷ []

-- Whether each perfect number from 1 to n is in the list.
unfoldable listed : List ℤ → ℕ → Bool
listed ns zero = true
listed ns (suc n) =
    (if aliquot (suc n) == suc n then leb 1 (copies (suc n) ns) else true) && listed ns n

listed-last :
    (ns : List ℤ) (n : ℕ)
    → listed ns (suc n) ≡ true
    → (aliquot (suc n) == suc n) ≡ true
    → 1 ≤ copies (suc n) ns
unfolding listed
listed-last ns n h p = ground (arith, h, p)

listed-copies :
    (ns : List ℤ) (n k : ℕ)
    → listed ns n ≡ true
    → 0 < k
    → k ≤ n
    → (aliquot k == k) ≡ true
    → 1 ≤ copies k ns
unfolding listed
listed-copies ns zero k h lo hi p = omega (arith, lo, hi)
listed-copies ns (suc n) k h lo hi p = elim (Bool-cases (k == suc n)) [
  | inl here ↦
      let same : k ≡ suc n = ground (arith, here) in
      subst (λ m. 1 ≤ copies m ns) (sym same)
        (listed-last ns n h (subst (λ m. (aliquot m == m) ≡ true) same p))
  | inr below ↦ listed-copies ns n k (ground (arith, h)) lo (ground (arith, hi, below)) p
]

listed_all : listed perfect_numbers 1005 ≡ true
unfolding listed div_sum
listed_all = refl

pub copies-perfect_numbers :
    (k : ℕ) → 0 < k → k ≤ 1005 → (aliquot k == k) ≡ true → 1 ≤ copies k perfect_numbers
copies-perfect_numbers k = listed-copies perfect_numbers 1005 k listed_all

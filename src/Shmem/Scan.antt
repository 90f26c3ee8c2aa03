-- ===== src/Shmem/Scan.antt =====
-- The nested loops of next_test, in compute.c and report.c: the search for a clear bit from
-- res->bitmap up to res->perfect_numbers.
use native.Mathlib.Decide.{ℕ_discrete, dec_le}
use perfnum.Prelude.{
  ℕ, zero, suc, ◌+◌, ◌*◌, ◌/◌, ◌≤◌, ◌<◌, ◌≡◌, ◌≢◌, ◌⊎◌, inl, inr, ◌↔◌, ◌∙◌, ℤ, pos, minus_one,
  Option, none, some, List, ◌++◌, length, get_elem?-append_right, ◌==◌, if◌then◌else◌, Option-cases,
  length-append, some_inj, arith,
}
use mathlib.Core.Path.{ap₂}
use perfnum.Shmem.{byte_bit, area_bit}
use perfnum.Shmem.Bits.{area_bit-le}

-- The loops with `rounds` bits left, at bit k: the place of the first clear bit.
unfoldable pub first_clear : ℕ → ℕ → List ℕ → Option ℕ
first_clear zero k area = none
first_clear (suc rounds) k area =
    let rest = first_clear rounds (suc k) area in if area_bit area k == 0 then some k else rest

-- next_test of report.c, which only looks.
unfoldable pub next_test : List ℕ → ℤ
unfolding first_clear
next_test area = elim (first_clear (8 * length area) 0 area) [
  | none ↦ minus_one
  | some k ↦ pos (k + 1)
]

-- The bits from `lo` up to `hi` are set.
abbrev pub AllSet : List ℕ → ℕ → ℕ → Type 0
AllSet area lo hi = (i : ℕ) → lo ≤ i → i < hi → area_bit area i ≡ 1

AllSet-extend :
    (area : List ℕ) (k hi : ℕ) → area_bit area k ≢ 0 → AllSet area (suc k) hi → AllSet area k hi
AllSet-extend area k hi set_now rest i lo lt = elim (ℕ_discrete k i) [
  | yes same ↦ rw (← same) (omega (arith, area_bit-le area k))
  | no above ↦ rest i (omega arith) lt
]

-- A clear bit, with all before it set.
pub record IsFirst (area : List ℕ) (k j : ℕ) : Type 0 where
  pub from : k ≤ j
  pub clear : area_bit area j ≡ 0
  pub before : AllSet area k j

first_clear-step :
    (rounds k : ℕ) (area : List ℕ) (o : Option ℕ)
    → first_clear (suc rounds) k area ≡ o
    → ((area_bit area k ≡ 0) × (o ≡ some k))
      ⊎ ((area_bit area k ≢ 0) × (first_clear rounds (suc k) area ≡ o))
unfolding first_clear
first_clear-step rounds k area o e = elim (ℕ_discrete (area_bit area k) 0) [
  | yes clear ↦ inl (clear, ground arith)
  | no set_now ↦ inr (set_now, ground arith)
]

pub first_clear-some :
    (rounds k j : ℕ) (area : List ℕ)
    → first_clear rounds k area ≡ some j
    → IsFirst area k j × (j < k + rounds)
unfolding first_clear
first_clear-some zero k j area e = cc
first_clear-some (suc rounds) k j area e = elim (first_clear-step rounds k area (some j) e) [
  | inl (clear, here) ↦
      let same : j ≡ k = some_inj here in
      (
        record {
          from = omega arith;
          clear = rw same clear;
          before = λ i lo lt. absurd (omega arith);
        },
        omega arith,
      )
  | inr (set_now, below) ↦
      let (first, lt) = first_clear-some rounds (suc k) j area below in
      (
        record {
          from = omega (arith, first.from);
          clear = first.clear;
          before = AllSet-extend area k j set_now first.before;
        },
        omega arith,
      )
]

pub first_clear-none :
    (rounds k : ℕ) (area : List ℕ) → first_clear rounds k area ≡ none → AllSet area k (k + rounds)
unfolding first_clear
first_clear-none zero k area e = λ i lo lt. absurd (omega arith)
first_clear-none (suc rounds) k area e = elim (first_clear-step rounds k area none e) [
  | inl (clear, here) ↦ cc
  | inr (set_now, below) ↦
      AllSet-extend area k (k + suc rounds) set_now
        (λ i lo lt. first_clear-none rounds (suc k) area below i lo (omega arith))
]

IsFirst-le : (area : List ℕ) (j k : ℕ) → IsFirst area 0 j → area_bit area k ≡ 0 → j ≤ k
IsFirst-le area j k first clear = elim (dec_le j k) [
  | yes h ↦ h
  | no h ↦ absurd (omega (arith, first.before k (omega arith) (omega arith)))
]

-- next_test of report.c returns the smallest number whose bit is clear, whenever a bit is clear
-- between res->bitmap and res->perfect_numbers.
next_test-least :
    (area : List ℕ) (k : ℕ)
    → k < 8 * length area
    → area_bit area k ≡ 0
    → (j : ℕ) × (next_test area ≡ pos (j + 1)) × (j ≤ k) × IsFirst area 0 j
unfolding next_test
next_test-least area k lt clear = elim (Option-cases (first_clear (8 * length area) 0 area)) [
  | inl missing ↦ absurd (
      omega
        (arith, first_clear-none (8 * length area) 0 area missing k (omega arith) (omega arith)))
  | inr (j, here) ↦
      let (first, lt') = first_clear-some (8 * length area) 0 j area here in
      (j, rw (here, next_test), IsFirst-le area j k first clear, first)
]

-- next_test of report.c returns -1 exactly if all these bits are set.
next_test-none : (area : List ℕ) → (next_test area ≡ minus_one) ↔ AllSet area 0 (8 * length area)
unfolding next_test
next_test-none area = elim (Option-cases (first_clear (8 * length area) 0 area)) [
  | inl missing ↦ (
    λ e i lo lt. first_clear-none (8 * length area) 0 area missing i lo (omega arith),
    λ all. rw (missing, next_test),
  )
  | inr (j, here) ↦
      let (first, lt) = first_clear-some (8 * length area) 0 j area here in
      (
        λ e. absurd (ground arith),
        λ all. absurd (omega (arith, first.clear, all j (omega arith) (omega arith))),
      )
]

area_bit-append : (xs ys : List ℕ) (j : ℕ) → area_bit (xs ++ ys) (8 * length xs + j) ≡ area_bit ys j
unfolding area_bit
area_bit-append xs ys j =
    ap₂ byte_bit (get_elem?-append_right xs ys ((8 * length xs + j) / 8) (j / 8) (omega arith))
      (omega arith)

-- The scan runs on into the semaphore behind the bitmap: with a bitmap of limit / 8 + 1 bytes whose
-- bits are all set, and a clear bit in the bytes of the semaphore, next_test reports a number above
-- the limit as the next one to test.
pub scan_overrun :
    (limit : ℕ) (bitmap semaphore : List ℕ) (j : ℕ)
    → length bitmap ≡ limit / 8 + 1
    → AllSet (bitmap ++ semaphore) 0 (8 * length bitmap)
    → j < 8 * length semaphore
    → area_bit semaphore j ≡ 0
    → (n : ℕ) × (next_test (bitmap ++ semaphore) ≡ pos n) × (limit < n)
scan_overrun limit bitmap semaphore j size all lt clear =
    let (k, e, le, first) =
      next_test-least (bitmap ++ semaphore) (8 * length bitmap + j)
        (omega (arith, length-append bitmap semaphore))
        (area_bit-append bitmap semaphore j ∙ clear) in
    (
      k + 1,
      e,
      elim (dec_le (8 * length bitmap) k) [
        | yes past ↦ omega arith
        | no within ↦ absurd (omega (arith, all k (omega arith) (omega arith), first.clear))
      ],
    )

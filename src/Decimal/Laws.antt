-- ===== src/Decimal/Laws.antt =====
-- Numbers through text and back.
use perfnum.Prelude.{
  ℕ, zero, suc, ◌+◌, ◌*◌, ◌/◌, ◌%◌, ◌≤◌, ◌<◌, ◌≡◌, refl, ◌∙◌, pos, true, List, [], ◌∷◌, ◌++◌,
  append-nil, take, length, arith,
}
use perfnum.Decimal.{emit, decimal, snprintf, is_digit, scan, atoi}

scan-emit :
    (rounds n : ℕ) (out rest : List ℕ)
    → n ≤ rounds
    → scan 0 (emit rounds n out ++ rest) ≡ scan n (out ++ rest)
unfolding scan emit
scan-emit zero n out rest h = let same : n ≡ 0 = omega arith in rw same refl
scan-emit (suc rounds) n out rest h =
    ground (arith, scan-emit rounds (n / 10) ((48 + n % 10) ∷ out) rest)

-- A number of at most d digits.
abbrev pub ten : ℕ → ℕ
ten zero = 1
ten (suc d) = 10 * ten d

length-emit :
    (rounds n d : ℕ) (out : List ℕ)
    → n < ten (suc d)
    → length (emit rounds n out) ≤ suc d + length out
unfolding emit
length-emit zero n d out h = omega arith
length-emit (suc rounds) n zero out h = ground arith
length-emit (suc rounds) n (suc d) out h =
    ground (arith, length-emit rounds (n / 10) d ((48 + n % 10) ∷ out))

-- A text that starts with a digit.
abbrev Starts : List ℕ → Type 0
Starts [] = ⊥
Starts (c ∷ s) = is_digit c ≡ true

emit-Starts : (rounds n : ℕ) (out : List ℕ) → Starts (emit rounds n out)
unfolding emit
emit-Starts zero n out = ground arith
emit-Starts (suc rounds) n out = ground (arith, emit-Starts rounds (n / 10) ((48 + n % 10) ∷ out))

atoi-Starts : (s rest : List ℕ) → Starts s → atoi (s ++ rest) ≡ pos (scan 0 (s ++ rest))
unfolding atoi
atoi-Starts [] rest h = absurd h
atoi-Starts (c ∷ s) rest h = ground arith

-- What atoi reads where a printed number stands before other bytes.
pub atoi-decimal : (n : ℕ) (rest : List ℕ) → atoi (decimal (pos n) ++ rest) ≡ pos (scan n rest)
unfolding decimal
atoi-decimal n rest =
    atoi-Starts (emit n n []) rest (emit-Starts n n []) ∙ ground (arith, scan-emit n n [] rest)

pub take_all : (xs : List ℕ) (n : ℕ) → length xs ≤ n → take n xs ≡ xs
take_all [] zero h = refl
take_all [] (suc n) h = refl
take_all (x ∷ xs) zero h = absurd (omega arith)
take_all (x ∷ xs) (suc n) h = ground (arith, take_all xs n)

-- Ten digits fit into a buffer of 11 bytes.
pub snprintf-decimal : (n : ℕ) → n < ten 10 → snprintf 11 (pos n) ≡ decimal (pos n)
unfolding snprintf decimal
snprintf-decimal n h = take_all (emit n n []) 10 (omega (arith, length-emit n n 9 [] h))

pub length-decimal : (n : ℕ) → n < ten 10 → length (decimal (pos n)) ≤ 10
unfolding decimal
length-decimal n h = omega (arith, length-emit n n 9 [] h)

pub atoi-snprintf : (n : ℕ) → n < ten 10 → atoi (snprintf 11 (pos n)) ≡ pos n
unfolding scan
atoi-snprintf n h = rw (snprintf-decimal n h, ← append-nil (decimal (pos n))) (atoi-decimal n [])

-- ===== src/Decimal.antt =====
-- snprintf with "%d" and atoi, as the programs use them: for process ids in a file, and for numbers
-- on command lines. A text is its bytes; a C string ends at a 0.
pub mod Laws
use perfnum.Prelude.{
  ℕ, zero, suc, ◌+◌, ◌-◌, ◌*◌, ◌/◌, ◌%◌, ℤ, pos, negsuc, Bool, ◌&&◌, ◌||◌, List, [], ◌∷◌, ◌==◌, ltb,
  leb, take, if◌then◌else◌,
}

-- The digits of n in front of `out`; n rounds are enough.
unfoldable pub emit : ℕ → ℕ → List ℕ → List ℕ
emit zero n out = (48 + n % 10) ∷ out
emit (suc rounds) n out =
    let rest = emit rounds (n / 10) ((48 + n % 10) ∷ out) in
    if ltb n 10 then (48 + n % 10) ∷ out else rest

-- "%d"
unfoldable pub decimal : ℤ → List ℕ
unfolding emit
decimal (pos n) = emit n n []
decimal (negsuc n) = 45 ∷ emit (suc n) (suc n) []

-- snprintf(s, size, "%d", n): at most size - 1 bytes, without the 0 behind them.
unfoldable pub snprintf : ℕ → ℤ → List ℕ
unfolding decimal
snprintf size n = take (size - 1) (decimal n)

abbrev pub is_digit : ℕ → Bool
is_digit c = leb 48 c && leb c 57

abbrev pub is_space : ℕ → Bool
is_space c = c == 32 || (leb 9 c && leb c 13)

-- The digits from the start of the text on.
unfoldable pub scan : ℕ → List ℕ → ℕ
scan n [] = n
scan n (c ∷ s) = let rest = scan (n * 10 + (c - 48)) s in if is_digit c then rest else n

abbrev pub negated : ℕ → ℤ
negated zero = pos 0
negated (suc n) = negsuc n

-- atoi, for values that an int can hold.
unfoldable pub atoi : List ℕ → ℤ
unfolding scan
atoi [] = pos 0
atoi (c ∷ s) =
    let rest = atoi s in
    if is_space c
    then rest
    else if c == 45
    then negated (scan 0 s)
    else if c == 43
    then pos (scan 0 s)
    else pos (scan 0 (c ∷ s))

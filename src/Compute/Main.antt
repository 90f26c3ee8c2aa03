-- ===== src/Compute/Main.antt =====
-- compute.c, main: the mode and the arguments. A text is its bytes.
use perfnum.Prelude.{ℕ, ℤ, List, [], ◌∷◌, none, some, length, get_elem?, ltb, ◌==◌, if◌then◌else◌}
use perfnum.Decimal.{atoi}

-- argv[i]
abbrev pub argument : List (List ℕ) → ℕ → List ℕ
argument argv i = elim (get_elem? argv i) [ none ↦ [] | some text ↦ text ]

-- The first byte of a text, which is 0 if there is none.
abbrev pub first_byte : List ℕ → ℕ
first_byte [] = 0
first_byte (c ∷ s) = c

-- What main goes on to do. usage() ends the program.
pub data Choice : Type 0 where
  usage : Choice
  shmem : Choice
  pipe : (first last : ℤ) → Choice
  sock : (host : List ℕ) → Choice

unfoldable pub main : List (List ℕ) → Choice
main argv =
    let argc = length argv in
    let mode = first_byte (argument argv 1) in
    if ltb argc 2
    then usage
    else if mode == b'm'
    then shmem
    else if mode == b'p'
    then (if ltb argc 4 then usage else pipe (atoi (argument argv 2)) (atoi (argument argv 3)))
    else if mode == b's'
    then (if ltb argc 3 then usage else sock (argument argv 2))
    else usage

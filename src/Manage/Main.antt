-- ===== src/Manage/Main.antt =====
-- manage.c, main: the mode and the arguments, as the start of each mode reads them.
use perfnum.Prelude.{ℕ, ℤ, List, length, ltb, ◌==◌, if◌then◌else◌}
use perfnum.Decimal.{atoi}
use perfnum.Compute.Main.{argument, first_byte}

-- What main goes on to do. usage() ends the program.
pub data Choice : Type 0 where
  usage : Choice
  pipe : (limit nprocs : ℤ) → Choice
  shmem : (limit : ℤ) → Choice
  sock : (limit : ℤ) → Choice

unfoldable pub main : List (List ℕ) → Choice
main argv =
    let argc = length argv in
    let mode = first_byte (argument argv 1) in
    if ltb argc 2
    then usage
    else if mode == b'p'
    then (if ltb argc 4 then usage else pipe (atoi (argument argv 2)) (atoi (argument argv 3)))
    else if mode == b'm'
    then (if ltb argc 3 then usage else shmem (atoi (argument argv 2)))
    else if mode == b's'
    then (if ltb argc 3 then usage else sock (atoi (argument argv 2)))
    else usage

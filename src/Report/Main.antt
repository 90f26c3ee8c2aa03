-- ===== src/Report/Main.antt =====
-- report.c, main and check_kill, and sock_connect of sock.c.
pub mod Kill
use perfnum.Prelude.{
  ℕ, ℤ, minus_one, ◌==ℤ◌, Bool, true, false, ◌&&◌, List, [], ◌∷◌, ◌++◌, Option, none, some, length,
  ltb, ◌==◌, if◌then◌else◌,
}
use perfnum.Packet.{Packet, Read, Sent}
use perfnum.Compute.Main.{argument, first_byte}
use perfnum.Report.{Joined, sock_init, sock_kill}

-- strcmp(s, "-k") == 0
abbrev is_kill : List ℕ → Bool
is_kill (a ∷ b ∷ []) = a == b'-' && b == b'k'
is_kill _ = false

-- check_kill
unfoldable pub check_kill : List (List ℕ) → Bool
check_kill argv =
    let argc = length argv in
    let mode = first_byte (argument argv 1) in
    if mode == b'm'
    then (if ltb 2 argc then is_kill (argument argv 2) else false)
    else if mode == b'p'
    then (if ltb 2 argc then is_kill (argument argv 2) else false)
    else if mode == b's'
    then (if ltb 3 argc then is_kill (argument argv 3) else false)
    else false

-- What main goes on to do behind the start of each mode. usage() ends the program.
pub data Choice : Type 0 where
  usage : Choice
  shmem : (kill : Bool) → Choice
  pipe : (kill : Bool) → Choice
  sock : (host : List ℕ) (kill : Bool) → Choice

unfoldable pub main : List (List ℕ) → Choice
unfolding check_kill
main argv =
    let mode = first_byte (argument argv 1) in
    if ltb (length argv) 2
    then usage
    else if mode == b'm'
    then shmem (check_kill argv)
    else if mode == b'p'
    then pipe (check_kill argv)
    else if mode == b's'
    then (if ltb (length argv) 3 then usage else sock (argument argv 2) (check_kill argv))
    else usage

-- sock_connect: what it returns, the address that it tries, and the sockets that it leaves open.
-- `address` is what inet_pton makes of the host, whose failure is not looked at: the address is 0
-- before. `socket` is what socket() returns.
pub record Connected : Type 0 where
  pub result : ℤ
  pub address : Option ℕ
  pub open_fds : List ℤ

unfoldable pub sock_connect : ℤ → Option ℕ → (ℕ → Bool) → Connected
sock_connect socket address connects =
    let target : ℕ = elim address [ none ↦ 0 | some a ↦ a ] in
    if socket ==ℤ minus_one
    then record { result = minus_one; address = none; open_fds = [] }
    else if connects target
    then record { result = socket; address = some target; open_fds = socket ∷ [] }
    else record { result = minus_one; address = some target; open_fds = socket ∷ [] }

-- The branch of main for sockets with -k, on the descriptor of sock_connect: what is sent.
unfoldable pub kill_branch : ℤ → Packet → Read → List Sent
unfolding sock_init sock_kill
kill_branch fd local answer =
    let joined = sock_init fd local answer in
    if joined.result ==ℤ minus_one then joined.sent else joined.sent ++ sock_kill fd local

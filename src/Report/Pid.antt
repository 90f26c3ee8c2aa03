-- ===== src/Report/Pid.antt =====
-- report.c, load_pid_file, pipe_init and pipe_kill: how the report finds manage in pipe mode.
pub mod Stale
use perfnum.Prelude.{
  ℕ, ℤ, minus_one, ◌==ℤ◌, Bool, true, false, not, Option, none, some, List, [], ◌∷◌, ◌++◌, take,
  drop, length, if◌then◌else◌,
}
use perfnum.Decimal.{atoi}

-- Size of pid_str, SPIDSTR.
abbrev pub spidstr : ℕ
spidstr = 11

-- What read() of the file does, and what pid_str and the memory behind it hold at first.
pub record Memory : Type 0 where
  pub reads : Bool
  pub pid_str : List ℕ
  pub behind : List ℕ

-- pid_str after the read.
abbrev pub filled : Memory → List ℕ → List ℕ
filled m bytes = take spidstr bytes ++ drop (length (take spidstr bytes)) m.pid_str

-- load_pid_file, where `none` is a file that cannot be opened, on texts whose number an int holds: what
-- atoi() makes of a larger one is not defined.
unfoldable pub load_pid_file : Memory → Option (List ℕ) → ℤ
load_pid_file m none = minus_one
load_pid_file m (some bytes) = if not m.reads then minus_one else atoi (filled m bytes ++ m.behind)

-- pipe_init: the return value, and *manage. `fifo` is what open() returns.
unfoldable pub pipe_init : Memory → Option (List ℕ) → ℤ → ℤ × ℤ
unfolding load_pid_file
pipe_init m file fifo =
    let manage = load_pid_file m file in
    if manage ==ℤ minus_one
    then (minus_one, manage)
    else if fifo ==ℤ minus_one
    then (minus_one, manage)
    else (fifo, manage)

-- pipe_kill: the return value, and the processes that SIGQUIT was sent to.
unfoldable pub pipe_kill : Memory → Option (List ℕ) → (ℤ → Bool) → Bool × List ℤ
unfolding load_pid_file
pipe_kill m file kills =
    let manage = load_pid_file m file in
    if manage ==ℤ minus_one then (false, []) else (kills manage, manage ∷ [])

-- ===== src/Manage/Files.antt =====
-- manage.c, pipe_init and the end of pipe_cleanup: the pid file and the fifo, and the branch of main
-- for pipe mode.
use perfnum.Prelude.{
  ℕ, ℤ, minus_one, ◌==ℤ◌, Bool, true, false, not, ◌||◌, Option, none, some, List, [], if◌then◌else◌,
}
use perfnum.Decimal.{snprintf}
use perfnum.Manage.Spawn.{child_spawn}
use perfnum.Manage.Pipe.{PipeRes, collect_computes}

-- The pid file's bytes and whether the fifo exists.
pub record Files : Type 0 where
  pub pid_file : Option (List ℕ)
  pub fifo : Bool

-- Which calls of pipe_init succeed. mkfifo fails in any case if the fifo exists.
pub record Calls : Type 0 where
  pub spawn : Bool  -- spawn_computes does not return -1
  pub open_pid : Bool
  pub write_pid : Bool
  pub make_fifo : Bool
  pub open_fifo : ℤ  -- the descriptor, or -1

-- pipe_init behind the reading of its arguments, in process `pid`: the return value, and the files.
unfoldable pub pipe_init : Calls → ℤ → Files → Bool × Files
pipe_init calls pid files =
    if not calls.spawn
    then (false, files)
    else if not calls.open_pid
    then (false, files)
    else if not calls.write_pid
    then (false, record files { pid_file = some [] })
    else if not calls.make_fifo || files.fifo
    then (false, record files { pid_file = some (snprintf 11 pid) })
    else if calls.open_fifo ==ℤ minus_one
    then (false, record { pid_file = some (snprintf 11 pid); fifo = false })
    else (true, record { pid_file = some (snprintf 11 pid); fifo = true })

-- The two unlink() of pipe_cleanup.
unfoldable pub unlink_files : Files → Files
unlink_files files = record { pid_file = none; fifo = false }

-- The branch of main on the result of pipe_init: the processes that are sent SIGQUIT if it has failed,
-- before main exits. `none` is that main goes on to pipe_report.
unfoldable pub after_init : Bool → PipeRes → Option (List ℤ)
unfolding collect_computes
after_init true res = none
after_init false res = some (collect_computes res).0

-- main in the child that is to become worker i, from fork() on: spawn_computes returns there if dup2()
-- or execl() fails, and pipe_init and main go on with what the child has in `res`. `none` is that
-- execl() has started the worker.
unfoldable pub child_main :
    (dup exec : Bool) → Calls → ℤ → Files → (ℕ → ℤ) → ℕ → PipeRes → Option (Option (List ℤ) × Files)
unfolding child_spawn pipe_init after_init
child_main dup exec calls pid files fork i res =
    elim (child_spawn dup exec fork i res.compute_pids) [
      | none ↦ none
      | some (result, pids) ↦
          let (ok, left) =
            pipe_init (record calls { spawn = not (result ==ℤ minus_one) }) pid files in
          some (after_init ok (record res { compute_pids = pids }), left)
    ]

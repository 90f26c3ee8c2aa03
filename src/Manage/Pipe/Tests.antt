-- ===== src/Manage/Pipe/Tests.antt =====
-- The theorems about the server in pipe mode, and the start of its workers, at concrete inputs.
use perfnum.Compute.Main
use perfnum.Compute.Main.{Choice}
use perfnum.Manage.Spawn.Child.{child_main-kills}
use perfnum.Manage.Spawn.Args.{spawn_argv, main-spawn_argv}
use perfnum.Manage.Files.{Calls, Files, child_main}
use perfnum.Prelude.{
  none, ℕ, suc, ◌≡◌, refl, ℤ, pos, minus_one, true, false, some, List, [], ◌∷◌, length, replicate,
  take, get_elem?, lt→ltb, arith,
}
use perfnum.Packet.{Packet, done, perf_num, zero_packet, Read, eof}
use perfnum.Compute.Pipe.{Worker}
use perfnum.Manage.Spawn.{Spawned, spawn_computes}
use perfnum.Manage.Spawn.Ranges.{Tiles, AllStart, spawn_partition}
use perfnum.Manage.Pipe.{PipeRes, Look, written, PipeServer, on_done, pipe_cleanup}
use perfnum.Manage.Pipe.Collect.{alive, without, cleanup-on_done}

-- Process ids 1, 2 and so on.
abbrev forks : ℕ → ℤ
forks i = pos (suc i)

forks-AllStart : AllStart forks
forks-AllStart j = lt→ltb 0 (suc j) (omega arith)

spawn_partition_example :
    (s : Spawned) × (spawn_computes 10 3 forks (replicate 10 minus_one) ≡ some s)
    × Tiles 0 s.ranges 10
    × (length s.ranges ≡ 3)
spawn_partition_example =
    spawn_partition 10 3 forks (replicate 10 minus_one) forks-AllStart (omega arith) (omega arith)

spawn_computes_runs :
    spawn_computes 10 3 forks (replicate 4 minus_one)
    ≡ some (record {
      pids = pos 1 ∷ pos 2 ∷ pos 3 ∷ minus_one ∷ [];
      ranges = (1, 4) ∷ (5, 7) ∷ (8, 10) ∷ [];
    })
unfolding spawn_computes
spawn_computes_runs = refl

abbrev worker : Worker
worker = record { pid = pos 7; caught = λ n. false; local = zero_packet }

abbrev six : Packet
six = record { id = perf_num; first = pos 6; second = pos 0 }

abbrev finished : Packet
finished = record { id = done; first = pos 41; second = pos 0 }

abbrev one_worker : PipeServer
one_worker = record {
  res = record {
    compute_pids = pos 41 ∷ minus_one ∷ [];
    perfnums = replicate 5 (pos 0);
    nperfnums = 0;
    nprocs = 1;
  };
  body_count = 0;
  done = false;
  sent = [];
}

abbrev look : Read → Look
look r = record { caught = false; read = r; reaped = true; send = written }

abbrev after_all : PipeServer
after_all = record {
  res = record {
    compute_pids = minus_one ∷ minus_one ∷ [];
    perfnums = pos 6 ∷ replicate 4 (pos 0);
    nperfnums = 1;
    nprocs = 1;
  };
  body_count = 1;
  done = true;
  sent = six ∷ [];
}

abbrev two_workers : PipeServer
two_workers = record one_worker {
  res = record (one_worker.res) { compute_pids = pos 41 ∷ pos 42 ∷ []; nprocs = 2 };
}

abbrev cleaned : Packet × List ℤ × PipeRes
cleaned = pipe_cleanup false (pos 9) zero_packet (on_done (look eof) finished two_workers).res

cleanup-on_done_example :
    (cleaned.0.id ≡ done)
    × (cleaned.1 ≡ without (pos 41) (alive (pos 41 ∷ pos 42 ∷ [])))
    × (take 2 cleaned.2.compute_pids ≡ replicate 2 minus_one)
cleanup-on_done_example =
    cleanup-on_done false (pos 9) zero_packet (look eof) finished two_workers refl (omega arith)

main-spawn_argv_example : Main.main (spawn_argv 4 7) ≡ Choice.pipe (pos 4) (pos 7)
main-spawn_argv_example = main-spawn_argv 4 7 (omega arith) (omega arith)

-- What the child that is to be worker 2 has from pipe_init.
abbrev child_res : PipeRes
child_res = record {
  compute_pids = replicate 3 minus_one;
  perfnums = [];
  nperfnums = 0;
  nprocs = 3;
}

abbrev calls : Calls
calls = record {
  spawn = true;
  open_pid = true;
  write_pid = true;
  make_fifo = true;
  open_fifo = pos 3;
}

abbrev no_files : Files
no_files = record { pid_file = none; fifo = false }

child_main-kills_example :
    (killed : List ℤ) × (child_main true false calls (pos 50) no_files forks 2 child_res
      ≡ some (some killed, no_files))
    × (get_elem? killed 1 ≡ some (pos 2))
child_main-kills_example =
    child_main-kills true false calls (pos 50) no_files forks 2 1 child_res forks-AllStart refl
      (omega arith) (omega arith) (omega arith)

-- ===== src/Report/Tests.antt =====
-- The theorems about the report at concrete inputs.
use perfnum.Manage.Sock.Results.{Session, registered, goes_on}
use perfnum.Manage.Sock.Trace.{handled}
use perfnum.Report
use perfnum.Report.Session.{packets_to, numbers_in, behind_last, Session-printed}
use perfnum.Decimal.{decimal, snprintf, is_digit}
use perfnum.Manage.Sock.Loop
use perfnum.Manage.Sock.Loop.{Round, Server, serve_client, sock_init}
use perfnum.Packet.{refuse, Sent, kill, notify, send_packet}
use perfnum.Manage.Sock
use perfnum.Manage.Sock.{SockRes, Reply, on_notify, sock_handle_packet}
use perfnum.Manage.Files
use perfnum.Manage.Files.{Calls, Files, unlink_files}
use perfnum.Report.Pid.{Memory, load_pid_file, pipe_kill}
use perfnum.Report.Pid.Stale.{int_max, load-other, load_pid_file-snprintf, pipe_kill-pipe_init}
use perfnum.Report.Main.{kill_branch}
use perfnum.Report.Main.Kill.{answer_to, kill_branch-notify}
use perfnum.Prelude.{
  ℕ, ◌≤◌, ◌≢◌, ◌⊎◌, ◌↔◌, none, some, arith, ◌≡◌, refl, pos, minus_one, true, false, List, [], ◌∷◌,
  ◌++◌, replicate,
}
use perfnum.Packet.{Packet, perf_num, done, whole, zero_packet, get_packet}
use perfnum.Shmem.{Process}
use perfnum.Shmem.Object.{unused}
use perfnum.Manage.Pipe
use perfnum.Manage.Pipe.{PipeServer, written}
use perfnum.Report.{Look, sock_report, sock_packet}
use perfnum.Report.Chain.{reading, printed}

abbrev six : Packet
six = record zero_packet { id = perf_num; first = pos 6 }

abbrev finished : Packet
finished = record zero_packet { id = done; first = pos 41 }

abbrev one_worker : PipeServer
one_worker = record {
  res = record {
    compute_pids = pos 41 ∷ [];
    perfnums = replicate 5 (pos 0);
    nperfnums = 0;
    nprocs = 1;
  };
  body_count = 0;
  done = false;
  sent = [];
}

abbrev after_all : PipeServer
after_all = record {
  res = record {
    compute_pids = minus_one ∷ [];
    perfnums = pos 6 ∷ replicate 4 (pos 0);
    nperfnums = 1;
    nprocs = 1;
  };
  body_count = 1;
  done = true;
  sent = six ∷ [];
}

abbrev look : Packet → Pipe.Look
look p = record { caught = false; read = whole p; reaped = true; send = written }

abbrev slots : List Process
slots = unused ∷ record { pid = pos 7; found = 1; tested = 30 } ∷ []

-- A buffer of zeros.
abbrev clean : Memory
clean = record { reads = true; pid_str = replicate 11 0; behind = [] }

clean_small : (k : ℕ) → load_pid_file clean (some (snprintf 11 (pos 41))) ≡ pos k → k ≤ int_max
unfolding decimal
clean_small k e = ground (arith, e, load-other clean 41 0 (omega arith) refl refl refl)

load_pid_file-snprintf_example :
    (load_pid_file clean (some (snprintf 11 (pos 41))) ≡ pos 41) ↔ (is_digit 0 ≡ false)
unfolding decimal
load_pid_file-snprintf_example =
    load_pid_file-snprintf clean 41 0 (omega arith) (omega arith) refl refl (λ k e. clean_small k e)

-- The fifo is there already.
abbrev calls : Calls
calls = record {
  spawn = true;
  open_pid = true;
  write_pid = true;
  make_fifo = true;
  open_fifo = pos 3;
}

abbrev files : Files
files = record { pid_file = none; fifo = true }

pipe_kill-pipe_init_example :
    let left = (Files.pipe_init calls (pos 41) files).1 in
    (pipe_kill clean left.pid_file (λ pid. true) ≡ (true, pos 41 ∷ []))
    × (pipe_kill clean (unlink_files left).pid_file (λ pid. true) ≡ (false, []))
unfolding decimal
pipe_kill-pipe_init_example =
    pipe_kill-pipe_init calls files clean 41 0 (λ pid. true) refl refl refl (omega arith)
      (omega arith) refl refl refl

abbrev server : SockRes
unfolding sock_init
server = sock_init 8 (pos 3) (pos 3000) (pos 0)

kill_branch-notify_example :
    (r : Reply) × (q : Packet) × (sock_handle_packet
        (pos 5)
        server
        (record zero_packet { id = notify })
        zero_packet
      ≡ some r)
    × (answer_to r.sent ≡ some q)
    × (((server.notify ≡ minus_one)
          × (kill_branch (pos 5) zero_packet (whole q)
              ≡ send_packet (pos 5) (record zero_packet { id = notify })
                ++ send_packet (pos 5) (record zero_packet { id = kill }))
          × ((v : Round) (i : ℕ) (s : Server) (rs : List Round)
              → v.reads i ≡ whole (record zero_packet { id = kill })
              → (u : Server) × (serve_client v i (pos 5) s ≡ some u)
                × (u.res ≡ s.res)
                × (Loop.sock_report rs u ≡ some (u, true))))
        ⊎ ((server.notify ≢ minus_one)
            × (r.res ≡ server)
            × (kill_branch (pos 5) zero_packet (whole q)
                ≡ send_packet (pos 5) (record zero_packet { id = notify }))))
kill_branch-notify_example = kill_branch-notify server (pos 5) zero_packet zero_packet refl

-- A server that has given out all its ranges, with two workers at descriptors 5 and 6.
abbrev ending : SockRes
unfolding sock_init
ending = record (sock_init 8 (pos 3) (pos 1000) (pos 0)) {
  clients = pos 4 ∷ pos 5 ∷ pos 6 ∷ replicate 5 minus_one;
  highest_assigned = 1000;
}

abbrev accepted_reply : Reply
unfolding on_notify
accepted_reply = on_notify (pos 4) ending zero_packet

abbrev refused_reply : Reply
refused_reply = record {
  res = record (accepted_reply.res) { done = true };
  sent =
      record { fd = pos 5; packet = record zero_packet { id = refuse } }
      ∷ record { fd = pos 4; packet = record zero_packet { id = done } }
      ∷ [];
  stop = false;
}

abbrev late_reply : Reply
late_reply = record {
  res = record (refused_reply.res) { perfnums = pos 6 ∷ replicate 4 (pos 0); nperfnums = 1 };
  sent = record { fd = pos 4; packet = six } ∷ [];
  stop = false;
}

-- The report registers, worker 5 is refused, and worker 6 finds 6 after that.
abbrev late_sent : List Sent
late_sent = (accepted_reply.sent ++ refused_reply.sent) ++ late_reply.sent

late : Session (pos 4) late_reply.res late_sent
unfolding sock_handle_packet ending
late =
    goes_on
      (goes_on
        (registered ending (record zero_packet { id = notify }) zero_packet accepted_reply refl refl
          refl)
        (handled 1 (pos 5) (record zero_packet { id = done }) zero_packet refused_reply (refl, refl)
          refl)
        refl refl)
      (handled 2 (pos 6) six zero_packet late_reply (refl, refl) refl) refl refl

Session-printed_example :
    (first : Packet) × (rest : List Packet) × (packets_to (pos 4) late_sent ≡ first ∷ rest)
    × ((Report.sock_init (pos 4) zero_packet (whole first)).result ≡ pos 4)
    × (printed (sock_report (reading rest)).lines ++ numbers_in (behind_last rest)
        ≡ Sock.found late_reply.res)
Session-printed_example = Session-printed zero_packet refl late

-- The report has stopped before 6 comes.
late_unprinted :
    printed (sock_report (reading (record zero_packet { id = done } ∷ six ∷ []))).lines ≡ []
unfolding sock_report get_packet
late_unprinted = refl

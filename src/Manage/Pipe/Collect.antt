-- ===== src/Manage/Pipe/Collect.antt =====
-- Which processes the server in pipe mode kills at its end.
use perfnum.Prelude.{
  ℕ, zero, suc, ◌≤◌, ◌≡◌, refl, ap, ℤ, minus_one, ◌==ℤ◌, ==ℤ_iff, Bool, true, List, [], ◌∷◌, length,
  take, replicate, if◌then◌else◌, arith,
}
use perfnum.Packet.{Packet, closed, done}
use perfnum.Manage.Pipe.{Look, PipeServer, mark_exited, on_done, kill_rest, pipe_cleanup}

-- The processes that have not exited, in order.
abbrev pub alive : List ℤ → List ℤ
alive [] = []
alive (p ∷ ps) = if p ==ℤ minus_one then alive ps else p ∷ alive ps

-- The list without a value.
abbrev pub without : ℤ → List ℤ → List ℤ
without v [] = []
without v (p ∷ ps) = if p ==ℤ v then without v ps else p ∷ without v ps

mark_exited-alive :
    (pid : ℤ) (n : ℕ) (pids : List ℤ)
    → alive (take n (mark_exited pid n pids)) ≡ without pid (alive (take n pids))
unfolding mark_exited
mark_exited-alive pid zero pids = refl
mark_exited-alive pid (suc n) [] = refl
mark_exited-alive pid (suc n) (p ∷ ps) =
    ground (arith, mark_exited-alive pid n ps, ==ℤ_iff p pid, ==ℤ_iff p minus_one)

length-mark_exited :
    (pid : ℤ) (n : ℕ) (pids : List ℤ) → length (mark_exited pid n pids) ≡ length pids
unfolding mark_exited
length-mark_exited pid zero pids = refl
length-mark_exited pid (suc n) [] = refl
length-mark_exited pid (suc n) (p ∷ ps) = ap suc (length-mark_exited pid n ps)

kill_rest-eq :
    (n : ℕ) (pids : List ℤ)
    → n ≤ length pids
    → ((kill_rest n pids).0 ≡ alive (take n pids))
      × (take n (kill_rest n pids).1 ≡ replicate n minus_one)
unfolding kill_rest
kill_rest-eq zero pids h = (refl, refl)
kill_rest-eq (suc n) [] h = absurd (omega arith)
kill_rest-eq (suc n) (p ∷ ps) h = ground (arith, kill_rest-eq n ps, ==ℤ_iff p minus_one)

-- A worker that has been collected is taken off the list of those that the clean-up kills, and the
-- others stay on it: after a done packet whose process was waited for, pipe_cleanup kills exactly
-- the other workers that had not exited before, in order, marks all ids as unused, and tells the
-- report of the end by a done packet, or by a closed packet if a signal was caught.
pub cleanup-on_done :
    (caught : Bool) (pid : ℤ) (local : Packet) (l : Look) (p : Packet) (s : PipeServer)
    → l.reaped ≡ true
    → s.res.nprocs ≤ length s.res.compute_pids
    → ((pipe_cleanup caught pid local (on_done l p s).res).0.id ≡ (if caught then closed else done))
      × ((pipe_cleanup caught pid local (on_done l p s).res).1
          ≡ without p.first (alive (take s.res.nprocs s.res.compute_pids)))
      × (take s.res.nprocs (pipe_cleanup caught pid local (on_done l p s).res).2.compute_pids
          ≡ replicate s.res.nprocs minus_one)
unfolding pipe_cleanup on_done
cleanup-on_done caught pid local l p s reaped room = ground (
  arith,
  kill_rest-eq s.res.nprocs (mark_exited p.first s.res.nprocs s.res.compute_pids),
  mark_exited-alive p.first s.res.nprocs s.res.compute_pids,
  length-mark_exited p.first s.res.nprocs s.res.compute_pids,
)

-- ===== src/Manage/Spawn/Child.antt =====
-- What a child does that cannot become a worker: spawn_computes returns -1 in it, pipe_init fails, and
-- main goes on to collect_computes.
use native.Mathlib.Decide.{ℕ_discrete}
use perfnum.Prelude.{
  Bool, ◌&&◌, ℕ, zero, suc, ◌≤◌, ◌<◌, ◌≡◌, refl, ℤ, minus_one, ◌==ℤ◌, false, some, List, [], ◌∷◌,
  length, get_elem?, length-set, get_elem?-set_self, get_elem?-set_ne, ◌∙◌, arith,
}
use perfnum.Manage.Spawn.{child_pids, child_spawn}
use perfnum.Manage.Spawn.Ranges.{AllStart}
use perfnum.Manage.Pipe.{PipeRes, kill_rest, collect_computes}
use perfnum.Manage.Files.{Calls, Files, pipe_init, after_init, child_main}

length-child_pids :
    (fork : ℕ → ℤ) (i : ℕ) (pids : List ℤ) → length (child_pids fork i pids) ≡ length pids
unfolding child_pids
length-child_pids fork zero pids = refl
length-child_pids fork (suc i) pids =
    length-set (child_pids fork i pids) i (fork i) ∙ length-child_pids fork i pids

get_elem?-child_pids :
    (fork : ℕ → ℤ) (i j : ℕ) (pids : List ℤ)
    → j < i
    → i ≤ length pids
    → get_elem? (child_pids fork i pids) j ≡ some (fork j)
unfolding child_pids
get_elem?-child_pids fork zero j pids lt le = absurd (omega arith)
get_elem?-child_pids fork (suc i) j pids lt le = elim (ℕ_discrete i j) [
  | yes same ↦ rw same (
      get_elem?-set_self (child_pids fork j pids) j (fork j)
        (omega (arith, length-child_pids fork j pids)))
  | no before ↦
      get_elem?-set_ne (child_pids fork i pids) i j (fork i) before
      ∙ get_elem?-child_pids fork i j pids (omega arith) (omega arith)
]

-- The ids in front of the first -1 are all killed, in their places.
kill_rest-front :
    (n j : ℕ) (pids : List ℤ) (p : ℤ)
    → j < n
    → ((k : ℕ) → k ≤ j → (q : ℤ) × (get_elem? pids k ≡ some q) × ((q ==ℤ minus_one) ≡ false))
    → get_elem? pids j ≡ some p
    → get_elem? (kill_rest n pids).0 j ≡ some p
unfolding kill_rest
kill_rest-front zero j pids p lt used e = absurd (omega arith)
kill_rest-front (suc n) j [] p lt used e = cc
kill_rest-front (suc n) zero (x ∷ xs) p lt used e =
    let (q, here, not_free) = used 0 (omega arith) in ground arith
kill_rest-front (suc n) (suc j) (x ∷ xs) p lt used e =
    let (q, here, not_free) = used 0 (omega arith) in
    let later = kill_rest-front n j xs p (omega arith) (λ k le. used (suc k) (omega arith)) e in
    ground arith

-- If every fork() before it succeeded, and dup2() or execl() fails in the child that was to be worker i,
-- then main there leaves the files as they are and sends SIGQUIT to every worker that was started
-- before it.
pub child_main-kills :
    (dup exec : Bool) (calls : Calls) (pid : ℤ) (files : Files) (fork : ℕ → ℤ) (i j : ℕ)
    (res : PipeRes)
    → AllStart fork
    → dup && exec ≡ false
    → j < i
    → i ≤ length res.compute_pids
    → i ≤ res.nprocs
    → (killed : List ℤ) × (child_main dup exec calls pid files fork i res
        ≡ some (some killed, files))
      × (get_elem? killed j ≡ some (fork j))
unfolding child_main child_spawn pipe_init after_init collect_computes
child_main-kills dup exec calls pid files fork i j res parent fails lt le few = (
  (kill_rest res.nprocs (child_pids fork i res.compute_pids)).0,
  ground (arith, fails),
  kill_rest-front res.nprocs j (child_pids fork i res.compute_pids) (fork j) (omega arith)
      (λ k below. (
        fork k,
        get_elem?-child_pids fork i k res.compute_pids (omega arith) le,
        ground (arith, parent k),
      ))
      (get_elem?-child_pids fork i j res.compute_pids lt le),
)

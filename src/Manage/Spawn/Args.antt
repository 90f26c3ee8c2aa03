-- ===== src/Manage/Spawn/Args.antt =====
-- The command line that spawn_computes gives a worker, and what main of compute.c makes of it.
use perfnum.Prelude.{ℕ, ◌≡◌, ◌<◌, refl, pos, List, [], ◌∷◌}
use perfnum.Decimal.{snprintf}
use perfnum.Decimal.Laws.{ten, atoi-snprintf}
use perfnum.Compute.Main
use perfnum.Compute.Main.{Choice}

-- COMPUTE_CMD "./compute", "p", start_str and end_str.
unfoldable pub spawn_argv : ℕ → ℕ → List (List ℕ)
spawn_argv start stop =
    (b'.' ∷ b'/' ∷ b'c' ∷ b'o' ∷ b'm' ∷ b'p' ∷ b'u' ∷ b't' ∷ b'e' ∷ [])
    ∷ (b'p' ∷ [])
    ∷ snprintf 11 (pos start)
    ∷ snprintf 11 (pos stop)
    ∷ []

-- A worker that manage starts on a range of numbers of at most ten digits runs pipe_loop on exactly
-- that range: the numbers fit into the buffers and come back from the text.
pub main-spawn_argv :
    (start stop : ℕ)
    → start < ten 10
    → stop < ten 10
    → Main.main (spawn_argv start stop) ≡ Choice.pipe (pos start) (pos stop)
unfolding Main.main spawn_argv
main-spawn_argv start stop hs he = rw (atoi-snprintf start hs, atoi-snprintf stop he) refl

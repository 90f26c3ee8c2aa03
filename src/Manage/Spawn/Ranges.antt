-- ===== src/Manage/Spawn/Ranges.antt =====
-- What the workers of pipe mode are to test.
use native.Mathlib.Nat.{div-add-mod}
use perfnum.Prelude.{
  ℕ, zero, suc, ◌+◌, ◌-◌, ◌*◌, ◌/◌, ◌%◌, ◌≤◌, ◌<◌, ◌≡◌, refl, sym, ◌∙◌, ap, subst, ℤ, pos, ltb_int,
  true, none, some, some_inj, List, [], ◌∷◌, length, set, get_elem?, length-set, arith,
}
use perfnum.Compute.Pipe.{Worker, pipe_loop}
use perfnum.Compute.Pipe.Signals.{pipe_loop-aborts}
use perfnum.Manage.Spawn.{numbers_per_proc, range_end, Spawned, spawn_loop, spawn_computes}

-- The ranges follow on one another, from the number after `lo` to `hi`.
abbrev pub Tiles : ℕ → List (ℕ × ℕ) → ℕ → Type 0
Tiles lo [] hi = lo ≡ hi
Tiles lo ((a, b) ∷ rs) hi = (a ≡ lo + 1) × (lo ≤ b) × Tiles b rs hi

-- Every fork() succeeds.
abbrev pub AllStart : (ℕ → ℤ) → Type 0
AllStart fork = (j : ℕ) → ltb_int (pos 0) (fork j) ≡ true

spawn_loop-suc :
    (limit nprocs : ℕ) (fork : ℕ → ℤ) (rounds i last : ℕ) (pids : List ℤ)
    → ltb_int (pos 0) (fork i) ≡ true
    → i < length pids
    → (rest : Spawned)
    → spawn_loop limit nprocs fork rounds
        (suc i)
        (range_end limit nprocs i (last + 1))
        (set pids i (fork i))
      ≡ some rest
    → spawn_loop limit nprocs fork (suc rounds) i last pids
      ≡ some
          (record rest { ranges = (last + 1, range_end limit nprocs i (last + 1)) ∷ rest.ranges })
unfolding spawn_loop
spawn_loop-suc limit nprocs fork rounds i last pids parent room rest e = ground arith

module _ (limit nprocs : ℕ) (fork : ℕ → ℤ) (parent : AllStart fork) where
  -- Ranges of numbers_per_proc numbers each, after the first one.
  abbrev Equal : List (ℕ × ℕ) → Type 0
  Equal [] = Unit
  Equal ((a, b) ∷ rs) = (b ≡ a + numbers_per_proc limit nprocs - 1) × Equal rs

  Equal-at :
      (rs : List (ℕ × ℕ)) (i a b : ℕ)
      → Equal rs
      → get_elem? rs i ≡ some (a, b)
      → b ≡ a + numbers_per_proc limit nprocs - 1
  Equal-at [] i a b q e = cc
  Equal-at ((c, d) ∷ rs) zero a b q e = ground arith
  Equal-at ((c, d) ∷ rs) (suc i) a b q e = Equal-at rs i a b q.1 e

  -- The workers behind the first: each gets numbers_per_proc numbers.
  spawn_loop-Tiles :
      (rounds i last : ℕ) (pids : List ℤ)
      → 0 < i
      → i + rounds ≤ length pids
      → (s : Spawned) × (spawn_loop limit nprocs fork rounds i last pids ≡ some s)
        × Tiles last s.ranges (last + rounds * numbers_per_proc limit nprocs)
        × (length s.ranges ≡ rounds)
        × Equal s.ranges
  unfolding spawn_loop
  spawn_loop-Tiles zero i last pids h room =
      (record { pids = pids; ranges = [] }, refl, omega arith, refl, tt)
  spawn_loop-Tiles (suc rounds) i last pids h room =
      let stop = range_end limit nprocs i (last + 1) in
      let at_stop : stop ≡ last + numbers_per_proc limit nprocs = ground arith in
      let (s, e, tiles, count, equal) =
        spawn_loop-Tiles rounds (suc i) stop (set pids i (fork i)) (omega arith)
          (omega (arith, length-set pids i (fork i))) in
      (
        record s { ranges = (last + 1, stop) ∷ s.ranges },
        spawn_loop-suc limit nprocs fork rounds i last pids (parent i) (omega arith) s e,
        (refl, omega arith, subst (Tiles stop s.ranges) (omega arith) tiles),
        ap suc count,
        (ground arith, equal),
      )

  spawn_computes-cases :
      (r : ℕ) (pids : List ℤ)
      → nprocs ≡ suc r
      → nprocs ≤ length pids
      → (s : Spawned) × (rs : List (ℕ × ℕ)) × (spawn_computes limit nprocs fork pids ≡ some s)
        × (s.ranges ≡ (1, limit / nprocs + limit % nprocs) ∷ rs)
        × Tiles 0 s.ranges limit
        × (length s.ranges ≡ nprocs)
        × Equal rs
  unfolding spawn_computes
  spawn_computes-cases r pids e room =
      let stop = limit / nprocs + limit % nprocs in
      let (s, ran, tiles, count, equal) =
        spawn_loop-Tiles r 1 stop (set pids 0 (fork 0)) (omega arith)
          (omega (arith, length-set pids 0 (fork 0))) in
      (
        record s { ranges = (1, stop) ∷ s.ranges },
        s.ranges,
        subst
            (λ n.
              spawn_loop limit nprocs fork n 0 0 pids
              ≡ some (record s { ranges = (1, stop) ∷ s.ranges }))
            (sym e) (spawn_loop-suc limit nprocs fork r 0 0 pids (parent 0) (omega arith) s ran),
        refl,
        (
          refl,
          omega arith,
          subst (Tiles stop s.ranges)
              (omega (arith, div-add-mod limit nprocs, ap (λ (t : ℕ). t * (limit / nprocs)) e))
              tiles,
        ),
        omega arith,
        equal,
      )

-- If every fork() succeeds, there is a process to start, and the array of ids has room for all,
-- spawn_computes starts nprocs workers, whose ranges follow on one another and make up the numbers
-- from 1 to the limit.
pub spawn_partition :
    (limit nprocs : ℕ) (fork : ℕ → ℤ) (pids : List ℤ)
    → AllStart fork
    → 0 < nprocs
    → nprocs ≤ length pids
    → (s : Spawned) × (spawn_computes limit nprocs fork pids ≡ some s)
      × Tiles 0 s.ranges limit
      × (length s.ranges ≡ nprocs)
spawn_partition limit nprocs fork pids parent some_procs room =
    let (s, rs, e, shape, tiles, count, equal) =
      spawn_computes-cases limit nprocs fork parent (nprocs - 1) pids (omega arith) room in
    (s, e, tiles, count)

spawn_loop-overflows :
    (limit nprocs : ℕ) (fork : ℕ → ℤ) (rounds i last : ℕ) (pids : List ℤ)
    → AllStart fork
    → i ≤ length pids
    → length pids < i + rounds
    → spawn_loop limit nprocs fork rounds i last pids ≡ none
unfolding spawn_loop
spawn_loop-overflows limit nprocs fork zero i last pids parent lo hi = absurd (omega arith)
spawn_loop-overflows limit nprocs fork (suc rounds) i last pids parent lo hi = ground (
  arith,
  parent i,
  length-set pids i (fork i),
  spawn_loop-overflows limit nprocs fork rounds (suc i) (range_end limit nprocs i (last + 1))
      (set pids i (fork i)) parent,
)

-- The array from malloc has room for `limit` ids and not for nprocs: with more processes than
-- numbers spawn_computes writes past its end.
spawn_overflows :
    (limit nprocs : ℕ) (fork : ℕ → ℤ) (pids : List ℤ)
    → AllStart fork
    → length pids ≡ limit
    → limit < nprocs
    → spawn_computes limit nprocs fork pids ≡ none
unfolding spawn_computes
spawn_overflows limit nprocs fork pids parent size more =
    spawn_loop-overflows limit nprocs fork nprocs 0 0 pids parent (omega arith) (omega arith)

-- With fewer than twice as many numbers as processes, each worker but the first is started on a
-- range that pipe_loop of compute.c refuses by an assertion.
spawn_short :
    (limit nprocs : ℕ) (fork : ℕ → ℤ) (pids : List ℤ) (s : Spawned) (w : Worker) (i a b : ℕ)
    → AllStart fork
    → 0 < nprocs
    → nprocs ≤ length pids
    → limit / nprocs ≤ 1
    → spawn_computes limit nprocs fork pids ≡ some s
    → get_elem? s.ranges (suc i) ≡ some (a, b)
    → pipe_loop w (pos a) (pos b) ≡ none
spawn_short limit nprocs fork pids s w i a b parent some_procs room short ran h =
    let (t, rs, e, shape, tiles, count, equal) =
      spawn_computes-cases limit nprocs fork parent (nprocs - 1) pids (omega arith) room in
    let same : s ≡ t = some_inj (sym ran ∙ e) in
    pipe_loop-aborts w a b
      (omega (arith, Equal-at limit nprocs fork parent rs i a b equal (rw (same, shape) at h)))

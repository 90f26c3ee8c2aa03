-- ===== src/Shmem/Shutdown.antt =====
-- The end of shared memory mode: shmem_kill of report.c, and the wait of main and shmem_cleanup of
-- manage.c.
use perfnum.Prelude.{
  ℕ, suc, ◌≤◌, ◌≡◌, ◌↔◌, ◌⊎◌, refl, ℤ, Bool, true, false, Option, none, some, List, [], ◌∷◌,
  if◌then◌else◌, inl, inr, arith,
}
use perfnum.Shmem.{Process}
use perfnum.Shmem.Object.{Object, kill_processes}
use perfnum.Shmem.Object.Agree.{used_pids, failing, kill_processes-used}

-- report: the return value, and the processes that SIGQUIT was sent to.
unfoldable pub shmem_kill : (ℤ → Bool) → Object → Bool × List ℤ
shmem_kill kills o = (kills o.manage, o.manage ∷ [])

-- What a call of sem_destroy does.
pub data Tried : Type 0 where
  destroyed : Tried
  invalid : Tried  -- EINVAL
  blocked : Tried

-- while (sem_destroy(sem) == -1), over what the calls do: the calls left behind the loop, or `none`
-- if the loop still runs.
unfoldable pub destroy : List Tried → Option (List Tried)
destroy [] = none
destroy (blocked ∷ ts) = destroy ts
destroy (_ ∷ ts) = some ts

-- The processes that are sent SIGQUIT, the list afterwards, and whether shm_unlink is reached.
pub record Cleaned : Type 0 where
  pub signalled : List ℤ
  pub processes : List Process
  pub unlinked : Bool

unfoldable pub shmem_cleanup : (ℤ → Bool) → List Process → List Tried → Cleaned
unfolding kill_processes destroy
shmem_cleanup kills ps ts = record {
  signalled = (kill_processes kills ps).0;
  processes = (kill_processes kills ps).1;
  unlinked = elim (destroy ts) [
    | none ↦ false
    | some rest ↦ elim (destroy rest) [ none ↦ false | some end ↦ true ]
  ];
}

-- The branch of main behind shmem_init, over the looks at exit_status: `none` if it still waits.
unfoldable pub wait_and_clean : (ℤ → Bool) → List Bool → List Process → List Tried → Option Cleaned
unfolding shmem_cleanup
wait_and_clean kills [] ps ts = none
wait_and_clean kills (caught ∷ looks) ps ts =
    let rest = wait_and_clean kills looks ps ts in
    if caught then some (shmem_cleanup kills ps ts) else rest

-- How many of the calls end a loop.
abbrev pub ended : List Tried → ℕ
ended [] = 0
ended (blocked ∷ ts) = ended ts
ended (_ ∷ ts) = suc (ended ts)

abbrev pub any_caught : List Bool → Bool
any_caught [] = false
any_caught (caught ∷ looks) = if caught then true else any_caught looks

destroy-ended :
    (ts : List Tried)
    → ((ended ts ≡ 0) × (destroy ts ≡ none))
      ⊎ ((rest : List Tried) × (destroy ts ≡ some rest) × (ended ts ≡ suc (ended rest)))
unfolding destroy
destroy-ended [] = inl (refl, refl)
destroy-ended (blocked ∷ ts) = destroy-ended ts
destroy-ended (destroyed ∷ ts) = inr (ts, refl, refl)
destroy-ended (invalid ∷ ts) = inr (ts, refl, refl)

unlinked-ended :
    (kills : ℤ → Bool) (ps : List Process) (ts : List Tried)
    → ((shmem_cleanup kills ps ts).unlinked ≡ true) ↔ (2 ≤ ended ts)
unfolding shmem_cleanup
unlinked-ended kills ps ts = elim (destroy-ended ts) [
  | inl (no_end, e) ↦ (λ u. absurd (ground arith), λ two. absurd (omega (arith, two, no_end)))
  | inr (rest, e, one) ↦ elim (destroy-ended rest) [
    | inl (no_end, e') ↦
        (λ u. absurd (ground arith), λ two. absurd (omega (arith, two, no_end, one)))
    | inr (end, e', two) ↦ (λ u. omega (arith, one, two), λ le. ground arith)
  ]
]

-- When manage has seen a signal it sends SIGQUIT to exactly the workers in used slots, in order; the
-- slots in use afterwards are those of the workers that could not be sent it; and it reaches the
-- unlink of the object exactly if, of its given calls of sem_destroy, two are not turned away as
-- blocked. As long as it has seen no signal it does nothing.
pub wait_and_clean-signalled :
    (kills : ℤ → Bool) (looks : List Bool) (ps : List Process) (ts : List Tried)
    → ((any_caught looks ≡ false) × (wait_and_clean kills looks ps ts ≡ none))
      ⊎ ((any_caught looks ≡ true)
          × ((c : Cleaned) × (wait_and_clean kills looks ps ts ≡ some c)
              × (c.signalled ≡ used_pids ps)
              × (used_pids c.processes ≡ failing kills (used_pids ps))
              × ((c.unlinked ≡ true) ↔ (2 ≤ ended ts))))
unfolding wait_and_clean
wait_and_clean-signalled kills [] ps ts = inl (refl, refl)
wait_and_clean-signalled kills (false ∷ looks) ps ts = wait_and_clean-signalled kills looks ps ts
wait_and_clean-signalled kills (true ∷ looks) ps ts =
    let (sent, after) = kill_processes-used kills ps in
    inr (refl, (shmem_cleanup kills ps ts, refl, sent, after, unlinked-ended kills ps ts))

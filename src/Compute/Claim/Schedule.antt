-- ===== src/Compute/Claim/Schedule.antt =====
-- Reachable states by evaluation: the workers move in a given order, without failures of the
-- semaphore.
use mathlib.Core.Logic.{dite}
use native.Mathlib.Decide.{dec_lt, ℕ_discrete}
use perfnum.Prelude.{
  ℕ, zero, suc, ◌+◌, ◌*◌, ◌/◌, ◌≡◌, refl, Bool, true, false, Option, none, some, List, [], ◌∷◌,
  length, get_elem?, pos, arith,
}
use perfnum.Shmem.{area_bit}
use perfnum.Compute.Claim.{
  Pc, scanning, waiting, checking, claiming, posting, skipping, returned, exhausted, failed,
  unposted, Memory, Move, see_clear, see_set, at_end, lock, interrupted, still_clear, taken, claim,
  post, post_skip, again, System, pick, Reach, later,
}

abbrev pub Next : ℕ → Memory → Pc → Type 0
Next w m p = (m' : Memory) × (p' : Pc) × Move w m p m' p'

wait_move : (w : ℕ) (m : Memory) (k : ℕ) (b : Bool) → m.free ≡ b → Next w m (waiting k)
wait_move w m k true e = (_, _, lock e)
wait_move w m k false e = (_, _, interrupted)

check_move :
    (w : ℕ) (m : Memory) (k : ℕ) (o : Option ℕ)
    → get_elem? m.area (k / 8) ≡ o
    → Option (Next w m (checking k))
check_move w m k none e = none
check_move w m k (some byte) e =
    dite (ℕ_discrete (area_bit m.area k) 0) (λ clear. some (_, _, still_clear clear e))
      (λ set_now. some (_, _, taken set_now))

unfoldable pub next_move : (w : ℕ) (m : Memory) (p : Pc) → Option (Next w m p)
unfolding wait_move check_move dec_lt ℕ_discrete
next_move w m (scanning k) =
    dite (dec_lt k (8 * length m.area))
      (λ lt.
        dite (ℕ_discrete (area_bit m.area k) 0) (λ clear. some (_, _, see_clear lt clear))
          (λ set_now. some (_, _, see_set lt set_now)))
      (λ past. some (_, _, at_end (omega arith)))
next_move w m (waiting k) = some (wait_move w m k m.free refl)
next_move w m (checking k) = check_move w m k (get_elem? m.area (k / 8)) refl
next_move w m (claiming k byte) = some (_, _, claim)
next_move w m (posting k) = some (_, _, post)
next_move w m (skipping k) = some (_, _, post_skip)
next_move w m (returned k) = some (_, _, again {v = pos (k + 1)} refl (λ e. cc))
next_move w m exhausted = none
next_move w m failed = none
next_move w m unposted = none

pub record Ran (size : ℕ) : Type 0 where
  pub last : System
  pub reach : Reach size last

turn : {size : ℕ} → Ran size → ℕ → Ran size
unfolding next_move dec_lt ℕ_discrete
turn r w = elim (next_move w r.last.mem (r.last.pc w)) [
  | none ↦ r
  | some (m, p, mv) ↦ record { last = _; reach = later r.reach (pick w mv) }
]

-- Worker `w` moves n times.
turns : {size : ℕ} → Ran size → ℕ → ℕ → Ran size
turns r w zero = r
turns r w (suc n) = turns (turn r w) w n

-- The workers move in order, each as often as its entry says.
unfoldable pub run : {size : ℕ} → Ran size → List (ℕ × ℕ) → Ran size
unfolding turn turns
run r [] = r
run r ((w, n) ∷ plan) = run (turns r w n) plan

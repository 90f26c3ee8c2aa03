-- ===== src/Compute/Slots/Tests.antt =====
-- The theorems about the slots at concrete runs of two workers.
use perfnum.Prelude.{ℕ, suc, ◌≡◌, refl, ℤ, pos, true, false, List, [], ◌∷◌, arith}
use perfnum.Shmem.{Process}
use perfnum.Shmem.Object.{kill_processes, unused}
use perfnum.Compute.Slots
use perfnum.Compute.Slots.{
  Pc, looking, taking, running, System, Move, in_use, take, note_tested, Step, pick, Calm, Reach,
  start, later,
}
use perfnum.Compute.Slots.Safety.{Holds, listed, slots_apart}
use perfnum.Compute.Slots.Race.{taken, slots_raced}

abbrev pids : ℕ → ℤ
pids w = pos (suc w)

pids_apart : (t u : ℕ) → pids t ≡ pids u → t ≡ u
pids_apart t u e = ground arith

abbrev two_slots : List Process
two_slots = unused ∷ unused ∷ []

record Reached : Type 0 where
  last : System
  reach : Reach pids two_slots last

abbrev then_step : (r : Reached) {s : System} → Step pids r.last s → Calm s → Reached
then_step r st calm = record { last = _; reach = later r.reach st calm }

-- Worker 0 takes slot 0 and worker 1 slot 1, with their places after each step.
abbrev seen : ℕ → Pc
seen = Slots.update (λ w. looking 0) 0 (taking 0)

abbrev took : ℕ → Pc
took = Slots.update seen 0 (running 0)

abbrev passed : ℕ → Pc
passed = Slots.update took 1 (looking 1)

abbrev seen_too : ℕ → Pc
seen_too = Slots.update passed 1 (taking 1)

abbrev took_too : ℕ → Pc
took_too = Slots.update seen_too 1 (running 1)

abbrev CalmAt : (ℕ → Pc) → Type 0
CalmAt f = (v w i : ℕ) → f v ≡ taking i → f w ≡ taking i → v ≡ w

calm_seen : CalmAt seen
calm_seen v w i a b = ground arith

calm_took : CalmAt took
calm_took v w i a b = ground arith

calm_passed : CalmAt passed
calm_passed v w i a b = ground arith

calm_seen_too : CalmAt seen_too
calm_seen_too v w i a b = ground arith

calm_took_too : CalmAt took_too
calm_took_too v w i a b = ground arith

abbrev both_run : Reached
both_run =
    let one =
      then_step (record { last = _; reach = start }) (pick 0 (Slots.unused refl refl)) calm_seen in
    let two = then_step one (pick 0 take) calm_took in
    let three = then_step two (pick 1 (in_use refl (λ e. cc))) calm_passed in
    let four = then_step three (pick 1 (Slots.unused refl refl)) calm_seen_too in
    then_step four (pick 1 take) calm_took_too

slots_apart_example :
    Holds both_run.last.processes 0 (pos 1)
    × (listed (pos 1) (kill_processes (λ x. true) both_run.last.processes).0 ≡ true)
    × ((w : ℕ) → both_run.last.pc w ≡ running 0 → w ≡ 0)
slots_apart_example = slots_apart pids (λ x. true) 0 0 (λ u e. cc) pids_apart both_run.reach refl

-- Both have seen slot 0.
abbrev hurried : System
hurried = record { processes = two_slots; pc = λ w. taking 0 }

slots_raced_example :
    let t = taken pids 1 0 (taken pids 0 0 hurried) in
    Step pids hurried (taken pids 0 0 hurried)
    × Step pids (taken pids 0 0 hurried) t
    × (t.pc 0 ≡ running 0)
    × (t.pc 1 ≡ running 0)
    × (listed (pos 1) (kill_processes (λ x. true) t.processes).0 ≡ false)
slots_raced_example =
    slots_raced pids (λ x. true) 0 1 0 hurried (λ e. omega (arith, e)) (λ e. cc) refl refl refl

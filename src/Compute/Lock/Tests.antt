-- ===== src/Compute/Lock/Tests.antt =====
-- The theorems about shmem_report at a concrete run: worker 0 reports 6 into the only place, and
-- worker 1 finds the table full.
use perfnum.Prelude.{ℕ, ◌+◌, ◌≡◌, refl, true, false, ◌==◌, if◌then◌else◌, List, [], ◌∷◌, arith}
use perfnum.Compute.Table.Slots.{copies}
use perfnum.Compute.Lock.{
  outside, enter, lock, in_use, unused, full, store, post, leave, System, Step, pick, Steps, here,
  later, start,
}
use perfnum.Compute.Lock.Table.{holds, reports_kept, refused_blocks}

record Reached (first : List ℕ) : Type 0 where
  last : System
  steps : Steps (start first) last

abbrev then_step : {first : List ℕ} (r : Reached first) {s : System} → Step r.last s → Reached first
then_step r st = record { last = _; steps = later r.steps st }

abbrev reporting : Reached (0 ∷ [])
reporting =
    let one =
      then_step (record { last = start (0 ∷ []); steps = here })
        (pick 0 (enter {n = 6} (omega arith))) in
    let two = then_step one (pick 0 (lock refl)) in
    let three = then_step two (pick 1 (enter {n = 28} (omega arith))) in
    let four = then_step three (pick 0 (unused refl)) in then_step four (pick 0 store)

abbrev left_full : Reached (0 ∷ [])
left_full =
    let one = then_step reporting (pick 0 post) in
    let two = then_step one (pick 1 (lock refl)) in
    let three = then_step two (pick 1 (in_use refl (λ e. omega (arith, e)))) in
    then_step three (pick 1 (full (omega arith)))

reports_kept_example :
    (copies 6 reporting.last.mem.table ≡ copies 6 (0 ∷ []) + copies 6 reporting.last.mem.stored)
    × (holds (reporting.last.pc 0) ≡ true → holds (reporting.last.pc 0) ≡ true → ◌≡◌ {A = ℕ} 0 0)
reports_kept_example = reports_kept (0 ∷ []) 6 0 0 reporting.steps (omega arith)

abbrev left : System
left = record {
  mem = left_full.last.mem;
  pc = λ w. if 0 == w then outside else left_full.last.pc w;
}

refused_blocks_example :
    (left.mem.free ≡ false)
    × ((v : ℕ) → holds (left.pc v) ≡ false)
    × (left.mem.table ≡ left_full.last.mem.table)
refused_blocks_example =
    refused_blocks (0 ∷ []) 1 left_full.steps refl (later here (pick 0 (leave refl)))

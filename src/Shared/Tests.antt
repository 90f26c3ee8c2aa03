-- ===== src/Shared/Tests.antt =====
-- The theorems about shared memory mode as a whole at concrete inputs.
use perfnum.Prelude.{suc, ℕ, ◌+◌, ◌≡◌, refl, sym, subst, true, false, some, [], ◌∷◌, arith}
use perfnum.Shmem.{area_bit, store_bit}
use perfnum.Compute.Perfect.{is_perfect_number}
use perfnum.Compute.Table.Slots.{copies}
use perfnum.Compute.Claim.Safety.{mine}
use perfnum.Shared.{start}
use perfnum.Shared.Account.{losses}
use perfnum.Shared.Reported.{has_number, all_reported, reported_perfect}
use perfnum.Compute.Tests.{blank, blank-IsFresh}
use perfnum.Shared.Schedule.{Ran, run}

abbrev beginning : Ran 1 (0 ∷ 0 ∷ [])
beginning = record { last = _; reach = start blank blank-IsFresh }

-- Worker 1 takes the numbers 1 to 6 and reports the last of them; worker 0 takes the others.
abbrev finished : Ran 1 (0 ∷ 0 ∷ [])
finished = run beginning ((0, 1) ∷ (1, 60) ∷ (0, 200) ∷ (1, 100) ∷ [])

claimed_by : (w : ℕ) → mine w 5 finished.last.claims.mem.history ≡ true → w ≡ 1
unfolding run area_bit store_bit is_perfect_number
claimed_by w c = ground arith

finished_idle :
    (w : ℕ)
    → mine w 5 finished.last.claims.mem.history ≡ true
    → has_number (finished.last.claims.pc w) ≡ false
unfolding run area_bit store_bit is_perfect_number
finished_idle w c =
    subst (λ v. has_number (finished.last.claims.pc v) ≡ false) (sym (claimed_by w c)) refl

all_reported_example :
    copies 6 finished.last.table.mem.table + losses 5 finished.last.lost
    ≡ suc (copies 6 (0 ∷ 0 ∷ []))
unfolding run area_bit store_bit is_perfect_number
all_reported_example = all_reported 5 finished.reach (omega arith) finished_idle (omega arith) refl

reported_perfect_example : is_perfect_number 6 ≡ some true
unfolding run area_bit store_bit is_perfect_number
reported_perfect_example = reported_perfect 6 finished.reach (omega arith) (omega arith)

finished_table : finished.last.table.mem.table ≡ 6 ∷ 0 ∷ []
unfolding run area_bit store_bit is_perfect_number
finished_table = refl

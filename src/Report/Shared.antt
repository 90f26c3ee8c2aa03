-- ===== src/Report/Shared.antt =====
-- report.c, shmem_report: the statistics that the report prints from shared memory.
use perfnum.Prelude.{
  ℕ, zero, suc, ◌+◌, ◌≡◌, refl, ◌∙◌, ℤ, pos, negsuc, minus_one, ◌==ℤ◌, Bool, true, false, List, [],
  ◌∷◌, ◌++◌, append-nil, ◌==◌, if◌then◌else◌, arith,
}
use perfnum.Shmem.{Process}
use perfnum.Shmem.Scan.{next_test}

-- a - b in the signed integers.
abbrev minus_int : ℕ → ℕ → ℤ
minus_int a zero = pos a
minus_int zero (suc b) = negsuc b
minus_int (suc a) (suc b) = minus_int a b

pub data Line : Type 0 where
  perfect_numbers : Line  -- "Perfect numbers:"
  number : ℕ → Line  -- "%d"
  processes : Line  -- "Processes:"
  compute : ℤ → ℕ → ℕ → Line  -- "compute (%d): tested %d, found %d"
  complete : Line  -- "Testing complete"
  remaining : ℕ → ℤ → Line  -- "%d tested, %d remaining"
  next_untested : ℤ → Line  -- "Next untested integer: %d"

-- The loop over res->perfect_numbers.
unfoldable pub print_numbers : List ℕ → List Line
print_numbers [] = []
print_numbers (n ∷ ns) = let rest = print_numbers ns in if n == 0 then rest else number n ∷ rest

-- The loop over the processes, from the values of first_proc and total: the lines, and the total
-- afterwards.
unfoldable pub print_processes : List Process → Bool → ℕ → List Line × ℕ
print_processes [] first_proc total = ([], total)
print_processes (p ∷ ps) first_proc total =
    let skipped = print_processes ps first_proc total in
    let (lines, sum) = print_processes ps false (total + p.tested) in
    let line = compute p.pid p.tested p.found in
    if p.pid ==ℤ minus_one
    then skipped
    else if first_proc
    then (processes ∷ line ∷ lines, sum)
    else (line ∷ lines, sum)

-- The lines behind the loop, for the result of next_test.
unfoldable pub print_progress : ℤ → ℕ → ℕ → List Line
print_progress next limit total =
    if next ==ℤ minus_one
    then complete ∷ []
    else remaining total (minus_int limit total) ∷ next_untested next ∷ []

-- shmem_report; `area` is what next_test reads.
unfoldable pub shmem_report : List ℕ → List Process → List ℕ → ℕ → List Line
unfolding print_numbers print_processes print_progress
shmem_report table ps area limit =
    let (lines, total) = print_processes ps true 0 in
    perfect_numbers ∷ (print_numbers table ++ lines ++ print_progress (next_test area) limit total)

-- The processes that are not marked as unused.
abbrev pub running : List Process → List Process
running [] = []
running (p ∷ ps) = let rest = running ps in if p.pid ==ℤ minus_one then rest else p ∷ rest

abbrev pub sum_tested : List Process → ℕ
sum_tested [] = 0
sum_tested (p ∷ ps) = p.tested + sum_tested ps

abbrev pub process_lines : List Process → List Line
process_lines [] = []
process_lines (p ∷ ps) = compute p.pid p.tested p.found ∷ process_lines ps

abbrev pub heading : List Process → List Line
heading [] = []
heading (p ∷ ps) = processes ∷ []

print_processes-later :
    (ps : List Process) (total : ℕ)
    → print_processes ps false total ≡ (process_lines (running ps), total + sum_tested (running ps))
unfolding print_processes
print_processes-later [] total = ground arith
print_processes-later (p ∷ ps) total =
    ground (arith, print_processes-later ps total, print_processes-later ps (total + p.tested))

print_processes-first :
    (ps : List Process) (total : ℕ)
    → print_processes ps true total
      ≡ (heading (running ps) ++ process_lines (running ps), total + sum_tested (running ps))
unfolding print_processes
print_processes-first [] total = ground arith
print_processes-first (p ∷ ps) total =
    ground (arith, print_processes-first ps total, print_processes-later ps (total + p.tested))

-- shmem_report prints the numbers of the table that are not 0, then, below a heading if there is
-- any, a line for each process in a used slot; the total that it gives next to the first number that
-- is not claimed is the sum over the used slots only.
pub shmem_report-lines :
    (table : List ℕ) (ps : List Process) (area : List ℕ) (limit : ℕ)
    → shmem_report table ps area limit
      ≡ perfect_numbers
        ∷ (print_numbers table
            ++ (heading (running ps) ++ process_lines (running ps))
            ++ print_progress (next_test area) limit (sum_tested (running ps)))
unfolding shmem_report
shmem_report-lines table ps area limit = ground (arith, print_processes-first ps 0)

-- A process that ends frees its slot, and its count with it: once no slot is used and numbers are
-- left, shmem_report says that none has been tested and all up to the limit remain.
shmem_report_forgets :
    (table : List ℕ) (ps : List Process) (area : List ℕ) (limit : ℕ)
    → running ps ≡ []
    → (next_test area ==ℤ minus_one) ≡ false
    → shmem_report table ps area limit
      ≡ perfect_numbers
        ∷ (print_numbers table ++ remaining 0 (pos limit) ∷ next_untested (next_test area) ∷ [])
unfolding print_progress
shmem_report_forgets table ps area limit none_left untested =
    shmem_report-lines table ps area limit
    ∙ rw (none_left, untested, append-nil (print_numbers table)) refl

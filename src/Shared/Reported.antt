-- ===== src/Shared/Reported.antt =====
-- The loops of all workers together: from the first number claimed to the last one reported.
use perfnum.Prelude.{
  ℕ, suc, ◌+◌, ◌*◌, ◌≤◌, ◌<◌, ◌≡◌, inl, inr, subst, Bool, true, false, some, List, [], ◌∷◌, ◌==◌,
  Bool-cases, arith,
}
use perfnum.Compute.Perfect.{is_perfect_number}
use perfnum.Compute.Table.Slots.{copies}
use perfnum.Compute.Claim
use perfnum.Compute.Claim.{scanning, returned, exhausted, result, posting, unposted, IsFresh}
use perfnum.Compute.Claim.Invariant.{claims}
use perfnum.Compute.Claim.Safety.{mine}
use perfnum.Compute.Lock
use perfnum.Compute.Lock.{outside, waiting, returns}
use perfnum.Compute.Lock.Table.{reports_kept}
use perfnum.Shared.{State, Reach}
use perfnum.Shared.Account.{losses, Where, AllPerfect}
use perfnum.Shared.Matches.{Reach-AllPerfect, Reach-table}
use perfnum.Shared.Complete.{Reach-Accounted}
use perfnum.Shared.Exact.{Reach-Once}

-- A claim is some worker's.
claims-mine : (k : ℕ) (h : List (ℕ × ℕ)) → 1 ≤ claims k h → (w : ℕ) × (mine w k h ≡ true)
claims-mine k [] lt = absurd (omega (arith, lt))
claims-mine k ((w, j) ∷ h) lt = elim (Bool-cases (j == k)) [
  | inl same ↦ (w, ground arith)
  | inr differs ↦ let (v, c) = claims-mine k h (ground arith) in (v, ground arith)
]

copies-AllPerfect :
    (n : ℕ) (ns : List ℕ) → AllPerfect ns → 1 ≤ copies n ns → is_perfect_number n ≡ some true
copies-AllPerfect n [] a lt = absurd (omega (arith, lt))
copies-AllPerfect n (m ∷ ns) (perfect, more) lt = elim (Bool-cases (m == n)) [
  | inl same ↦ subst (λ x. is_perfect_number x ≡ some true) (ground arith) perfect
  | inr differs ↦ copies-AllPerfect n ns more (ground arith)
]

-- Holding a number that next_test has claimed, or about to return with one.
abbrev pub has_number : Claim.Pc → Bool
has_number (posting k) = true
has_number (returned k) = true
has_number unposted = true
has_number _ = false

idle-Where :
    (p : Claim.Pc) (q : Lock.Pc) (k : ℕ) (stored lost : List ℕ)
    → has_number p ≡ false
    → Where k p q stored lost
    → 1 ≤ copies (suc k) stored + losses k lost
idle-Where p q k stored lost i (inl a) = absurd (ground arith)
idle-Where p q k stored lost i (inr (inl a)) = absurd (ground arith)
idle-Where p q k stored lost i (inr (inr (inl (a, b)))) = absurd (ground arith)
idle-Where p q k stored lost i (inr (inr (inr a))) = a

-- As long as next_test has not written behind the bitmap: when a number of the bitmap that
-- is_perfect_number calls perfect has been claimed, and each worker that claimed it has no number in
-- hand any more, then the table holds that number once more than at the start, or shmem_report
-- returned false once before it stored it, and not both, however the workers interleave.
pub all_reported :
    {size : ℕ} {first : List ℕ} {s : State} (k : ℕ)
    → Reach size first s
    → 1 ≤ claims k s.claims.mem.history
    → ((w : ℕ) → mine w k s.claims.mem.history ≡ true → has_number (s.claims.pc w) ≡ false)
    → k < 8 * size
    → is_perfect_number (suc k) ≡ some true
    → copies (suc k) s.table.mem.table + losses k s.lost ≡ suc (copies (suc k) first)
all_reported {first = first} {s = s} k r one idle lt perfect =
    let (w, c) = claims-mine k s.claims.mem.history one in
    let there =
      idle-Where (s.claims.pc w) (s.table.pc w) k s.table.mem.stored s.lost (idle w c)
        (Reach-Accounted k perfect r w c) in
    omega (
      arith,
      there,
      (Reach-Once k lt r).at_most,
      (reports_kept first (suc k) 0 0 (Reach-table r) (omega arith)).0,
    )

-- In every state that the workers reach before next_test writes behind the bitmap, each number that
-- is in the table more often than at the start is one that is_perfect_number calls perfect.
pub reported_perfect :
    {size : ℕ} {first : List ℕ} {s : State} (n : ℕ)
    → Reach size first s
    → 0 < n
    → copies n first < copies n s.table.mem.table
    → is_perfect_number n ≡ some true
reported_perfect {first = first} {s = s} n r h lt =
    copies-AllPerfect n s.table.mem.stored (Reach-AllPerfect r)
      (omega (arith, lt, (reports_kept first n 0 0 (Reach-table r) h).0))

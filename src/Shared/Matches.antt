-- ===== src/Shared/Matches.antt =====
-- What the workers hold, and the steps of next_test and of shmem_report alone.
use perfnum.Prelude.{ℕ, suc, ◌≡◌, refl, sym, ◌∙◌, ap, subst, List, arith}
use perfnum.Compute.Claim
use perfnum.Compute.Claim.{scanning, returned, exhausted, result, posting, unposted, IsFresh}
use perfnum.Compute.Lock
use perfnum.Compute.Lock.{outside, waiting, returns}
use perfnum.Shared.{
  State, Step, claiming, other, calling, reporting, passing, going_on, Reach, start, later,
}
use perfnum.Shared.Account.{
  number_of, Matches, AllMatch, AllPerfect, reporting-number, Step-AllPerfect, none-Matches,
  returned-Matches, each,
}

-- A worker outside shmem_report has no number in hand.
outside-Matches : {p : Claim.Pc} {q : Lock.Pc} → q ≡ outside → Matches p q
outside-Matches {q = q} e = none-Matches q (ap number_of e)

Step-AllMatch : {size : ℕ} {s t : State} → Step size s t → AllMatch s → AllMatch t
Step-AllMatch {s = s} (claiming w {p = p} out none_yet inside mv) f =
    each (λ v a. Matches a (s.table.pc v)) s.claims.pc (Claim.update s.claims.pc w p) w
      (λ v ne. ground arith) (outside-Matches out) (λ v ne. f v)
Step-AllMatch (other i byte h small) f = f
Step-AllMatch {s = s} (calling w k e out perfect) f =
    each (λ v a. Matches (s.claims.pc v) a) s.table.pc (Lock.update s.table.pc w (waiting (suc k)))
      w (λ v ne. ground arith) (returned-Matches _ k e (ground arith) perfect) (λ v ne. f v)
Step-AllMatch {s = s} (reporting w {q = q} at_p i mv) f =
    each (λ v a. Matches (s.claims.pc v) a) s.table.pc (Lock.update s.table.pc w q) w
      (λ v ne. ground arith)
      (λ n h. f w n (ap number_of at_p ∙ reporting-number i mv n (ap number_of (ground arith) ∙ h)))
      (λ v ne. f v)
Step-AllMatch {s = s} (passing w k e out other_number) f =
    each (λ v a. Matches a (s.table.pc v)) s.claims.pc (Claim.update s.claims.pc w (scanning 0)) w
      (λ v ne. ground arith) (outside-Matches out) (λ v ne. f v)
Step-AllMatch {s = s} (going_on w k e back) f =
    each (λ v a. Matches (Claim.update s.claims.pc w (scanning 0) v) a) s.table.pc
      (Lock.update s.table.pc w outside) w (λ v ne. ground arith) (outside-Matches (ground arith))
      (λ v ne. subst (λ a. Matches a (s.table.pc v)) (ground arith) (f v))

pub Reach-AllMatch : {size : ℕ} {first : List ℕ} {s : State} → Reach size first s → AllMatch s
Reach-AllMatch (start m h) = λ w. none-Matches outside refl
Reach-AllMatch (later r st) = Step-AllMatch st (Reach-AllMatch r)

pub Reach-AllPerfect :
    {size : ℕ} {first : List ℕ} {s : State} → Reach size first s → AllPerfect s.table.mem.stored
Reach-AllPerfect (start m h) = tt
Reach-AllPerfect (later r st) = Step-AllPerfect st (Reach-AllMatch r) (Reach-AllPerfect r)

-- The steps in next_test alone.
pub Reach-claims :
    {size : ℕ} {first : List ℕ} {s : State} → Reach size first s → Claim.Reach size s.claims
Reach-claims (start m h) = Claim.start m h
Reach-claims (later r (claiming w out none_yet inside mv)) =
    Claim.later (Reach-claims r) (Claim.pick w mv)
Reach-claims (later r (other i byte h small)) =
    Claim.later (Reach-claims r) (Claim.other i byte h small)
Reach-claims (later r (calling w k e out perfect)) = Reach-claims r
Reach-claims (later r (reporting w at_p i mv)) = Reach-claims r
Reach-claims (later r (passing w k e out other_number)) =
    Claim.later (Reach-claims r) (Claim.pick w (Claim.again (ap result e) (λ h. cc)))
Reach-claims (later r (going_on w k e back)) =
    Claim.later (Reach-claims r) (Claim.pick w (Claim.again (ap result e) (λ h. cc)))

-- The steps in shmem_report alone.
pub Reach-table :
    {size : ℕ} {first : List ℕ} {s : State}
    → Reach size first s
    → Lock.Steps (Lock.start first) s.table
Reach-table (start m h) = Lock.here
Reach-table (later r (claiming w out none_yet inside mv)) = Reach-table r
Reach-table (later r (other i byte h small)) = Reach-table r
Reach-table (later {s = s} r (calling w k e out perfect)) = Lock.later (Reach-table r) (
    Lock.pick w (
      subst (λ p. Lock.Move s.table.mem p s.table.mem (waiting (suc k))) (sym out)
        (Lock.enter (omega arith))))
Reach-table (later {s = s} r (reporting w {m = m} {q = q} at_p i mv)) =
    Lock.later (Reach-table r)
      (Lock.pick w (subst (λ p. Lock.Move s.table.mem p m q) (sym at_p) mv))
Reach-table (later r (passing w k e out other_number)) = Reach-table r
Reach-table (later r (going_on w k e back)) =
    Lock.later (Reach-table r) (Lock.pick w (Lock.leave back))

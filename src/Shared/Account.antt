-- ===== src/Shared/Account.antt =====
-- Where each claimed number is.
use native.Mathlib.Decide.{ℕ_discrete}
use perfnum.Prelude.{
  ℕ, suc, ◌+◌, ◌≤◌, ◌≡◌, ◌≢◌, ◌⊎◌, inl, inr, refl, sym, subst, Bool, true, false, Option, none,
  some, List, [], ◌∷◌, ◌==◌, if◌then◌else◌, Bool-cases, arith,
}
use perfnum.Compute.Perfect.{is_perfect_number}
use perfnum.Compute.Table.Slots.{copies}
use perfnum.Compute.Claim
use perfnum.Compute.Claim.{
  scanning, returned, result, posting, unposted, see_clear, see_set, at_end, interrupted,
  lock_fails, still_clear, taken, claim, post_skip, post_skip_fails, again,
}
use perfnum.Compute.Claim.Safety.{mine}
use perfnum.Compute.Lock
use perfnum.Compute.Lock.{
  outside, waiting, looking, writing, reported, refused, failed, enter, in_use, unused, full, store,
  leave, returns,
}
use perfnum.Shared.{State, is_inside, Step, reporting}

-- The number that a worker is to report or has reported.
abbrev pub number_of : Lock.Pc → Option ℕ
number_of (waiting n) = some n
number_of (looking n i) = some n
number_of (writing n i) = some n
number_of (Lock.posting n) = some n
number_of (reported n) = some n
number_of (Lock.unposted n) = some n
number_of (refused n) = some n
number_of _ = none

-- The number is not in the table yet.
abbrev pub unstored : Lock.Pc → Bool
unstored (Lock.posting n) = false
unstored (reported n) = false
unstored (Lock.unposted n) = false
unstored _ = true

-- How often place k was lost.
abbrev pub losses : ℕ → List ℕ → ℕ
losses k [] = 0
losses k (j ∷ js) = (if j == k then 1 else 0) + losses k js

-- A worker that has claimed place k, where k + 1 is perfect: it is about to leave next_test, has
-- failed there, has the number in hand, or the number was stored or lost.
abbrev pub Where : ℕ → Claim.Pc → Lock.Pc → List ℕ → List ℕ → Type 0
Where k p q stored lost =
    (p ≡ posting k)
    ⊎ (p ≡ unposted)
    ⊎ ((p ≡ returned k) × (unstored q ≡ true))
    ⊎ (1 ≤ copies (suc k) stored + losses k lost)

abbrev pub Accounted : ℕ → State → Type 0
Accounted k s =
    (w : ℕ)
    → mine w k s.claims.mem.history ≡ true
    → Where k (s.claims.pc w) (s.table.pc w) s.table.mem.stored s.lost

-- What is in hand is what next_test returned, and is perfect.
abbrev pub Matches : Claim.Pc → Lock.Pc → Type 0
Matches p q =
    (n : ℕ)
    → number_of q ≡ some n
    → (k : ℕ) × (p ≡ returned k) × (n ≡ suc k) × (is_perfect_number n ≡ some true)

abbrev pub AllMatch : State → Type 0
AllMatch s = (w : ℕ) → Matches (s.claims.pc w) (s.table.pc w)

-- Only perfect numbers are stored.
abbrev pub AllPerfect : List ℕ → Type 0
AllPerfect [] = Unit
AllPerfect (n ∷ ns) = (is_perfect_number n ≡ some true) × AllPerfect ns

-- A step in next_test, where no report is under way.
pub claiming-Where :
    {w : ℕ} {m m' : Claim.Memory} {p p' : Claim.Pc} (k : ℕ) (stored lost : List ℕ)
    → result p ≡ none
    → Claim.Move w m p m' p'
    → (mine w k m.history ≡ true → Where k p outside stored lost)
    → mine w k m'.history ≡ true
    → Where k p' outside stored lost
claiming-Where k stored lost r (claim {k = j}) h c = elim (Bool-cases (j == k)) [
  | inl same ↦ inl (ground arith)
  | inr differs ↦ elim (h (ground arith)) [
    | inl a ↦ cc
    | inr (inl a) ↦ cc
    | inr (inr (inl a)) ↦ cc
    | inr (inr (inr a)) ↦ inr (inr (inr a))
  ]
]
claiming-Where k stored lost r (again e ne) h c = cc
claiming-Where k stored lost r mv h c = elim (h c) [
  | inl a ↦ ground arith
  | inr (inl a) ↦ ground arith
  | inr (inr (inl a)) ↦ ground arith
  | inr (inr (inr a)) ↦ inr (inr (inr a))
]

pub claiming-history :
    {w : ℕ} {m m' : Claim.Memory} {p p' : Claim.Pc} (v k : ℕ)
    → w ≢ v
    → Claim.Move w m p m' p'
    → mine v k m'.history ≡ true
    → mine v k m.history ≡ true
claiming-history v k differs claim c = ground arith
claiming-history v k differs mv c = c

-- A step in shmem_report.
pub reporting-Where :
    {m m' : Lock.Memory} {p : Claim.Pc} {q q' : Lock.Pc} (k : ℕ) (lost : List ℕ)
    → is_inside q ≡ true
    → Lock.Move m q m' q'
    → Matches p q
    → Where k p q m.stored lost
    → Where k p q' m'.stored lost
reporting-Where k lost i mv f (inl a) = inl a
reporting-Where k lost i mv f (inr (inl a)) = inr (inl a)
reporting-Where k lost i (store {n = n}) f (inr (inr (inl a))) =
    let (j, at_j, same, perfect) = f n refl in inr (inr (inr (ground arith)))
reporting-Where k lost i mv f (inr (inr (inl a))) = ground arith
reporting-Where k lost i (store {n = n}) f (inr (inr (inr a))) = inr (inr (inr (ground arith)))
reporting-Where k lost i mv f (inr (inr (inr a))) = inr (inr (inr a))

pub reporting-others :
    {m m' : Lock.Memory} {q q' : Lock.Pc} (k : ℕ) (p : Claim.Pc) (r : Lock.Pc) (lost : List ℕ)
    → Lock.Move m q m' q'
    → Where k p r m.stored lost
    → Where k p r m'.stored lost
reporting-others k p r lost store (inl a) = inl a
reporting-others k p r lost store (inr (inl a)) = inr (inl a)
reporting-others k p r lost store (inr (inr (inl a))) = inr (inr (inl a))
reporting-others k p r lost (store {n = n}) (inr (inr (inr a))) = inr (inr (inr (ground arith)))
reporting-others k p r lost mv a = a

-- A step in shmem_report keeps the number in hand.
pub reporting-number :
    {m m' : Lock.Memory} {q q' : Lock.Pc}
    → is_inside q ≡ true
    → Lock.Move m q m' q'
    → (n : ℕ) → number_of q' ≡ some n
    → number_of q ≡ some n
reporting-number i (enter h) n e = absurd (ground arith)
reporting-number i (leave h) n e = absurd (ground arith)
reporting-number i Lock.lock_fails n e = absurd (ground arith)
reporting-number i (full h) n e = e
reporting-number i mv n e = e

-- A report that stores keeps the list of what was stored perfect.
reporting-AllPerfect :
    {m m' : Lock.Memory} {p : Claim.Pc} {q q' : Lock.Pc}
    → Lock.Move m q m' q'
    → Matches p q
    → AllPerfect m.stored
    → AllPerfect m'.stored
reporting-AllPerfect (store {n = n}) f a = let (j, at_j, same, perfect) = f n refl in (perfect, a)
reporting-AllPerfect mv f a = a

pub Step-AllPerfect :
    {size : ℕ} {s t : State}
    → Step size s t
    → AllMatch s
    → AllPerfect s.table.mem.stored
    → AllPerfect t.table.mem.stored
Step-AllPerfect (reporting w at_p i mv) f a =
    reporting-AllPerfect mv (subst (Matches _) at_p (f w)) a
Step-AllPerfect mv f a = a

pub none-Matches : {p : Claim.Pc} (q : Lock.Pc) → number_of q ≡ none → Matches p q
none-Matches q e n h = absurd (ground arith)

pub returned-Matches :
    {p : Claim.Pc} (q : Lock.Pc) (k : ℕ)
    → p ≡ returned k
    → number_of q ≡ some (suc k)
    → is_perfect_number (suc k) ≡ some true
    → Matches p q
returned-Matches q k e h perfect n at_n =
    let same : n ≡ suc k = cc in
    (k, e, same, subst (λ x. is_perfect_number x ≡ some true) (sym same) perfect)

-- What a worker's step says about each worker.
pub each :
    {A : Type 0} (P : ℕ → A → Type 0) (f g : ℕ → A) (w : ℕ)
    → ((v : ℕ) → w ≢ v → g v ≡ f v)
    → P w (g w)
    → ((v : ℕ) → w ≢ v → P v (f v))
    → (v : ℕ) → P v (g v)
each P f g w same here others v = elim (ℕ_discrete w v) [
  | yes e ↦ subst (λ u. P u (g u)) e here
  | no differs ↦ subst (P v) (sym (same v differs)) (others v differs)
]
